-- ===== src/Kernel/Paging/Store.antt =====
-- What `persist` stages and removes, over a page store that does as substrate documents.
use flockdb.Prelude.{
  ℕ, ◌≡◌, refl, ap, ◌∙◌, inl, inr, Bool, true, false, List, [], ◌∷◌, Option, none, some, arith,
  ◌==◌, ==_iff, Bool-cases, Option-cases, Result, ok, if◌then◌else◌, contains, AscendsFrom,
}
use flockdb.Foreign.{ManifestId, PageId, LogicalPageNo, Bytes}
use flockdb.Kernel.Error.{KernelError}
use flockdb.Kernel.Paging.{PageStore, same_bytes, staged, stage_chunk}

abbrev pub is_some : Option Bytes → Bool
is_some none = false
is_some (some b) = true

-- A page after an edit: `some none` removes it.
abbrev pub edited : Option (Option Bytes) → Option Bytes → Option Bytes
edited none old = old
edited (some new) old = new

-- The pages of the head, the edits of a transaction, and what the store's calls do to them.
pub record Healthy {S Txn : Type 0} (st : PageStore S Txn) : Type 0 where
  pub content : S → ℕ → Option Bytes
  pub edits : Txn → ℕ → Option (Option Bytes)
  pub resolves :
      (s : S)
      → (keys : List LogicalPageNo) × (st.resolve (st.head s) s ≡ ok keys)
        × AscendsFrom 0 keys
        × ((p : ℕ) → contains p keys ≡ is_some (content s p))
  pub reads : (s : S) (p : ℕ) (b : Bytes) → content s p ≡ some b → st.read (st.head s) p s ≡ ok b
  pub begins : (s : S) → (txn : Txn) × (st.begin s ≡ ok txn) × ((p : ℕ) → edits txn p ≡ none)
  pub writes :
      (txn : Txn) (p : ℕ) (b : Bytes) (s : S)
      → (id : PageId) × (txn' : Txn) × (s' : S) × (st.write txn p b s ≡ (ok (id, txn'), s'))
        × (st.head s' ≡ st.head s)
        × ((q : ℕ) → content s' q ≡ content s q)
        × ((q : ℕ) → edits txn' q ≡ (if q == p then some (some b) else edits txn q))
  pub removes :
      (txn : Txn) (p : ℕ) (s : S)
      → (txn' : Txn) × (s' : S) × (st.remove txn p s ≡ (ok txn', s'))
        × (st.head s' ≡ st.head s)
        × ((q : ℕ) → content s' q ≡ content s q)
        × ((q : ℕ) → edits txn' q ≡ (if q == p then some none else edits txn q))
  pub commits :
      (txn : Txn) (s : S)
      → (m : ManifestId) × (s' : S) × (st.commit txn s ≡ (ok m, s'))
        × (st.head s' ≡ m)
        × ((q : ℕ) → content s' q ≡ edited (edits txn q) (content s q))

same_bytes→eq : (a b : Bytes) → same_bytes a b ≡ true → a ≡ b
unfolding same_bytes
same_bytes→eq [] [] h = refl
same_bytes→eq [] (y ∷ b) h = absurd (cc h)
same_bytes→eq (x ∷ a) [] h = absurd (cc h)
same_bytes→eq (x ∷ a) (y ∷ b) h =
    let e : x ≡ y = (==_iff x y).0 (ground (arith, h)) in
    let f = same_bytes→eq a b (ground (arith, h)) in cc (e, f)

module _ {S Txn : Type 0} (st : PageStore S Txn) (healthy : Healthy st) where
  -- A step that went through and left the head and its pages.
  pub record Went (s : S) (out : Result KernelError Txn × S) : Type 0 where
    pub txn : Txn
    pub store : S
    pub went : out ≡ (ok txn, store)
    pub head : st.head store ≡ st.head s
    pub same : (q : ℕ) → healthy.content store q ≡ healthy.content s q

  -- The chunk is in the page's place afterwards, and no other page is touched.
  pub record Staged (i : ℕ) (chunk : Bytes) (txn : Txn) (s : S) (out : Result KernelError Txn × S)
      : Type 0 where
    pub step : Went s out
    pub here : edited (healthy.edits step.txn i) (healthy.content s i) ≡ some chunk
    pub others : (q : ℕ) → (q == i) ≡ false → healthy.edits step.txn q ≡ healthy.edits txn q

  write-Staged :
      (i : ℕ) (chunk : Bytes) (txn : Txn) (s : S)
      → Staged i chunk txn s (staged st (st.write txn i chunk s))
  write-Staged i chunk txn s =
      let (id, txn', s', e, h, same, at) = healthy.writes txn i chunk s in
      rw e (record {
        step = record { txn = txn'; store = s'; went = refl; head = h; same = same };
        here = rw (at i) (rw ((==_iff i i).1 refl) refl);
        others = λ q n. rw (at q) (rw n refl);
      })

  pub stage_chunk-Staged :
      (old : List LogicalPageNo) (i : ℕ) (chunk : Bytes) (txn : Txn) (s : S)
      → contains i old ≡ is_some (healthy.content s i)
      → healthy.edits txn i ≡ none
      → Staged i chunk txn s (stage_chunk st (st.head s) old i chunk txn s)
  unfolding stage_chunk
  stage_chunk-Staged old i chunk txn s known clean = elim (Option-cases (healthy.content s i)) [
    | inl gone ↦ rw (rw gone at known) (write-Staged i chunk txn s)
    | inr (b, held) ↦ rw (rw held at known) (
        rw (healthy.reads s i b held) (elim (Bool-cases (same_bytes b chunk)) [
          | inl unchanged ↦ rw unchanged (record {
            step = record { txn = txn; store = s; went = refl; head = refl; same = λ q. refl };
            here = rw clean (held ∙ ap some (same_bytes→eq b chunk unchanged));
            others = λ q n. refl;
          })
          | inr changed ↦ rw changed (write-Staged i chunk txn s)
        ]))
  ]
