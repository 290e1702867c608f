-- ===== src/Kernel/Paging/Loops.antt =====
-- The two loops of `persist`.
use flockdb.Prelude.{
  ℕ, zero, suc, ◌+◌, ◌≤◌, ◌<◌, ◌≡◌, refl, sym, ap, ◌∙◌, inl, inr, false, ◌&&◌, List, [], ◌∷◌,
  Option, none, some, arith, leb, ◌==◌, Bool-cases, Result, if◌then◌else◌, length, get_elem?,
  contains,
}
use flockdb.Foreign.{LogicalPageNo, Bytes}
use flockdb.Kernel.Error.{KernelError}
use flockdb.Kernel.Paging.{PageStore, stage_chunks, remove_tail}
use flockdb.Kernel.Paging.Store.{is_some, edited, Healthy, Went, stage_chunk-Staged}

inside_step :
    (e : ℕ → Option (Option Bytes)) (content : ℕ → Option Bytes) (i : ℕ) (c : Bytes)
    (cs : List Bytes)
    → edited (e i) (content i) ≡ some c
    → ((k : ℕ) → k < length cs → edited (e (suc i + k)) (content (suc i + k)) ≡ get_elem? cs k)
    → (k : ℕ) → k < length (c ∷ cs)
    → edited (e (i + k)) (content (i + k)) ≡ get_elem? (c ∷ cs) k
inside_step e content i c cs here later zero h = let p : i + 0 ≡ i = omega arith in rw p here
inside_step e content i c cs here later (suc k) h =
    let p : i + suc k ≡ suc i + k = omega arith in rw p (later k (omega arith))

ne_test : (a b : ℕ) → a < b → (a == b) ≡ false
ne_test a b h = ground arith

ne_test_above : (a b : ℕ) → b < a → (a == b) ≡ false
ne_test_above a b h = ground arith

module _ {S Txn : Type 0} (st : PageStore S Txn) (healthy : Healthy st) where
  -- All chunks from page `i` on are in place, and no other page is touched.
  pub record AllStaged (i : ℕ) (cs : List Bytes) (txn : Txn) (s : S)
      (out : Result KernelError Txn × S) : Type 0 where
    pub step : Went st healthy s out
    pub inside :
        (k : ℕ)
        → k < length cs
        → edited (healthy.edits step.txn (i + k)) (healthy.content s (i + k)) ≡ get_elem? cs k
    pub below : (q : ℕ) → q < i → healthy.edits step.txn q ≡ healthy.edits txn q
    pub behind : (q : ℕ) → i + length cs ≤ q → healthy.edits step.txn q ≡ healthy.edits txn q

  pub stage_chunks-AllStaged :
      (old : List LogicalPageNo) (i : ℕ) (cs : List Bytes) (txn : Txn) (s : S)
      → ((q : ℕ) → contains q old ≡ is_some (healthy.content s q))
      → ((q : ℕ) → i ≤ q → healthy.edits txn q ≡ none)
      → AllStaged i cs txn s (stage_chunks st (st.head s) old i cs txn s)
  unfolding stage_chunks
  stage_chunks-AllStaged old i [] txn s known clean = record {
    step = record { txn = txn; store = s; went = refl; head = refl; same = λ q. refl };
    inside = λ k h. absurd (omega arith);
    below = λ q h. refl;
    behind = λ q h. refl;
  }
  stage_chunks-AllStaged old i (c ∷ cs) txn s known clean =
      let one = stage_chunk-Staged st healthy old i c txn s (known i) (clean i (omega arith)) in
      let more =
        stage_chunks-AllStaged old (suc i) cs one.step.txn one.step.store
          (λ q. known q ∙ ap is_some (sym (one.step.same q)))
          (λ q h. one.others q (ne_test_above q i (omega arith)) ∙ clean q (omega arith)) in
      let went = rw one.step.head at more.step.went in
      rw one.step.went (record {
        step = record {
          txn = more.step.txn;
          store = more.step.store;
          went = went;
          head = more.step.head ∙ one.step.head;
          same = λ q. more.step.same q ∙ one.step.same q;
        };
        inside =
            inside_step (healthy.edits more.step.txn) (healthy.content s) i c cs
              (rw (more.below i (omega arith)) one.here)
              (λ k h. rw (← one.step.same (suc i + k)) (more.inside k h));
        below = λ q h. more.below q (omega arith) ∙ one.others q (ne_test q i h);
        behind =
            λ q h. more.behind q (omega arith) ∙ one.others q (ne_test_above q i (omega arith));
      })

  -- The removals: every old page from `n` on, and no other.
  pub record TailRemoved (n : ℕ) (old : List LogicalPageNo) (txn : Txn) (s : S)
      (out : Result KernelError Txn × S) : Type 0 where
    pub step : Went st healthy s out
    pub gone :
        (q : ℕ)
        → healthy.edits step.txn q
          ≡ (if contains q old && leb n q then some none else healthy.edits txn q)

  pub remove_tail-TailRemoved :
      (n : ℕ) (old : List LogicalPageNo) (txn : Txn) (s : S)
      → TailRemoved n old txn s (remove_tail st n old txn s)
  unfolding remove_tail
  remove_tail-TailRemoved n [] txn s = record {
    step = record { txn = txn; store = s; went = refl; head = refl; same = λ q. refl };
    gone = λ q. refl;
  }
  remove_tail-TailRemoved n (p ∷ old) txn s = elim (Bool-cases (leb n p)) [
    | inl past ↦
        let (txn', s', e, h, same, at) = healthy.removes txn p s in
        let more = remove_tail-TailRemoved n old txn' s' in
        rw (past, remove_tail)
          (rw e (record {
            step = record {
              txn = more.step.txn;
              store = more.step.store;
              went = more.step.went;
              head = more.step.head ∙ h;
              same = λ q. more.step.same q ∙ same q;
            };
            gone = λ q. ground (arith, more.gone q, at q, past);
          }))
    | inr kept ↦
        let more = remove_tail-TailRemoved n old txn s in
        rw (kept, remove_tail)
          (record { step = more.step; gone = λ q. ground (arith, more.gone q, kept) })
  ]
