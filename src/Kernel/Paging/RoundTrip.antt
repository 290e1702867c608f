-- ===== src/Kernel/Paging/RoundTrip.antt =====
-- A file that is persisted is hydrated byte for byte.
use flockdb.Prelude.{
  ℕ, zero, suc, ◌+◌, ◌*◌, ◌-◌, ◌≤◌, ◌<◌, ◌≡◌, refl, sym, ap, ◌∙◌, inl, inr, Bool, true, false, ◌&&◌,
  List, [], ◌∷◌, ◌++◌, append-nil, append_assoc, Option, none, some, arith, leb, ◌==◌, ==_iff,
  leb→le, leb→lt, Bool-cases, Result, ok, if◌then◌else◌, length, length-append, get_elem?, contains,
  contains_below, AscendsFrom,
}
use flockdb.Foreign.{ManifestId, LogicalPageNo, Bytes}
use flockdb.Kernel.Error.{KernelError}
use flockdb.Kernel.Paging.{
  PageStore, ScratchFile, chunks, put_file, hydrate_pages, assemble, hydrate, checkpoint, persist,
}
use flockdb.Kernel.Paging.Chunks.{concat, Full, chunks-concat, chunks-Full}
use flockdb.Kernel.Paging.Store.{is_some, edited, Healthy}
use flockdb.Kernel.Paging.Loops.{stage_chunks-AllStaged, remove_tail-TailRemoved}

get_elem?_in : (cs : List Bytes) (k : ℕ) → k < length cs → is_some (get_elem? cs k) ≡ true
get_elem?_in [] k h = absurd (omega arith)
get_elem?_in (c ∷ cs) zero h = refl
get_elem?_in (c ∷ cs) (suc k) h = get_elem?_in cs k (omega arith)

get_elem?_out : (cs : List Bytes) (k : ℕ) → length cs ≤ k → get_elem? cs k ≡ none
get_elem?_out [] k h = refl
get_elem?_out (c ∷ cs) zero h = absurd (omega arith)
get_elem?_out (c ∷ cs) (suc k) h = get_elem?_out cs k (omega arith)

-- The chunks stand on the pages from `i` on.
record Stands (i : ℕ) (cs : List Bytes) (keys : List LogicalPageNo) : Type 0 where
  pub ascends : AscendsFrom i keys
  pub listed : (q k : ℕ) → q ≡ i + k → contains q keys ≡ is_some (get_elem? cs k)

-- The first page of pages that stand on `c ∷ cs` is `i`, and the others stand behind it.
Stands-first :
    (i p : ℕ) (c : Bytes) (cs : List Bytes) (keys : List LogicalPageNo)
    → Stands i (c ∷ cs) (p ∷ keys)
    → (p ≡ i) × Stands (suc i) cs keys
Stands-first i p c cs keys h =
    let first : contains i (p ∷ keys) ≡ true = h.listed i 0 (omega arith) in
    let low : i ≤ p = h.ascends.0 in
    let e : p ≡ i = elim (Bool-cases (i == p)) [
      | inl same ↦ sym ((==_iff i p).0 same)
      | inr other ↦
          let rest : contains i keys ≡ true = rw other at first in
          absurd (cc (rest, contains_below i (suc p) keys (omega arith) h.ascends.1))
    ] in
    (
      e,
      record {
        ascends = rw e at h.ascends.1;
        listed = λ q k at.
            let l : contains q (p ∷ keys) ≡ is_some (get_elem? cs k) =
              h.listed q (suc k) (omega arith) in
            let n : (q == p) ≡ false = ground (arith, e, at) in rw n at l;
      },
    )

next_page : (i page_size a b : ℕ) → a ≡ i * page_size → b ≡ page_size → a + b ≡ suc i * page_size
next_page i page_size a b e f = grind arith

module _ {S Txn : Type 0} (st : PageStore S Txn) (m : ManifestId) (s : S) where
  -- The file that pages standing on full chunks come together to.
  hydrate_pages-Stands :
      (i : ℕ) (cs : List Bytes) (keys : List LogicalPageNo) (file : Bytes)
      → Full st.page_size cs
      → Stands i cs keys
      → ((q k : ℕ) (c : Bytes) → q ≡ i + k → get_elem? cs k ≡ some c → st.read m q s ≡ ok c)
      → (0 < length cs → length file ≡ i * st.page_size)
      → hydrate_pages st m keys file s ≡ ok (file ++ concat cs)
  unfolding hydrate_pages
  hydrate_pages-Stands i [] [] file f h r l = ap ok (sym (append-nil file))
  hydrate_pages-Stands i [] (p ∷ keys) file f h r l =
      let low = h.ascends.0 in
      let t : contains p (p ∷ keys) ≡ false = h.listed p (p - i) (omega arith) in
      absurd (ground (arith, t))
  hydrate_pages-Stands i (c ∷ cs) [] file f h r l = absurd (cc (h.listed i 0 (omega arith)))
  hydrate_pages-Stands i (c ∷ cs) (p ∷ keys) file f h r l =
      let (e, later) = Stands-first i p c cs keys h in
      let aligned : (length file == p * st.page_size) ≡ true =
        (==_iff _ _).1 (rw e (l (omega arith))) in
      let page : st.read m p s ≡ ok c = r p 0 c (omega arith) refl in
      let ih =
        hydrate_pages-Stands (suc i) cs keys (file ++ c) (tail_full cs f) later
          (λ q k c' at g. r q (suc k) c' (omega arith) g)
          (λ more.
            length-append file c
            ∙ next_page i st.page_size (length file) (length c) (l (omega arith))
                (whole cs f more)) in
      rw (aligned, hydrate_pages) (rw page (ih ∙ ap ok (append_assoc file c (concat cs))))
    where
      whole :
          (ds : List Bytes) → Full st.page_size (c ∷ ds) → 0 < length ds → length c ≡ st.page_size
      whole [] g q = absurd (omega arith)
      whole (d ∷ ds) g q = g.0

      tail_full : (ds : List Bytes) → Full st.page_size (c ∷ ds) → Full st.page_size ds
      tail_full [] g = tt
      tail_full (d ∷ ds) g = g.1

final_page :
    (cs : List Bytes) (q : ℕ) (is_old : Bool) (x1 x2 : Option (Option Bytes)) (c0 : Option Bytes)
    → is_old ≡ is_some c0
    → x2 ≡ (if is_old && leb (length cs) q then some none else x1)
    → (q < length cs → edited x1 c0 ≡ get_elem? cs q)
    → (length cs ≤ q → x1 ≡ none)
    → edited x2 c0 ≡ get_elem? cs q
final_page cs q is_old x1 x2 c0 known gone inside behind = elim (Bool-cases (leb (length cs) q)) [
  | inl past ↦
      let out = get_elem?_out cs q (leb→le _ _ past) in
      let x = behind (leb→le _ _ past) in rw (gone, past, out, x) (removed is_old c0 known)
  | inr before ↦ rw (gone, before) (kept is_old (inside (leb→lt _ _ before)))
]
  where
    removed :
        (o : Bool) (c : Option Bytes)
        → o ≡ is_some c
        → edited (if o && true then some none else none) c ≡ none
    removed true c k = refl
    removed false none k = refl
    removed false (some b) k = absurd (cc k)

    kept :
        (o : Bool)
        → edited x1 c0 ≡ get_elem? cs q
        → edited (if o && false then some none else x1) c0 ≡ get_elem? cs q
    kept true h = h
    kept false h = h

module _ {S Txn F : Type 0} (st : PageStore S Txn) (healthy : Healthy st)
    (disk : ScratchFile F) where
  -- The committed state holds exactly the file's chunks.
  record Committed (cs : List Bytes) (out : Result KernelError ManifestId × S) : Type 0 where
    pub manifest : ManifestId
    pub store : S
    pub went : out ≡ (ok manifest, store)
    pub head : st.head store ≡ manifest
    pub holds : (q : ℕ) → healthy.content store q ≡ get_elem? cs q

  checkpoint-Committed :
      (bytes : Bytes) (old : List LogicalPageNo) (s : S)
      → ((q : ℕ) → contains q old ≡ is_some (healthy.content s q))
      → Committed (chunks st.page_size bytes) (checkpoint st bytes old s (st.begin s))
  checkpoint-Committed bytes old s known =
      let (txn, e, clean) = healthy.begins s in
      let cs = chunks st.page_size bytes in
      let put = stage_chunks-AllStaged st healthy old 0 cs txn s known (λ q h. clean q) in
      let cut = remove_tail-TailRemoved st healthy (length cs) old put.step.txn put.step.store in
      let (m, s', did, at, becomes) = healthy.commits cut.step.txn cut.step.store in
      rw e (
        rw put.step.went (
          rw cut.step.went (
            rw did (record {
              manifest = m;
              store = s';
              went = refl;
              head = at;
              holds = λ q.
                  let z : 0 + q ≡ q = omega arith in
                  becomes q
                  ∙ ap (edited (healthy.edits cut.step.txn q)) (cut.step.same q ∙ put.step.same q)
                  ∙ final_page cs q (contains q old) (healthy.edits put.step.txn q)
                      (healthy.edits cut.step.txn q) (healthy.content s q) (known q) (cut.gone q)
                      (λ h. rw z at (put.inside q h)) (λ h. put.behind q (omega arith) ∙ clean q);
            }))))

  -- What a persisted state comes together to.
  Committed-assemble :
      (bytes : Bytes) (out : Result KernelError ManifestId × S)
      → 0 < st.page_size
      → (c : Committed (chunks st.page_size bytes) out) → assemble st c.manifest c.store ≡ ok bytes
  unfolding assemble
  Committed-assemble bytes out p c =
      let cs = chunks st.page_size bytes in
      let (keys, e, ascends, listed) = healthy.resolves c.store in
      let e' : st.resolve c.manifest c.store ≡ ok keys = rw c.head at e in
      rw e' (
        hydrate_pages-Stands st c.manifest c.store 0 cs keys [] (chunks-Full st.page_size bytes p)
          (record {
            ascends = ascends;
            listed =
                λ q k at. let z : q ≡ k = omega arith in rw z (listed k ∙ ap is_some (c.holds k));
          })
          (λ q k b at g.
            let z : q ≡ k = omega arith in
            rw z (rw c.head at (healthy.reads c.store k b (c.holds k ∙ g))))
          (λ more. omega arith)
        ∙ ap ok (chunks-concat st.page_size bytes p))

  hydrate_file :
      (m : ManifestId) (s : S) (f : F) {bytes : Bytes}
      → assemble st m s ≡ ok bytes
      → hydrate st disk m f s ≡ put_file disk bytes f
  unfolding hydrate
  hydrate_file m s f e = rw (e, hydrate) refl

  -- What a persisted state is, for any file that it may be put into.
  pub persist-assemble :
      (bytes : Bytes) (f : F) (s : S)
      → 0 < st.page_size
      → disk.read f ≡ ok bytes
      → (m : ManifestId) × (s' : S) × (persist st disk f s ≡ (ok m, s'))
        × (st.head s' ≡ m)
        × (assemble st m s' ≡ ok bytes)
  unfolding persist
  persist-assemble bytes f s p readable =
      let (old, e, ascends, known) = healthy.resolves s in
      let c = checkpoint-Committed bytes old s known in
      rw (readable, persist)
        (rw (e, persist) (c.manifest, c.store, c.went, c.head, Committed-assemble bytes _ p c))

  -- Over a page store that does as substrate documents, with pages of a byte or more, and a scratch
  -- file that can be read: `persist` succeeds, whatever pages the head had before, and its manifest is
  -- the new head; and hydrating that manifest puts exactly the bytes of the file that was persisted
  -- into a scratch file, or no file at all where there were none.
  pub hydrate-persist :
      (bytes : Bytes) (f f' : F) (s : S)
      → 0 < st.page_size
      → disk.read f ≡ ok bytes
      → (m : ManifestId) × (s' : S) × (persist st disk f s ≡ (ok m, s'))
        × (st.head s' ≡ m)
        × (hydrate st disk m f' s' ≡ put_file disk bytes f')
  hydrate-persist bytes f f' s p readable =
      let (m, s', went, head, whole) = persist-assemble bytes f s p readable in
      (m, s', went, head, hydrate_file m s' f' whole)
