-- ===== src/Kernel/Paging/Unchanged.antt =====
-- A checkpoint of a database that has not changed stages nothing.
use flockdb.Prelude.{
  ℕ, zero, suc, ◌+◌, ◌<◌, ◌≡◌, refl, sym, ap, ◌∙◌, true, false, List, [], ◌∷◌, Option, none, some,
  arith, leb, ==_iff, ok, length, get_elem?, contains,
}
use flockdb.Foreign.{LogicalPageNo, Bytes}
use flockdb.Kernel.Paging.{
  PageStore, ScratchFile, same_bytes, chunks, stage_chunk, stage_chunks, remove_tail, finished,
  persist,
}
use flockdb.Kernel.Paging.Store.{is_some, Healthy}

same_bytes_self : (b : Bytes) → same_bytes b b ≡ true
unfolding same_bytes
same_bytes_self [] = refl
same_bytes_self (x ∷ b) = rw ((==_iff x x).1 refl) (same_bytes_self b)

get_elem?-within : (cs : List Bytes) (k : ℕ) {b : Bytes} → get_elem? cs k ≡ some b → k < length cs
get_elem?-within [] k h = absurd (cc h)
get_elem?-within (c ∷ cs) zero h = omega arith
get_elem?-within (c ∷ cs) (suc k) h = let z = get_elem?-within cs k h in omega (arith, z)

module _ {S Txn F : Type 0} (st : PageStore S Txn) (healthy : Healthy st)
    (disk : ScratchFile F) where
  stage_chunks_same :
      (s : S) (txn : Txn) (old : List LogicalPageNo) (i : ℕ) (cs : List Bytes)
      → ((p : ℕ) → contains p old ≡ is_some (healthy.content s p))
      → ((q k : ℕ) (b : Bytes) → q ≡ i + k → get_elem? cs k ≡ some b → healthy.content s q ≡ some b)
      → stage_chunks st (st.head s) old i cs txn s ≡ (ok txn, s)
  unfolding stage_chunks stage_chunk
  stage_chunks_same s txn old i [] known same = refl
  stage_chunks_same s txn old i (c ∷ cs) known same =
      let here = same i 0 c (omega arith) refl in
      let there : contains i old ≡ true = known i ∙ ap is_some here in
      rw (there, healthy.reads s i c here, same_bytes_self c, stage_chunks)
        (stage_chunks_same s txn old (suc i) cs known
          (λ q k b at g. same q (suc k) b (omega (arith, at)) g))

  remove_tail_none :
      (s : S) (txn : Txn) (n : ℕ) (old : List LogicalPageNo)
      → ((p : ℕ) → contains p old ≡ true → leb n p ≡ false)
      → remove_tail st n old txn s ≡ (ok txn, s)
  unfolding remove_tail
  remove_tail_none s txn n [] h = refl
  remove_tail_none s txn n (p ∷ old) h =
      let here = h p (rw ((==_iff p p).1 refl) refl) in
      rw (here, remove_tail) (remove_tail_none s txn n old (λ q r. h q (ground (arith, r))))

  -- Over a page store that does as substrate documents: where the scratch file is what the head's pages
  -- hold already, page by page, `persist` writes no page and removes none, and what it commits is the
  -- transaction as it was begun.
  pub persist_unchanged :
      (bytes : Bytes) (f : F) (s : S) (txn : Txn)
      → disk.read f ≡ ok bytes
      → st.begin s ≡ ok txn
      → ((p : ℕ) → healthy.content s p ≡ get_elem? (chunks st.page_size bytes) p)
      → persist st disk f s ≡ finished st (st.commit txn s)
  unfolding persist
  persist_unchanged bytes f s txn readable begins same =
      let (old, e, ascends, known) = healthy.resolves s in
      let cs = chunks st.page_size bytes in
      let staged =
        stage_chunks_same s txn old 0 cs known
          (λ q k b at g. let z : q ≡ k = omega (arith, at) in rw z (same k ∙ g)) in
      let kept =
        remove_tail_none s txn (length cs) old
          (λ p r. within p (get_elem? cs p) refl (ap is_some (sym (same p)) ∙ sym (known p) ∙ r)) in
      rw (readable, persist) (rw (e, persist) (rw (begins, persist) (rw staged (rw kept refl))))
    where
      within :
          (p : ℕ) (o : Option Bytes)
          → get_elem? (chunks st.page_size bytes) p ≡ o
          → is_some (get_elem? (chunks st.page_size bytes) p) ≡ true
          → leb (length (chunks st.page_size bytes)) p ≡ false
      within p none e h = absurd (let z = rw e at h in cc z)
      within p (some b) e h =
          let z = get_elem?-within (chunks st.page_size bytes) p e in ground (arith, z)
