-- ===== src/Kernel/Paging/Chunks.antt =====
-- `chunks`: what a file is cut into, and that it comes together again.
use flockdb.Prelude.{
  ℕ, zero, suc, ◌≤◌, ◌<◌, ◌≡◌, refl, ap, ◌∙◌, Bool, true, false, List, [], ◌∷◌, ◌++◌, arith, length,
  take, drop, length-take, length-drop, take-append-drop,
}
use flockdb.Foreign.{Bytes}
use flockdb.Kernel.Paging.{chunks_of, chunks}

abbrev pub concat : List Bytes → Bytes
concat [] = []
concat (c ∷ cs) = c ++ concat cs

abbrev pub nonempty : List Bytes → Bool
nonempty [] = false
nonempty (_ ∷ _) = true

-- Every chunk but the last is a whole page.
abbrev pub Full : ℕ → List Bytes → Type 0
Full page_size [] = Unit
Full page_size (c ∷ []) = Unit
Full page_size (c ∷ d ∷ cs) = (length c ≡ page_size) × Full page_size (d ∷ cs)

chunks_of-concat :
    (fuel page_size : ℕ) (bytes : Bytes)
    → 0 < page_size
    → length bytes ≤ fuel
    → concat (chunks_of fuel page_size bytes) ≡ bytes
unfolding chunks_of
chunks_of-concat zero page_size [] p q = refl
chunks_of-concat zero page_size (b ∷ bytes) p q = absurd (omega arith)
chunks_of-concat (suc fuel) page_size [] p q = refl
chunks_of-concat (suc fuel) page_size (b ∷ bytes) p q =
    let l = length-drop page_size (b ∷ bytes) in
    let ih = chunks_of-concat fuel page_size (drop page_size (b ∷ bytes)) p (omega arith) in
    ap (λ t. take page_size (b ∷ bytes) ++ t) ih ∙ take-append-drop page_size (b ∷ bytes)

pub chunks-concat :
    (page_size : ℕ) (bytes : Bytes) → 0 < page_size → concat (chunks page_size bytes) ≡ bytes
unfolding chunks
chunks-concat page_size bytes p = chunks_of-concat (length bytes) page_size bytes p (omega arith)

Full-behind :
    (fuel page_size : ℕ) (first rest : Bytes)
    → (0 < length rest → length first ≡ page_size)
    → Full page_size (chunks_of fuel page_size rest)
    → Full page_size (first ∷ chunks_of fuel page_size rest)
unfolding chunks_of
Full-behind zero page_size first rest h f = tt
Full-behind (suc fuel) page_size first [] h f = tt
Full-behind (suc fuel) page_size first (b ∷ rest) h f = (h (omega arith), f)

chunks_of-Full :
    (fuel page_size : ℕ) (bytes : Bytes)
    → 0 < page_size
    → Full page_size (chunks_of fuel page_size bytes)
unfolding chunks_of
chunks_of-Full zero page_size bytes p = tt
chunks_of-Full (suc fuel) page_size [] p = tt
chunks_of-Full (suc fuel) page_size (b ∷ bytes) p =
    let l = length-drop page_size (b ∷ bytes) in
    let t = length-take page_size (b ∷ bytes) in
    Full-behind fuel page_size (take page_size (b ∷ bytes)) (drop page_size (b ∷ bytes))
      (λ more. omega arith) (chunks_of-Full fuel page_size (drop page_size (b ∷ bytes)) p)

pub chunks-Full :
    (page_size : ℕ) (bytes : Bytes) → 0 < page_size → Full page_size (chunks page_size bytes)
unfolding chunks
chunks-Full page_size bytes p = chunks_of-Full (length bytes) page_size bytes p
