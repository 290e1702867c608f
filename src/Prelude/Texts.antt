-- ===== src/Prelude/Texts.antt =====
-- Texts that the code takes apart: lists of bytes or of code points.
use Prim.Native.Nat.{ℕ}
use Prim.Native.String.{String}
use Prim.Native.Char.{code}
use mathlib.Core.Bool.{Bool, true, false, ◌&&◌, ◌||◌}
use mathlib.Core.Option.{Option, none, some}
use mathlib.Core.List.{List, [], ◌∷◌, ◌++◌}
use flockdb.Prelude.Tests.{ltb, ◌==◌, if◌then◌else◌}

unfoldable pub same_text : List ℕ → List ℕ → Bool
same_text [] [] = true
same_text (a ∷ as') (b ∷ bs) = a == b && same_text as' bs
same_text _ _ = false

unfoldable pub strip_suffix : List ℕ → List ℕ → Option (List ℕ)
unfolding same_text
strip_suffix suffix [] = if same_text suffix [] then some [] else none
strip_suffix suffix (c ∷ cs) =
    if same_text suffix (c ∷ cs)
    then some []
    else elim (strip_suffix suffix cs) [ some stem ↦ some (c ∷ stem) | none ↦ none ]

unfoldable pub contains_text : List ℕ → List (List ℕ) → Bool
unfolding same_text
contains_text name [] = false
contains_text name (n ∷ names) = same_text name n || contains_text name names

-- The order of strings: by their code points, as by their UTF-8 bytes.
unfoldable pub text_leb : List ℕ → List ℕ → Bool
text_leb [] bs = true
text_leb (a ∷ as') [] = false
text_leb (a ∷ as') (b ∷ bs) = ltb a b || (a == b && text_leb as' bs)

unfoldable pub insert_text : List ℕ → List (List ℕ) → List (List ℕ)
unfolding text_leb
insert_text x [] = x ∷ []
insert_text x (y ∷ ys) = if text_leb x y then x ∷ y ∷ ys else y ∷ insert_text x ys

unfoldable pub sort_texts : List (List ℕ) → List (List ℕ)
unfolding insert_text
sort_texts [] = []
sort_texts (x ∷ xs) = insert_text x (sort_texts xs)

-- The code points of a literal.
abbrev pub codes : String → List ℕ
codes String.[] = []
codes (String.◌∷◌ c s) = code c ∷ codes s

-- `text.replace(c, with)`.
unfoldable pub replace : ℕ → List ℕ → List ℕ → List ℕ
replace c with [] = []
replace c with (d ∷ ds) = (if d == c then with else d ∷ []) ++ replace c with ds

-- `text.rsplit_once(c)`: around the last `c`.
abbrev pub split_more : ℕ → ℕ → List ℕ → Option (List ℕ × List ℕ) → Option (List ℕ × List ℕ)
split_more c d ds (some (before, behind)) = some (d ∷ before, behind)
split_more c d ds none = if d == c then some ([], ds) else none

unfoldable pub rsplit_once : ℕ → List ℕ → Option (List ℕ × List ℕ)
rsplit_once c [] = none
rsplit_once c (d ∷ ds) = split_more c d ds (rsplit_once c ds)
