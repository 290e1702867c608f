-- ===== src/Kernel/Examples.antt =====
-- A page store in memory, and a file of ten bytes that is persisted over two old pages.
use flockdb.Prelude.{
  ℕ, get_elem?, zero, suc, ◌+◌, ◌≡◌, refl, ◌∙◌, inl, inr, false, List, [], ◌∷◌, Option, none, some,
  String, arith, ◌==◌, ==_iff, Bool-cases, Result, ok, err, if◌then◌else◌, contains, contains_below,
  AscendsFrom, AscendsFrom-weaken,
}
use flockdb.Foreign.{ManifestId, Bytes}
use flockdb.Kernel.Paging.{
  PageStore, ScratchFile, removed, put_file, hydrate, persist, finished, chunks, chunks_of,
}
use flockdb.Kernel.Paging.Store.{is_some, edited, Healthy}
use flockdb.Kernel.Paging.RoundTrip.{hydrate-persist}
use flockdb.Kernel.Paging.Unchanged.{persist_unchanged}

abbrev pub Slots : Type 0
Slots = List (Option Bytes)

abbrev pub Edits : Type 0
Edits = List (ℕ × Option Bytes)

unfoldable pub slot : Slots → ℕ → Option Bytes
slot [] p = none
slot (x ∷ xs) zero = x
slot (x ∷ xs) (suc p) = slot xs p

unfoldable pub keys_from : ℕ → Slots → List ℕ
keys_from i [] = []
keys_from i (none ∷ xs) = keys_from (suc i) xs
keys_from i (some b ∷ xs) = i ∷ keys_from (suc i) xs

keys_from-AscendsFrom : (i : ℕ) (xs : Slots) → AscendsFrom i (keys_from i xs)
unfolding keys_from
keys_from-AscendsFrom i [] = tt
keys_from-AscendsFrom i (none ∷ xs) =
    AscendsFrom-weaken i (suc i) (keys_from (suc i) xs) (omega arith)
      (keys_from-AscendsFrom (suc i) xs)
keys_from-AscendsFrom i (some b ∷ xs) = (omega arith, keys_from-AscendsFrom (suc i) xs)

contains-keys_from :
    (i : ℕ) (xs : Slots) (q k : ℕ) → q ≡ i + k → contains q (keys_from i xs) ≡ is_some (slot xs k)
unfolding keys_from slot
contains-keys_from i [] q k e = refl
contains-keys_from i (none ∷ xs) q zero e =
    contains_below q (suc i) (keys_from (suc i) xs) (omega arith) (keys_from-AscendsFrom (suc i) xs)
contains-keys_from i (none ∷ xs) q (suc k) e = contains-keys_from (suc i) xs q k (omega arith)
contains-keys_from i (some b ∷ xs) q zero e =
    let h : q ≡ i = omega arith in rw ((==_iff q i).1 h) refl
contains-keys_from i (some b ∷ xs) q (suc k) e =
    let n : (q == i) ≡ false = ground (arith, e) in
    rw n (contains-keys_from (suc i) xs q k (omega arith))

unfoldable pub put : ℕ → Option Bytes → Slots → Slots
put zero e [] = e ∷ []
put zero e (x ∷ xs) = e ∷ xs
put (suc p) e [] = none ∷ put p e []
put (suc p) e (x ∷ xs) = x ∷ put p e xs

slot-put :
    (p : ℕ) (e : Option Bytes) (xs : Slots) (q : ℕ)
    → slot (put p e xs) q ≡ (if q == p then e else slot xs q)
unfolding slot put
slot-put zero e [] zero = ground arith
slot-put zero e [] (suc q) = ground arith
slot-put zero e (x ∷ xs) zero = ground arith
slot-put zero e (x ∷ xs) (suc q) = ground arith
slot-put (suc p) e [] zero = ground arith
slot-put (suc p) e [] (suc q) = ground (arith, slot-put p e [] q)
slot-put (suc p) e (x ∷ xs) zero = ground arith
slot-put (suc p) e (x ∷ xs) (suc q) = ground (arith, slot-put p e xs q)

unfoldable pub edit_at : Edits → ℕ → Option (Option Bytes)
edit_at [] q = none
edit_at ((p, e) ∷ rest) q = if q == p then some e else edit_at rest q

unfoldable pub apply_edits : Edits → Slots → Slots
apply_edits [] xs = xs
apply_edits ((p, e) ∷ rest) xs = put p e (apply_edits rest xs)

slot-apply_edits :
    (es : Edits) (xs : Slots) (q : ℕ)
    → slot (apply_edits es xs) q ≡ edited (edit_at es q) (slot xs q)
unfolding apply_edits edit_at
slot-apply_edits [] xs q = refl
slot-apply_edits ((p, e) ∷ rest) xs q = elim (Bool-cases (q == p)) [
  | inl same ↦ slot-put p e (apply_edits rest xs) q ∙ rw same refl
  | inr other ↦ slot-put p e (apply_edits rest xs) q ∙ rw other (slot-apply_edits rest xs q)
]

abbrev pub found : Option Bytes → Result String Bytes
found none = err "no such page"
found (some b) = ok b

-- The head is a number that a commit counts up; the state is the head and its pages.
abbrev pub memory : PageStore (ManifestId × Slots) Edits
memory = record {
  page_size = 4;
  head = λ s. s.0;
  resolve = λ m s. ok (keys_from 0 s.1);
  read = λ m p s. found (slot s.1 p);
  begin = λ s. ok [];
  write = λ txn p b s. (ok (p, (p, some b) ∷ txn), s);
  remove = λ txn p s. (ok ((p, none) ∷ txn), s);
  commit = λ txn s. (ok (suc s.0), (suc s.0, apply_edits txn s.1));
}

pub memory_laws : Healthy memory
unfolding edit_at
memory_laws = record {
  content = λ s. slot s.1;
  edits = edit_at;
  resolves = λ s. (
    keys_from 0 s.1,
    refl,
    keys_from-AscendsFrom 0 s.1,
    λ p. contains-keys_from 0 s.1 p p (omega arith),
  );
  reads = λ s p b h. rw h refl;
  begins = λ s. ([], refl, λ p. refl);
  writes = λ txn p b s. (p, (p, some b) ∷ txn, s, refl, refl, (λ q. refl), (λ q. refl));
  removes = λ txn p s. ((p, none) ∷ txn, s, refl, refl, (λ q. refl), (λ q. refl));
  commits = λ txn s.
      (suc s.0, (suc s.0, apply_edits txn s.1), refl, refl, λ q. slot-apply_edits txn s.1 q);
}

-- The scratch file: its bytes, if there is one.
abbrev scratch_file : ScratchFile (Option Bytes)
scratch_file = record {
  read = λ f. found f;
  write = λ bytes f. (ok tt, some bytes);
  remove_file = λ f. (removed, none);
}

abbrev pub ten : Bytes
ten = 1 ∷ 2 ∷ 3 ∷ 4 ∷ 5 ∷ 6 ∷ 7 ∷ 8 ∷ 9 ∷ 10 ∷ []

abbrev pub two_pages : Slots
two_pages = some (1 ∷ 2 ∷ 3 ∷ 4 ∷ []) ∷ some (0 ∷ []) ∷ none ∷ none ∷ some (9 ∷ []) ∷ []

hydrate-persist_example :
    (m : ManifestId) × (s' : ManifestId × Slots) × (persist memory scratch_file
        (some ten)
        (7, two_pages)
      ≡ (ok m, s'))
    × (memory.head s' ≡ m)
    × (hydrate memory scratch_file m none s' ≡ put_file scratch_file ten none)
hydrate-persist_example =
    hydrate-persist memory memory_laws scratch_file ten (some ten) none (7, two_pages) (omega arith)
      refl

abbrev six : Bytes
six = 1 ∷ 2 ∷ 3 ∷ 4 ∷ 5 ∷ 6 ∷ []

abbrev six_pages : Slots
six_pages = some (1 ∷ 2 ∷ 3 ∷ 4 ∷ []) ∷ some (5 ∷ 6 ∷ []) ∷ []

six_same : (p : ℕ) → memory_laws.content (7, six_pages) p ≡ get_elem? (chunks 4 six) p
unfolding memory_laws slot chunks chunks_of
six_same zero = refl
six_same (suc zero) = refl
six_same (suc (suc p)) = refl

persist_unchanged_example :
    persist memory scratch_file (some six) (7, six_pages)
    ≡ finished memory (memory.commit [] (7, six_pages))
persist_unchanged_example =
    persist_unchanged memory memory_laws scratch_file six (some six) (7, six_pages) [] refl refl
      six_same
