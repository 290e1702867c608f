-- ===== src/Flockd/Examples.antt =====
-- The theorems about the warm sets at small traces, and a recorded read of a small file.
use flockdb.Prelude.{
  ℕ, suc, ◌+◌, ◌/◌, ◌<◌, ◌≡◌, refl, arith, true, false, List, [], ◌∷◌, contains, ok, length,
}
use flockdb.Foreign.{Bytes}
use flockdb.Vfs.Source.{PageSource}
use flockdb.Vfs.Read.{serve_read, serve_loop, fault_slice, page_slice, copy_slice}
use flockdb.Flockd.WarmSet.{WarmSet, new, learn, learn_page, binary_search, insert_at}
use flockdb.Flockd.WarmSet.Learn.{IsValid, learn-IsValid}
use flockdb.Flockd.Recording.{
  start, recording, recording_read_page, add_record, touched, dedup, dedup_after,
}
use flockdb.Prelude.Sorting.{sort, insert_sorted}
use flockdb.Prelude.Dict.{lookup, insert}
use flockdb.Flockd.Recording.Transparent.{serve_read_records}
use flockdb.Flockd.Scheduler.{DbId, empty, observe, warm_set, prewarm}
use flockdb.Flockd.Scheduler.Warming.{empty-AllValid, recorded_read, warmed, warmed_what_was_read}

abbrev held : WarmSet
held = record { pages = 2 ∷ 5 ∷ []; saturated = false }

abbrev trace : List ℕ
trace = 5 ∷ 3 ∷ 9 ∷ 3 ∷ []

held-IsValid : IsValid held
held-IsValid = record {
  ascends = (omega arith, (omega arith, tt));
  bounded = omega arith;
  full = λ h. cc;
}

learns : learn held trace ≡ record { pages = 2 ∷ 3 ∷ 5 ∷ 9 ∷ []; saturated = false }
unfolding learn learn_page binary_search insert_at
learns = refl

learn-IsValid_example : IsValid (learn held trace)
learn-IsValid_example = learn-IsValid held trace held-IsValid

abbrev file : PageSource ℕ
file = record {
  page_size = 2;
  read_page = λ no s. (ok (no ∷ no ∷ []), suc s);
  prefetch = λ pages s. s + length pages;
}

abbrev buffer : Bytes
buffer = 0 ∷ 0 ∷ 0 ∷ []

recorded : (serve_read (recording file) 10 3 buffer (start 0)).0 ≡ ok 3
unfolding serve_read serve_loop fault_slice page_slice copy_slice recording recording_read_page
    add_record start
recorded = refl

serve_read_records_example :
    contains ((3 + 1) / 2) (serve_read (recording file) 10 3 buffer (start 0)).2.touched_log ≡ true
serve_read_records_example =
    serve_read_records file 10 3 buffer (start 0) 3 recorded 1 (omega arith)

abbrev sales : DbId
sales = record { id = "sales" }

abbrev ops : DbId
ops = record { id = "ops" }

warmed_room : (warmed file 10 3 buffer 0 empty sales).saturated ≡ false
unfolding serve_read serve_loop fault_slice page_slice copy_slice recording recording_read_page
    add_record start observe warm_set empty touched sort insert_sorted dedup dedup_after lookup
    insert learn learn_page binary_search insert_at new
warmed_room = refl

warmed_what_was_read_example :
    (handed : List ℕ) × (prewarm
        (observe empty sales (touched (recorded_read file 10 3 buffer 0).2))
        sales
        file
        0
      ≡ (length handed, file.prefetch handed 0))
    × ((i : ℕ) → i < 3 → contains ((3 + i) / 2) handed ≡ true)
warmed_what_was_read_example =
    warmed_what_was_read file 10 3 buffer 0 file 0 empty sales 3 empty-AllValid recorded warmed_room
