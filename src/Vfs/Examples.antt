-- ===== src/Vfs/Examples.antt =====
-- The theorems about the VFS at a small file: ten bytes in pages of four, behind a source that counts
-- its faults, and one that fails on the last page.
use flockdb.Prelude.{
  ℕ, zero, suc, ◌+◌, ◌*◌, ◌/◌, ◌%◌, ◌<◌, ◌≤◌, ◌≡◌, refl, arith, String, false, [], ◌∷◌, length,
  get_elem?, none, some, ok, err, ltb, if◌then◌else◌,
}
use flockdb.Prelude.Int.{pos}
use flockdb.Foreign.{Bytes}
use flockdb.Vfs.Error.{fault}
use flockdb.Vfs.Source.{PageSource}
use flockdb.Vfs.Read.{serve_read, serve_loop, fault_slice, page_slice, copy_slice}
use flockdb.Vfs.Read.Loop.{served_len}
use flockdb.Vfs.Read.Bytewise.{Safe, serve_read-Safe, Agrees, serve_read_bytes}
use flockdb.Vfs.Read.Complete.{Holds, serve_read_succeeds}
use flockdb.Vfs.Backend.{TierEnv}
use flockdb.Vfs.Ffi.{OpenEnv, FlockVfs, flock_vfs_pread}
use flockdb.Vfs.Ffi.Pread.{CSafe, memory_of, flock_vfs_pread-CSafe}

abbrev page : ℕ → Bytes
page zero = 10 ∷ 11 ∷ 12 ∷ 13 ∷ []
page (suc zero) = 14 ∷ 15 ∷ 16 ∷ 17 ∷ []
page _ = 18 ∷ 19 ∷ []

abbrev counting : PageSource ℕ
counting = record {
  page_size = 4;
  read_page = λ no s. (ok (page no), s + 1);
  prefetch = λ pages s. s;
}

abbrev failing : PageSource ℕ
failing = record {
  page_size = 4;
  read_page = λ no s. if ltb no 2 then (ok (page no), s + 1) else (err (fault no "gone"), s);
  prefetch = λ pages s. s;
}

abbrev six : Bytes
six = 0 ∷ 0 ∷ 0 ∷ 0 ∷ 0 ∷ 0 ∷ []

-- Two faults, and the bytes across the page boundary.
serve_read_across : serve_read counting 10 2 six 0 ≡ (ok 6, 12 ∷ 13 ∷ 14 ∷ 15 ∷ 16 ∷ 17 ∷ [], 2)
unfolding serve_read serve_loop fault_slice page_slice copy_slice
serve_read_across = refl

-- At the end of the file the read is short.
serve_read_short : serve_read counting 10 7 six 0 ≡ (ok 3, 17 ∷ 18 ∷ 19 ∷ 0 ∷ 0 ∷ 0 ∷ [], 2)
unfolding serve_read serve_loop fault_slice page_slice copy_slice
serve_read_short = refl

-- What was copied before an error stays copied.
partial_read :
    serve_read failing 10 7 six 0 ≡ (err (fault 2 "gone"), 17 ∷ 0 ∷ 0 ∷ 0 ∷ 0 ∷ 0 ∷ [], 1)
unfolding serve_read serve_loop fault_slice page_slice copy_slice
partial_read = refl

serve_read-Safe_example : Safe 10 7 six (serve_read failing 10 7 six 0)
serve_read-Safe_example = serve_read-Safe failing 10 7 six 0

counting-Agrees : Agrees counting page
counting-Agrees = record { same = λ no s p s' e. cc e }

serve_read_bytes_example : get_elem? (serve_read counting 10 2 six 0).1 3 ≡ get_elem? (page 1) 1
serve_read_bytes_example =
    serve_read_bytes counting page counting-Agrees 10 2 six 0 6 (λ i. (serve_read_across i).0) 3
      (omega arith)

counting-Holds : Holds counting page 10
counting-Holds = record {
  addressable = omega arith;
  sized = omega arith;
  read = λ p s h. refl;
  fits = λ p h. page_fits (p / 4);
  within = λ p h. page_within (p / 4) (p % 4) (omega arith) (omega arith);
}
  where
    page_fits : (no : ℕ) → length (page no) ≤ 4
    page_fits zero = omega arith
    page_fits (suc zero) = omega arith
    page_fits (suc (suc _)) = omega arith

    page_within : (no off : ℕ) → off < 4 → no * 4 + off < 10 → off < length (page no)
    page_within zero off h q = omega arith
    page_within (suc zero) off h q = omega arith
    page_within (suc (suc _)) off h q = omega arith

serve_read_succeeds_example : (serve_read counting 10 7 six 0).0 ≡ ok (served_len 10 7 six)
serve_read_succeeds_example = serve_read_succeeds counting page 10 counting-Holds 7 six 0

abbrev handle : FlockVfs ℕ
handle = record { source = counting; total_len = 10; misses = λ s. s; hits = λ s. 0 }

flock_vfs_pread-CSafe_example :
    CSafe
      (served_len 10 7 (0 ∷ 0 ∷ 0 ∷ 0 ∷ 0 ∷ []))
      5
      six
      (flock_vfs_pread (some handle) (pos 7) (some six) 5 0).0
      (memory_of (flock_vfs_pread (some handle) (pos 7) (some six) 5 0).1)
flock_vfs_pread-CSafe_example = flock_vfs_pread-CSafe handle 0 7 5 six (omega arith) (omega arith)

abbrev on_disk : TierEnv String
on_disk = record {
  s3_feature = false;
  var = λ name. none;
  local_file_system = λ dir. ok dir;
  amazon_s3 = λ config. err "no network";
}

abbrev pool : String
pool = "tenant"

abbrev waking : OpenEnv String ℕ
waking = record {
  tiers = on_disk;
  from_hex = λ hex. ok 7;
  create_dir_all = λ dir. ok tt;
  runtime_build = ok tt;
  wake_store = λ dir remote token. ok token.manifest;
}

abbrev file_len : ℕ
file_len = 10
