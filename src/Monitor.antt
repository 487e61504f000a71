-- ===== src/Monitor.antt =====
-- internal/integritymonitor: `compareHashes` and `IntegrityError`. The channel of hashes is the list
-- of the items that it delivers before it is closed; `ctx_done n` says that the context is done when
-- the item with number n has been received. Nothing here fixes the order of the items.
pub mod Loop
pub mod Verdicts
pub mod Arrival
pub mod Tests
use integrity_sum.Base.{
  ℕ, zero, suc, Bool, true, false, List, [], ◌∷◌, ◌++◌, Option, none, some, Bytes, codes, same,
  length, if◌then◌else◌, ◌==◌, ◌≡◌, ◌≢◌,
}
use integrity_sum.Base.Map.{Map, lookup, insert, delete}
use integrity_sum.Base.Result.{Result, ok, err, ◌>>=◌}
use integrity_sum.Strings.Search.{trim_prefix}
use integrity_sum.Worker.{FileHash}
use integrity_sum.Checksums.{HashDataOutput, ReadError, get}
use integrity_sum.Process.{ProcessError, get_process_path, check_sum_file}

-- `iota + 1`
abbrev pub err_type_file_mismatch : ℕ
err_type_file_mismatch = 1

abbrev pub err_type_new_file : ℕ
err_type_new_file = 2

abbrev pub err_type_file_deleted : ℕ
err_type_file_deleted = 3

pub record IntegrityError : Type 0 where
  pub kind : ℕ
  pub path : Bytes
  pub hash : Bytes

-- `Error`
unfoldable pub error_text : IntegrityError → Bytes
error_text e =
    if e.kind == err_type_new_file
    then codes "new file found"
    else if e.kind == err_type_file_deleted
    then codes "file deleted"
    else if e.kind == err_type_file_mismatch
    then codes "file content mismatch"
    else codes "unknown integrity error"

-- What arrives on `errC`.
pub data CheckError : Type 0 where
  process_path_failed sum_file_failed : ProcessError → CheckError
  load_failed : CheckError
  hash_data_failed : ReadError → CheckError
  integrity : IntegrityError → CheckError

-- How the goroutine ends: it sends an error, or the number of hashes, or it sees that the context is
-- done and only closes `doneC`.
pub data Verdict : Type 0 where
  failed : CheckError → Verdict
  compared : ℕ → Verdict
  stopped : Verdict

-- `expectedHashesMap[h.FullFileName] = h.Hash` for each record
unfoldable pub expected_map : List HashDataOutput → Map Bytes → Map Bytes
expected_map [] m = m
expected_map (h ∷ hs) m = expected_map hs (insert h.full_file_name h.hash m)

-- How the loop over the channel ends; `drained` has the records that no file matched.
pub data LoopEnd : Type 0 where
  mismatch new_file : Bytes → Bytes → LoopEnd
  drained : Map Bytes → LoopEnd
  cancelled : LoopEnd

-- One item, with its path stripped: the rest of the loop is given for the case that it goes on.
abbrev pub compare_item : Option Bytes → Bytes → Bytes → LoopEnd → LoopEnd
compare_item none path hash rest = new_file path hash
compare_item (some h) path hash rest = if same h hash then rest else mismatch path hash

unfoldable pub compare_loop : (ℕ → Bool) → ℕ → Bytes → List FileHash → Map Bytes → LoopEnd
compare_loop ctx_done n proc_dirs [] expected = drained expected
compare_loop ctx_done n proc_dirs (v ∷ vs) expected =
    let path = trim_prefix v.path proc_dirs in
    let rest = compare_loop ctx_done (suc n) proc_dirs vs (delete path expected) in
    if ctx_done n then cancelled else compare_item (lookup path expected) path v.hash rest

-- `for p, h := range expectedHashesMap` reports the first entry that it visits; which one that is,
-- Go does not fix, and `range` chooses.
abbrev pub report_deleted : Option (Bytes × Bytes) → ℕ → Verdict
report_deleted none count = compared count
report_deleted (some (p, h)) count =
    failed (integrity (record { kind = err_type_file_deleted; path = p; hash = h }))

abbrev pub verdict : (Map Bytes → Option (Bytes × Bytes)) → ℕ → LoopEnd → Verdict
verdict range count (mismatch p h) =
    failed (integrity (record { kind = err_type_file_mismatch; path = p; hash = h }))
verdict range count (new_file p h) =
    failed (integrity (record { kind = err_type_new_file; path = p; hash = h }))
verdict range count (drained rest) = report_deleted (range rest) count
verdict range count cancelled = stopped

-- The first entry that `range` visits: there is one exactly if the map is not empty.
pub record IsRange (range : Map Bytes → Option (Bytes × Bytes)) : Type 0 where
  pub of_empty : range [] ≡ none
  pub of_entry : (k v : Bytes) (m : Map Bytes) → range ((k, v) ∷ m) ≢ none
  pub entry : (m : Map Bytes) (k v : Bytes) → range m ≡ some (k, v) → lookup k m ≡ some v

-- From the records on, with the path prefix known.
unfoldable pub compare_records :
    (Map Bytes → Option (Bytes × Bytes))
    → (ℕ → Bool)
    → Bytes
    → List FileHash
    → List HashDataOutput
    → Verdict
compare_records range ctx_done proc_dirs hash_c expected_hashes =
    verdict range (length expected_hashes)
      (compare_loop ctx_done 0 proc_dirs hash_c (expected_map expected_hashes []))

-- What `compareHashes` asks of the outside: the output of `pidof`, the flags, and the object store.
pub record Sources : Type 0 where
  pub pidof : Option Bytes
  pub unicode_lower : Bytes → Bytes
  pub process_image : Map Bytes
  pub pod_namespace : Bytes
  pub load : Bytes → Option Bytes

-- `fmt.Errorf("…: %w", err)`
abbrev wrap : {E A : Type 0} → (E → CheckError) → Result E A → Result CheckError A
wrap f (ok a) = ok a
wrap f (err e) = err (f e)

abbrev loaded : Option Bytes → Result CheckError Bytes
loaded none = err load_failed
loaded (some hash_data) = ok hash_data

-- The path prefix and the records, or the first error on the way to them.
unfoldable pub prepare : Sources → Bytes → Bytes → Result CheckError (Bytes × List HashDataOutput)
prepare o proc_name alg = do
  proc_dirs ← wrap process_path_failed (get_process_path o.pidof [])
  cs_file ←
      wrap sum_file_failed
        (check_sum_file o.unicode_lower o.process_image o.pod_namespace proc_name alg)
  hash_data ← loaded (o.load cs_file)
  expected_hashes ← wrap hash_data_failed (get hash_data)
  ok (proc_dirs, expected_hashes)

abbrev pub conclude :
    (Map Bytes → Option (Bytes × Bytes))
    → (ℕ → Bool)
    → List FileHash
    → Result CheckError (Bytes × List HashDataOutput)
    → Verdict
conclude range ctx_done hash_c (err e) = failed e
conclude range ctx_done hash_c (ok (proc_dirs, rs)) =
    compare_records range ctx_done proc_dirs hash_c rs

unfoldable pub compare_hashes :
    (Map Bytes → Option (Bytes × Bytes))
    → (ℕ → Bool)
    → Sources
    → List FileHash
    → Bytes
    → Bytes
    → Verdict
compare_hashes range ctx_done o hash_c proc_name alg =
    conclude range ctx_done hash_c (prepare o proc_name alg)
