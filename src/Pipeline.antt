-- ===== src/Pipeline.antt =====
-- From the snapshot tool to the monitor: cmd/snapshot writes the checksums file, the monitor loads it
-- and compares the files of a running process with it.
pub mod Schedules
pub mod ProcessRoot
pub mod SameTree
pub mod EndToEnd
pub mod Deployed
pub mod Alarm
pub mod NoWorkers
pub mod Timeout
pub mod Tests
use mathlib.Core.List.{Permᴰ}
use integrity_sum.Base.{
  ℕ, suc, ◌≡◌, refl, ap, sym, ◌∙◌, Bool, false, List, [], ◌∷◌, ◌++◌, map, Option, none, some, Bytes,
  All, same, same_iff, if◌then◌else◌, length, arith,
}
use integrity_sum.Base.Map.{Map, lookup}
use integrity_sum.Base.Result.{Result, ok, err}
use integrity_sum.Strings.Search.{trim_prefix, trim_prefix-append}
use integrity_sum.Worker.{FileHash}
use integrity_sum.Checksums.{HashDataOutput, get}
use integrity_sum.Process.{get_process_path, check_sum_file}
use integrity_sum.Snapshot.{SnapshotError, Host, calculate_and_write_hashes}
use integrity_sum.Snapshot.RoundTrip.{IsRecordable, outputs}
use integrity_sum.Snapshot.Output.{all_hashes, snapshot_is_read_back}
use integrity_sum.Monitor.{
  Verdict, compared, IsRange, Sources, prepare, compare_records, compare_hashes,
}
use integrity_sum.Monitor.Loop.{files, Distinct}
use integrity_sum.Monitor.Verdicts.{recorded, passes_iff_Unchanged}
use integrity_sum.Monitor.Arrival.{passes_in_any_order}

-- The file of the snapshot as the monitor's scan sees it, below the root of the process.
abbrev pub under : Bytes → FileHash → FileHash
under proc_dirs v = record v { path = proc_dirs ++ v.path }

-- No two files of the snapshot have one path.
abbrev pub IsDistinct : List FileHash → Type 0
IsDistinct vs = Distinct (files [] vs)

files-under :
    (proc_dirs : Bytes) (vs : List FileHash)
    → files proc_dirs (map (under proc_dirs) vs) ≡ files [] vs
unfolding files
files-under proc_dirs [] = refl
files-under proc_dirs (v ∷ vs) =
    cc (trim_prefix-append proc_dirs v.path, trim_prefix-append [] v.path, files-under proc_dirs vs)

pub recorded-outputs :
    (q : Bytes) (vs : List FileHash)
    → IsDistinct vs
    → recorded q (outputs vs) ≡ lookup q (files [] vs)
unfolding recorded files lookup
recorded-outputs q [] d = refl
recorded-outputs q (v ∷ vs) (fresh, d) =
    ground (arith, recorded-outputs q vs d, trim_prefix-append [] v.path, same_iff v.path q)

length-outputs : (vs : List FileHash) → length (outputs vs) ≡ length vs
length-outputs [] = refl
length-outputs (v ∷ vs) = ap suc (length-outputs vs)

pub prepare-eq-ok :
    (o : Sources) (proc_name alg proc_dirs cs_file text : Bytes) (rs : List HashDataOutput)
    → get_process_path o.pidof [] ≡ ok proc_dirs
    → check_sum_file o.unicode_lower o.process_image o.pod_namespace proc_name alg ≡ ok cs_file
    → o.load cs_file ≡ some text
    → get text ≡ ok rs
    → prepare o proc_name alg ≡ ok (proc_dirs, rs)
unfolding prepare
prepare-eq-ok o proc_name alg proc_dirs cs_file text rs pid name load records =
    rw (pid, name, load, records)

module _ (range : Map Bytes → Option (Bytes × Bytes)) (is_range : IsRange range)
    (ctx_done : ℕ → Bool) (running : (n : ℕ) → ctx_done n ≡ false) where
  -- No false alarm: if the snapshot tool ended without an error, the object store returns its file,
  -- and the scan of the process delivers the files of the snapshot, in any order and with the same
  -- hashes, then the check passes. The files have to be recordable and no two may have one path.
  pub unchanged_files_pass :
      (h : Host) (before : Option Bytes) (text : Bytes) (o : Sources)
      (proc_name alg proc_dirs cs_file : Bytes) (scanned : List FileHash)
      → calculate_and_write_hashes h before ≡ (some text, none)
      → All IsRecordable (all_hashes h h.dirs)
      → IsDistinct (all_hashes h h.dirs)
      → get_process_path o.pidof [] ≡ ok proc_dirs
      → check_sum_file o.unicode_lower o.process_image o.pod_namespace proc_name alg ≡ ok cs_file
      → o.load cs_file ≡ some text
      → Permᴰ (map (under proc_dirs) (all_hashes h h.dirs)) scanned
      → compare_hashes range ctx_done o scanned proc_name alg
        ≡ compared (length (all_hashes h h.dirs))
  unfolding compare_hashes
  unchanged_files_pass h before text o proc_name alg proc_dirs cs_file scanned wrote recordable
        distinct pid name load p =
      let vs = all_hashes h h.dirs in
      let ready =
        prepare-eq-ok o proc_name alg proc_dirs cs_file text (outputs vs) pid name load
          (snapshot_is_read_back h before text wrote recordable) in
      rw ready (
        passes_in_any_order range is_range ctx_done running proc_dirs (outputs vs)
          (map (under proc_dirs) vs) scanned (length vs) p
          ((passes_iff_Unchanged range is_range ctx_done proc_dirs (map (under proc_dirs) vs)
              (outputs vs) running (length vs)).1
            (
              sym (length-outputs vs),
              record {
                distinct = rw files-under distinct;
                agree = λ q. rw files-under (recorded-outputs q vs distinct);
              },
            )))
