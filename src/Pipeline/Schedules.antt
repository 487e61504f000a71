-- ===== src/Pipeline/Schedules.antt =====
-- The monitor's check fed by the worker pool.
use mathlib.Core.List.{Permᴰ}
use mathlib.Core.List.Permᴰ
use integrity_sum.Base.{
  ℕ, suc, ◌≡◌, Bool, false, List, map, Option, none, some, Bytes, All, length, [],
}
use integrity_sum.Base.Map.{Map}
use integrity_sum.Base.Result.{ok}
use integrity_sum.Worker.Files.{hashes_of}
use integrity_sum.Process.{get_process_path, check_sum_file}
use integrity_sum.Snapshot.{Host, calculate_and_write_hashes}
use integrity_sum.Snapshot.RoundTrip.{IsRecordable}
use integrity_sum.Snapshot.Output.{all_hashes}
use integrity_sum.Monitor.{compared, IsRange, Sources, compare_hashes}
use integrity_sum.Pool.{Pool, started, Steps, IsOver, delivered}
use integrity_sum.Pool.Delivery.{pool_delivers_all}
use integrity_sum.Pipeline.{under, IsDistinct, unchanged_files_pass}

module _ (range : Map Bytes → Option (Bytes × Bytes)) (is_range : IsRange range)
    (ctx_done : ℕ → Bool) (running : (n : ℕ) → ctx_done n ≡ false) where
  -- No false alarm, whatever the goroutines do: if the snapshot tool ended without an error, the
  -- object store returns its file, and hashing the files that the walk of the process finds gives the
  -- hashes of the snapshot, then every run of the pool, with at least one worker, that the reader
  -- follows to its end makes the check pass. The files have to be recordable and no two may have one
  -- path.
  pub every_schedule_passes :
      (h : Host) (before : Option Bytes) (text : Bytes) (o : Sources)
      (proc_name alg proc_dirs cs_file : Bytes) (hash_of : Bytes → Option Bytes) (n : ℕ)
      (names : List Bytes) (t : Pool)
      → calculate_and_write_hashes h before ≡ (some text, none)
      → All IsRecordable (all_hashes h h.dirs)
      → IsDistinct (all_hashes h h.dirs)
      → get_process_path o.pidof [] ≡ ok proc_dirs
      → check_sum_file o.unicode_lower o.process_image o.pod_namespace proc_name alg ≡ ok cs_file
      → o.load cs_file ≡ some text
      → Permᴰ (map (under proc_dirs) (all_hashes h h.dirs)) (hashes_of hash_of names)
      → Steps hash_of false (started (suc n) names) t
      → IsOver t
      → compare_hashes range ctx_done o (delivered t) proc_name alg
        ≡ compared (length (all_hashes h h.dirs))
  every_schedule_passes h before text o proc_name alg proc_dirs cs_file hash_of n names t wrote
        recordable distinct pid name load unchanged run is_over =
      unchanged_files_pass range is_range ctx_done running h before text o proc_name alg proc_dirs
        cs_file (delivered t) wrote recordable distinct pid name load
        (Permᴰ.trans unchanged (Permᴰ.symm (pool_delivers_all hash_of n names t run is_over)))
