-- ===== src/Pipeline/EndToEnd.antt =====
-- From one file tree to a check that passes: the snapshot tool's walk of the unpacked image, its
-- file, the monitor's walk of the running process, its workers, and the comparison.
use integrity_sum.Base.{
  ℕ, suc, ◌≡◌, subst, ap, ◌∙◌, Bool, false, List, [], ◌++◌, map, Option, none, some, Bytes, All,
  length,
}
use integrity_sum.Base.Map.{Map}
use integrity_sum.Base.Result.{ok}
use integrity_sum.Walker.{chan_walk_dir}
use integrity_sum.Walker.Files.{all_files, chan_walk_dir_lem}
use integrity_sum.Walker.ImageRoot.{ImageRoot}
use integrity_sum.Process.{get_process_path, process_paths, check_sum_file}
use integrity_sum.Snapshot.{Host, root_path_of, calculate_and_write_hashes}
use integrity_sum.Snapshot.RoundTrip.{IsRecordable}
use integrity_sum.Snapshot.Output.{all_hashes}
use integrity_sum.Monitor.{compared, IsRange, Sources, compare_hashes}
use integrity_sum.Pool.{Pool, started, Steps, IsOver, delivered}
use integrity_sum.Pipeline.{IsDistinct}
use integrity_sum.Pipeline.Schedules.{every_schedule_passes}
use integrity_sum.Pipeline.ProcessRoot.{get_process_path-Root, process_paths-map}
use integrity_sum.Pipeline.SameTree.{View, SameDir, IsScan, moved_dirs, walkable}

module _ (range : Map Bytes → Option (Bytes × Bytes)) (is_range : IsRange range)
    (ctx_done : ℕ → Bool) (running : (n : ℕ) → ctx_done n ≡ false) (stops : ℕ → Bool)
    (live : (n : ℕ) → stops n ≡ false) where
  -- No false alarm for an image that runs unchanged. The snapshot tool walked the monitored
  -- directories below the clean root, or the default `./`, to which the image was unpacked, and ended
  -- without an error; the process sees directories with the same entries below `/proc/<pid>/root/`, whose files have the
  -- same hashes; the object store returns the file of the tool. Then every run of the pool, fed by
  -- the monitor's walk, that the reader follows to its end makes the check pass. No directory has a
  -- `..`, all can be read, the files are recordable, and no two have one path.
  pub same_tree_passes :
      (h : Host) (before : Option Bytes) (text : Bytes) (o : Sources)
      (proc_name alg proc_dirs cs_file : Bytes) (image proc : View) (paths : List Bytes) (n : ℕ)
      (t : Pool)
      → calculate_and_write_hashes h before ≡ (some text, none)
      → ImageRoot (root_path_of h)
      → All (IsScan stops image h) h.dirs
      → All IsRecordable (all_hashes h h.dirs)
      → IsDistinct (all_hashes h h.dirs)
      → get_process_path o.pidof [] ≡ ok proc_dirs
      → process_paths o.pidof h.dirs ≡ ok paths
      → All (SameDir image proc (root_path_of h) proc_dirs) h.dirs
      → check_sum_file o.unicode_lower o.process_image o.pod_namespace proc_name alg ≡ ok cs_file
      → o.load cs_file ≡ some text
      → Steps proc.hash_of false (started (suc n) (chan_walk_dir stops proc.tree paths [])) t
      → IsOver t
      → compare_hashes range ctx_done o (delivered t) proc_name alg
        ≡ compared (length (all_hashes h h.dirs))
  same_tree_passes h before text o proc_name alg proc_dirs cs_file image proc paths n t wrote root
        scans recordable distinct pid monitored same name load run is_over =
      let q = get_process_path-Root o.pidof proc_dirs pid in
      let below = map (λ v. proc_dirs ++ v) h.dirs in
      let walked : chan_walk_dir stops proc.tree paths [] ≡ all_files proc.tree below =
        ap (λ l. chan_walk_dir stops proc.tree l [])
          (cc (monitored, process_paths-map o.pidof proc_dirs h.dirs pid))
        ∙ chan_walk_dir_lem stops live proc.tree below []
            (walkable stops live h image proc root q h.dirs same) in
      every_schedule_passes range is_range ctx_done running h before text o proc_name alg proc_dirs
        cs_file proc.hash_of n (all_files proc.tree below) t wrote recordable distinct pid name load
        (moved_dirs stops live h image proc root q h.dirs same scans)
        (subst (λ l. Steps proc.hash_of false (started (suc n) l) t) walked run) is_over
