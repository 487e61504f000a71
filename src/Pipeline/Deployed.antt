-- ===== src/Pipeline/Deployed.antt =====
-- The whole way of a snapshot: the tool writes it, the controller stores it for the image, and the
-- monitor beside a process of that image loads it and checks the process.
use integrity_sum.Base.{
  ℕ, suc, ◌≡◌, ap, ◌∙◌, Bool, true, false, List, [], ◌∷◌, ◌++◌, Option, none, some, Bytes, All,
  length, Lacks,
}
use integrity_sum.Base.Map.{Map, lookup}
use integrity_sum.Base.Result.{ok}
use integrity_sum.Strings.Search.{contains}
use integrity_sum.Strings.FilePath.Ordinary.{IsOrdinaryPath}
use integrity_sum.Walker.{chan_walk_dir}
use integrity_sum.Walker.ImageRoot.{ImageRoot}
use integrity_sum.Process.{get_process_path, process_paths, check_sum_file}
use integrity_sum.ObjectName.{build_object_name}
use integrity_sum.ObjectName.Agreement.{check_sum_file-build_object_name}
use integrity_sum.Snapshot.{Host, root_path_of, calculate_and_write_hashes}
use integrity_sum.Snapshot.RoundTrip.{IsRecordable}
use integrity_sum.Snapshot.Output.{all_hashes}
use integrity_sum.Reconciler.{Snapshot, found, Calls, reconcile}
use integrity_sum.Reconciler.Cluster.{IsCluster}
use integrity_sum.Reconciler.Uploads.{Uploads, reconcile_uploads_once}
use integrity_sum.Monitor.{compared, IsRange, Sources, compare_hashes}
use integrity_sum.Pool.{Pool, started, Steps, IsOver, delivered}
use integrity_sum.Pipeline.{IsDistinct}
use integrity_sum.Pipeline.SameTree.{View, SameDir, IsScan}
use integrity_sum.Pipeline.EndToEnd.{same_tree_passes}

-- An image whose name and tag, like its namespace, are ordinary parts of a path.
pub record OrdinaryImage (namespace image : Bytes) : Type 0 where
  pub name : Bytes
  pub tag : Bytes
  pub form : image ≡ name ++ b':' ∷ tag
  pub name_lacks : Lacks b':' name
  pub tag_lacks : contains tag (b':' ∷ []) ≡ false
  pub namespace_ordinary : IsOrdinaryPath namespace
  pub name_ordinary : IsOrdinaryPath name
  pub tag_ordinary : IsOrdinaryPath tag

same_name :
    (unicode_lower : Bytes → Bytes) (process_image : Map Bytes)
    (proc_name namespace image alg object_name : Bytes)
    → OrdinaryImage namespace image
    → lookup proc_name process_image ≡ some image
    → build_object_name unicode_lower namespace image alg ≡ some object_name
    → check_sum_file unicode_lower process_image namespace proc_name alg ≡ ok object_name
same_name unicode_lower process_image proc_name namespace image alg object_name i mapped named =
    let (f, built, file) =
      check_sum_file-build_object_name unicode_lower process_image proc_name namespace alg i.name
        i.tag i.name_lacks i.tag_lacks i.namespace_ordinary i.name_ordinary i.tag_ordinary
        (mapped ∙ ap some i.form) in
    file ∙ ap ok (cc (built, named, i.form))

module _ {W : Type 0} (c : Calls W) (object : Bytes → W → Option Bytes) where
  -- The monitor's sources after the controller has reconciled a snapshot in the world `w`.
  abbrev pub sources_after : Snapshot → W → Option Bytes → Map Bytes → Sources
  sources_after s w pidof process_image = record {
    pidof = pidof;
    unicode_lower = c.unicode_lower;
    process_image = process_image;
    pod_namespace = s.namespace;
    load = λ f. object f (reconcile c true s.namespace s.name w).1;
  }

  module _ (is_cluster : IsCluster c object) (range : Map Bytes → Option (Bytes × Bytes))
      (is_range : IsRange range) (ctx_done : ℕ → Bool) (running : (n : ℕ) → ctx_done n ≡ false)
      (stops : ℕ → Bool) (live : (n : ℕ) → stops n ≡ false) where
    loaded_text :
        (s : Snapshot) (w : W) (object_name text : Bytes)
        → c.get_snapshot s.namespace s.name w ≡ found s
        → Uploads c object is_cluster s w object_name text
        → object object_name (reconcile c true s.namespace s.name w).1 ≡ some text
    loaded_text s w object_name text get u =
        let (w', step, stored, _, _) =
          reconcile_uploads_once c object is_cluster s w object_name text get u in
        ap (λ r. object object_name r.1) step ∙ stored

    -- No false alarm for a deployed image. The snapshot tool wrote its file from the walk of the
    -- unpacked image, below a clean root or the default `./`; a `Snapshot` object with that text and
    -- the name of the image is uploaded by one reconciliation; a monitor in the same namespace, whose
    -- flags map a process to the image, loads what was stored. Then every run of the pool over the monitor's walk, with at
    -- least one worker, that the reader follows to its end makes the check pass, if each monitored
    -- directory has the same entries, with the same hashes, in the image and below the process's root.
    -- The image is `name:tag` of ordinary path parts; no directory has a `..`, all can be read, the
    -- files are recordable, no two have one path, and the contexts stay live.
    pub deployed_image_passes :
        (s : Snapshot) (w : W) (object_name : Bytes) (h : Host) (before : Option Bytes)
        (text : Bytes) (pidof : Option Bytes) (process_image : Map Bytes)
        (proc_name proc_dirs : Bytes) (image proc : View) (paths : List Bytes) (n : ℕ) (t : Pool)
        → calculate_and_write_hashes h before ≡ (some text, none)
        → ImageRoot (root_path_of h)
        → All (IsScan stops image h) h.dirs
        → All IsRecordable (all_hashes h h.dirs)
        → IsDistinct (all_hashes h h.dirs)
        → c.get_snapshot s.namespace s.name w ≡ found s
        → Uploads c object is_cluster s w object_name text
        → OrdinaryImage s.namespace s.spec.image
        → lookup proc_name process_image ≡ some s.spec.image
        → get_process_path pidof [] ≡ ok proc_dirs
        → process_paths pidof h.dirs ≡ ok paths
        → All (SameDir image proc (root_path_of h) proc_dirs) h.dirs
        → Steps proc.hash_of false (started (suc n) (chan_walk_dir stops proc.tree paths [])) t
        → IsOver t
        → compare_hashes range ctx_done
            (sources_after s w pidof process_image)
            (delivered t)
            proc_name
            s.spec.algorithm
          ≡ compared (length (all_hashes h h.dirs))
    deployed_image_passes s w object_name h before text pidof process_image proc_name proc_dirs
          image proc paths n t wrote root scans recordable distinct get u i mapped pid monitored
          same run is_over =
        same_tree_passes range is_range ctx_done running stops live h before text
          (sources_after s w pidof process_image) proc_name s.spec.algorithm proc_dirs object_name
          image proc paths n t wrote root scans recordable distinct pid monitored same
          (same_name c.unicode_lower process_image proc_name s.namespace s.spec.image
            s.spec.algorithm object_name i mapped u.named)
          (loaded_text s w object_name text get u) run is_over
