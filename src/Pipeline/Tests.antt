-- ===== src/Pipeline/Tests.antt =====
-- A snapshot and a check of the files that it was made of, and the tree that both walk.
mod Changed
mod Pools
use mathlib.Core.List.Permᴰ
use integrity_sum.Base.{
  ◌≡◌, refl, List, [], ◌∷◌, ◌++◌, map, subst, sym, none, some, true, codes, same, length, Bytes,
  Option, false, if◌then◌else◌, arith,
}
use integrity_sum.Base.Map.{lookup}
use integrity_sum.Base.Result.{ok}
use integrity_sum.Strings.Search.{trim_prefix, has_prefix, contains}
use integrity_sum.Strings.Split.{split}
use integrity_sum.Strings.Trim.{trim_space}
use integrity_sum.Strings.Lower.{to_lower}
use integrity_sum.Strings.Decimal.{atoi, format_int, format_nat}
use integrity_sum.Worker.{FileHash}
use integrity_sum.Process.{get_pid, process_path, get_process_path, check_sum_file}
use integrity_sum.Snapshot.{exists}
use integrity_sum.Snapshot.Output.{all_hashes}
use integrity_sum.Snapshot.Tests.{host, written, snapshot_is_written, All-IsRecordable}
use integrity_sum.Checksums.{output}
use integrity_sum.Monitor.{
  Sources, IntegrityError, err_type_file_deleted, integrity, failed, compared, compare_records,
  compare_hashes,
}
use integrity_sum.Monitor.Verdicts.{recorded}
use integrity_sum.Pipeline.NoWorkers.{no_workers_report_deleted}
use integrity_sum.Monitor.Loop.{files}
use integrity_sum.Monitor.Tests.{first_entry, first_entry-IsRange, never}
use integrity_sum.Worker.Files.{hashes_of}
use integrity_sum.Pipeline.Timeout.{timeout_truncates_snapshot}
use integrity_sum.Snapshot.RoundTrip.{file_text}
use integrity_sum.Snapshot.{Host, strip, calculate_and_write_hashes}
use integrity_sum.Pool.{
  Pool, IsOver, delivered, returned, pool, started, hashed, put, received, finished, Steps, here,
  step,
}
use integrity_sum.Strings.Split.{join}
use integrity_sum.Strings.FilePath.{join_path}
use integrity_sum.Strings.FilePath.Names.{plain-IsName, kept}
use integrity_sum.ObjectName.{build_object_name}
use integrity_sum.Walker.{Node, regular, dir, nil, entry, walk_dir, chan_walk_dir}
use integrity_sum.Walker.Files.{IsReadable, follow, routes}
use integrity_sum.Walker.ImageRoot.{clean_root}
use integrity_sum.Walker.Paths.{Root}
use integrity_sum.Snapshot.{root_path_of}
use integrity_sum.Process.{process_paths}
use integrity_sum.Reconciler.{Snapshot, found, finalizer_name}
use integrity_sum.Reconciler.Uploads.{Uploads}
use integrity_sum.Reconciler.Tests.{calls, calls-IsCluster, object, world_of}
use integrity_sum.Pipeline.SameTree.{View, SameDir, IsScan}
use integrity_sum.Pipeline.Deployed.{OrdinaryImage, sources_after, deployed_image_passes}
use integrity_sum.Pipeline.{IsDistinct}

abbrev pub nginx : Sources
nginx = record {
  pidof = some (codes "17 18\n");
  unicode_lower = λ s. s;
  process_image = (codes "nginx", codes "nginx:1.24") ∷ [];
  pod_namespace = codes "default";
  load = λ n. some written;
}

pub nginx_root : get_process_path nginx.pidof [] ≡ ok (codes "/proc/17/root/")
unfolding get_process_path get_pid process_path split trim_space atoi format_int format_nat
nginx_root = refl

pub nginx_file :
    check_sum_file nginx.unicode_lower nginx.process_image nginx.pod_namespace
      (codes "nginx")
      (codes "SHA256")
    ≡ ok (codes "default/nginx/1.24.sha256")
unfolding check_sum_file lookup same split to_lower
nginx_file = refl

pub distinct : IsDistinct (all_hashes (host exists) (host exists).dirs)
unfolding all_hashes files lookup trim_prefix has_prefix same
distinct = (refl, (refl, tt))

-- The two files of the process, and their hashes.
abbrev pub found_c : Bytes
found_c = codes "/proc/17/root/app/c"

abbrev pub found_a_b : Bytes
found_a_b = codes "/proc/17/root/app/a b"

abbrev pub file_hash : Bytes → Option Bytes
file_hash v = if same v found_c then some (codes "9e") else some (codes "0f")

-- The tree of the image, below `fs` and below the root of the process.
abbrev app : Node
app = dir (entry (codes "a b") regular (entry (codes "c") regular nil))

abbrev at : Bytes → Bytes → Option Node
at root path =
    if same path (root ++ codes "app")
    then some app
    else if same path (root ++ codes "bin")
    then some (dir nil)
    else none

abbrev image : View
image = record {
  tree = at (codes "fs/");
  hash_of = λ v. if same v (codes "fs/app/c") then some (codes "9e") else some (codes "0f");
}

abbrev proc : View
proc = record { tree = at (codes "/proc/17/root/"); hash_of = file_hash }

abbrev monitored : List Bytes
monitored = codes "/proc/17/root/app" ∷ codes "/proc/17/root/bin" ∷ []

monitored_paths : process_paths nginx.pidof (host exists).dirs ≡ ok monitored
unfolding process_paths get_process_path get_pid process_path split trim_space atoi format_int
    format_nat
monitored_paths = refl

walked : chan_walk_dir never proc.tree monitored [] ≡ found_a_b ∷ found_c ∷ []
unfolding chan_walk_dir walk_dir join_path split join same
walked = refl

fs-Root : Root (root_path_of (host exists))
unfolding join
fs-Root = record {
  rooted = false;
  first = codes "fs";
  rest = [];
  are_names = (plain-IsName b'f' (codes "s") (λ x. ground arith) (omega arith), tt);
  form = refl;
}

app_IsScan : IsScan never image (host exists) (codes "app")
unfolding chan_walk_dir walk_dir join_path split join same hashes_of
app_IsScan = Permᴰ.refl _

bin_IsScan : IsScan never image (host exists) (codes "bin")
unfolding chan_walk_dir walk_dir join_path split join same hashes_of
bin_IsScan = Permᴰ.refl _

app-SameDir : SameDir image proc (codes "fs/") (codes "/proc/17/root/") (codes "app")
unfolding same split kept routes IsReadable follow join_path join
app-SameDir = record {
  node = app;
  in_image = refl;
  in_proc = refl;
  readable = (tt, (tt, tt));
  directory = (
    (λ x. ground arith, tt),
    (plain-IsName b'a' (codes "pp") (λ x. ground arith) (omega arith), tt),
  );
  names = (
    (plain-IsName b'a' (codes " b") (λ x. ground arith) (omega arith), tt),
    ((plain-IsName b'c' [] (λ x. ground arith) (omega arith), tt), tt),
  );
  same_hash = (refl, (refl, tt));
}

bin-SameDir : SameDir image proc (codes "fs/") (codes "/proc/17/root/") (codes "bin")
unfolding same split kept routes IsReadable follow join_path join
bin-SameDir = record {
  node = dir nil;
  in_image = refl;
  in_proc = refl;
  readable = tt;
  directory = (
    (λ x. ground arith, tt),
    (plain-IsName b'b' (codes "in") (λ x. ground arith) (omega arith), tt),
  );
  names = tt;
  same_hash = tt;
}

-- One worker on the files that the monitor's walk finds.
abbrev result : List FileHash
result =
    record { path = found_a_b; hash = codes "0f" }
    ∷ record { path = found_c; hash = codes "9e" }
    ∷ []

checked :
    Steps file_hash false (started 1 (found_a_b ∷ found_c ∷ [])) (pool [] (returned ∷ []) result [])
unfolding same
checked =
    step
      (step
        (step
          (step
            (step
              (step (step here (hashed {v = found_a_b} {h = codes "0f"} [] [] refl))
                (put (record { path = found_a_b; hash = codes "0f" }) [] [] (omega arith)))
              received)
            (hashed {v = found_c} {h = codes "9e"} [] [] refl))
          (put (record { path = found_c; hash = codes "9e" }) [] [] (omega arith)))
        received)
      (finished [] [])

checked_walk :
    Steps file_hash false
      (started 1 (chan_walk_dir never proc.tree monitored []))
      (pool [] (returned ∷ []) result [])
checked_walk =
    subst (λ l. Steps file_hash false (started 1 l) (pool [] (returned ∷ []) result []))
      (sym walked) checked

-- The `Snapshot` object with that file, in a cluster in memory.
abbrev deployed : Snapshot
deployed = record {
  name = codes "s";
  namespace = codes "default";
  deleting = false;
  finalizers = finalizer_name ∷ [];
  spec = record { image = codes "nginx:1.24"; base64_hashes = written; algorithm = codes "SHA256" };
  status = record { is_uploaded = false; control_hash = [] };
}

deployed-found :
    (calls true).get_snapshot (codes "default") (codes "s") (world_of deployed) ≡ found deployed
unfolding same
deployed-found = refl

deployed-Uploads :
    Uploads
      (calls true)
      object
      calls-IsCluster
      deployed
      (world_of deployed)
      (codes "default/nginx/1.24.sha256")
      written
unfolding build_object_name split join join_path to_lower same
deployed-Uploads = record {
  live = refl;
  needed = refl;
  named = refl;
  decoded = refl;
  saves = refl;
  writes = refl;
}

nginx-OrdinaryImage : OrdinaryImage (codes "default") (codes "nginx:1.24")
unfolding contains has_prefix split
nginx-OrdinaryImage = record {
  name = codes "nginx";
  tag = codes "1.24";
  form = refl;
  name_lacks = omega arith;
  tag_lacks = refl;
  namespace_ordinary = ((λ e. ground arith, λ e. ground arith, λ e. ground arith), tt);
  name_ordinary = ((λ e. ground arith, λ e. ground arith, λ e. ground arith), tt);
  tag_ordinary = ((λ e. ground arith, λ e. ground arith, λ e. ground arith), tt);
}

nginx_mapped : lookup (codes "nginx") nginx.process_image ≡ some (codes "nginx:1.24")
unfolding lookup same
nginx_mapped = refl

deployed_image_passes_example :
    compare_hashes first_entry never
      (sources_after
        (calls true)
        object
        deployed
        (world_of deployed)
        nginx.pidof
        nginx.process_image)
      result
      (codes "nginx")
      (codes "SHA256")
    ≡ compared (length (all_hashes (host exists) (host exists).dirs))
deployed_image_passes_example =
    deployed_image_passes (calls true) object calls-IsCluster first_entry first_entry-IsRange never
      (λ n. refl) never (λ n. refl) deployed (world_of deployed) (codes "default/nginx/1.24.sha256")
      (host exists) none written nginx.pidof nginx.process_image (codes "nginx")
      (codes "/proc/17/root/") image proc monitored 0 (pool [] (returned ∷ []) result [])
      snapshot_is_written (clean_root fs-Root) (app_IsScan, (bin_IsScan, tt)) All-IsRecordable
      distinct deployed-found deployed-Uploads nginx-OrdinaryImage nginx_mapped nginx_root
      monitored_paths (app-SameDir, (bin-SameDir, tt)) checked_walk ((refl, tt), refl)
