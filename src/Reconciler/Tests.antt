-- ===== src/Reconciler/Tests.antt =====
-- A cluster in memory, and the reconciler's theorems at it.
use integrity_sum.Base.{
  ◌≡◌, refl, Bool, true, false, [], ◌∷◌, Option, none, some, Bytes, codes, arith, same, same_refl,
  if◌then◌else◌,
}
use integrity_sum.Base.Map.{Map, lookup, insert, delete, lookup-insert, lookup-delete}
use integrity_sum.Strings.Search.{contains, has_prefix}
use integrity_sum.Strings.Split.{split, join}
use integrity_sum.Strings.Lower.{to_lower}
use integrity_sum.Strings.FilePath.{join_path}
use integrity_sum.ObjectName.{build_object_name}
use integrity_sum.Reconciler.{
  Snapshot, found, not_found, Calls, finished, retried, panicked, with_status, finalizer_name,
  reconcile, upload_if_needed, upload_snapshot,
}
use integrity_sum.Reconciler.Cluster.{IsCluster}
use integrity_sum.Reconciler.Uploads.{Uploads}
use integrity_sum.Reconciler.Races.{with_hashes, reverted_edit_is_missed, shared_object_is_lost}
use integrity_sum.Reconciler.Missed.{with_image, image_change_is_ignored, untagged_image_panics}

pub record World : Type 0 where
  pub snapshot : Snapshot
  pub objects : Map Bytes

-- One snapshot; the storage is up or down, and the hashes are taken as they stand.
abbrev pub calls : Bool → Calls World
calls up = record {
  get_snapshot = λ ns n w.
      if same ns w.snapshot.namespace
      then (if same n w.snapshot.name then found w.snapshot else not_found)
      else not_found;
  update_status = λ s w. (true, record w { snapshot = s });
  update = λ s w. (true, record w { snapshot = s });
  save = λ n d w. if up then (true, record w { objects = insert n d w.objects }) else (false, w);
  remove = λ n w. if up then (true, record w { objects = delete n w.objects }) else (false, w);
  remove_finalizer = λ f l. [];
  md5hash = λ s. s;
  decode = λ s. some s;
  unicode_lower = λ s. s;
}

abbrev pub object : Bytes → World → Option Bytes
object n w = lookup n w.objects

pub calls-IsCluster : IsCluster (calls true) object
calls-IsCluster = record {
  saved = λ n d w h. ground (arith, lookup-insert n n d w.objects, same_refl n);
  removed = λ n w h. ground (arith, lookup-delete n n w.objects, same_refl n);
  status_written = λ s w h. ground (arith, same_refl s.namespace, same_refl s.name);
  status_keeps_objects = λ s w n. refl;
  update_keeps_objects = λ s w n. refl;
}

abbrev new_snapshot : Bytes → Snapshot
new_snapshot image = record {
  name = codes "s";
  namespace = codes "default";
  deleting = false;
  finalizers = finalizer_name ∷ [];
  spec = record { image = image; base64_hashes = codes "MGY="; algorithm = codes "MD5" };
  status = record { is_uploaded = false; control_hash = [] };
}

abbrev pub tagged : Snapshot
tagged = new_snapshot (codes "nginx:1")

abbrev dying : Snapshot
dying = record tagged { deleting = true }

abbrev pub world_of : Snapshot → World
world_of s = record { snapshot = s; objects = [] }

pub tagged_name :
    build_object_name (λ s. s) (codes "default") (codes "nginx:1") (codes "MD5")
    ≡ some (codes "default/nginx/1.md5")
unfolding build_object_name split join join_path to_lower same
tagged_name = refl

tagged_found :
    (s : Snapshot)
    → s.namespace ≡ codes "default"
    → s.name ≡ codes "s"
    → (calls true).get_snapshot (codes "default") (codes "s") (world_of s) ≡ found s
tagged_found s hn hs = rw (hn, hs, same_refl (codes "default"), same_refl (codes "s"))

tagged-Uploads :
    Uploads
      (calls true)
      object
      calls-IsCluster
      tagged
      (world_of tagged)
      (codes "default/nginx/1.md5")
      (codes "MGY=")
unfolding same
tagged-Uploads = record {
  live = refl;
  needed = refl;
  named = tagged_name;
  decoded = refl;
  saves = refl;
  writes = refl;
}

-- An uploaded snapshot, and the same with another image.
abbrev done_snapshot : Snapshot
done_snapshot = with_status tagged (codes "MGY=") true

image_change_is_ignored_example :
    reconcile
      (calls true)
      true
      (codes "default")
      (codes "s")
      (world_of (with_image done_snapshot (codes "nginx:2") (codes "MD5")))
    ≡ (finished, world_of (with_image done_snapshot (codes "nginx:2") (codes "MD5")))
unfolding same
image_change_is_ignored_example =
    image_change_is_ignored (calls true) done_snapshot (codes "default") (codes "s")
      (world_of (with_image done_snapshot (codes "nginx:2") (codes "MD5"))) (codes "nginx:2")
      (codes "MD5") refl refl refl

no_tag : contains (codes "nginx") (b':' ∷ []) ≡ false
unfolding contains has_prefix
no_tag = refl

untagged_image_panics_example :
    (reconcile
      (calls true)
      true
      (codes "default")
      (codes "s")
      (world_of (new_snapshot (codes "nginx")))).0
    ≡ panicked
unfolding same
untagged_image_panics_example =
    untagged_image_panics (calls true) (new_snapshot (codes "nginx")) (codes "default") (codes "s")
      (world_of (new_snapshot (codes "nginx"))) refl refl refl no_tag

-- Two snapshots of one image, and an API server that takes no status.
abbrev other : Snapshot
other = record done_snapshot { name = codes "t" }

abbrev frail : Calls World
frail = record {
  get_snapshot = λ ns n w. if same n (codes "t") then found other else found w.snapshot;
  update_status = λ s w. (false, w);
  update = λ s w. (true, record w { snapshot = s });
  save = λ n d w. (true, record w { objects = insert n d w.objects });
  remove = λ n w. (true, record w { objects = delete n w.objects });
  remove_finalizer = λ f l. [];
  md5hash = λ s. s;
  decode = λ s. some s;
  unicode_lower = λ s. s;
}

frail-IsCluster : IsCluster frail object
frail-IsCluster = record {
  saved = λ n d w h. ground (arith, lookup-insert n n d w.objects, same_refl n);
  removed = λ n w h. ground (arith, lookup-delete n n w.objects, same_refl n);
  status_written = λ s w h. absurd (ground (arith, h));
  status_keeps_objects = λ s w n. refl;
  update_keeps_objects = λ s w n. refl;
}

reverted_edit_is_missed_example :
    ((reconcile frail true
        (codes "default")
        (codes "s")
        (world_of (with_hashes done_snapshot (codes "MQ==")))).0
      ≡ retried)
    × (reconcile frail true (codes "default") (codes "s") (record {
      snapshot = done_snapshot;
      objects = (codes "default/nginx/1.md5", codes "MQ==") ∷ [];
    })
        ≡ (
          finished,
          record {
            snapshot = done_snapshot;
            objects = (codes "default/nginx/1.md5", codes "MQ==") ∷ [];
          },
        ))
    × (object (codes "default/nginx/1.md5") (record {
      snapshot = done_snapshot;
      objects = (codes "default/nginx/1.md5", codes "MQ==") ∷ [];
    })
        ≡ some (codes "MQ=="))
unfolding same reconcile upload_if_needed upload_snapshot build_object_name split join join_path
    to_lower insert delete lookup
reverted_edit_is_missed_example =
    reverted_edit_is_missed frail object frail-IsCluster done_snapshot (codes "MQ==") (codes "MQ==")
      (codes "default/nginx/1.md5") (world_of (with_hashes done_snapshot (codes "MQ==")))
      (record {
        snapshot = done_snapshot;
        objects = (codes "default/nginx/1.md5", codes "MQ==") ∷ [];
      })
      refl refl refl refl tagged_name refl refl refl refl refl

shared_object_is_lost_example :
    (build_object_name (λ s. s) (codes "default") (codes "nginx:1") (codes "MD5")
      ≡ some (codes "default/nginx/1.md5"))
    × (object
          (codes "default/nginx/1.md5")
          (reconcile frail true (codes "default") (codes "s") (world_of dying)).1
        ≡ none)
    × (reconcile frail true
          (codes "default")
          (codes "t")
          (reconcile frail true (codes "default") (codes "s") (world_of dying)).1
        ≡ (finished, (reconcile frail true (codes "default") (codes "s") (world_of dying)).1))
unfolding same
shared_object_is_lost_example =
    shared_object_is_lost frail object frail-IsCluster dying other (codes "default/nginx/1.md5")
      (world_of dying) refl refl tagged_name (refl, refl, refl) refl refl refl refl
