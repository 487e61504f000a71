-- ===== src/Reconciler/Uploads.antt =====
-- A reconciliation that uploads: what is stored, what the status says, and that it is done once.
use integrity_sum.Base.{◌≡◌, ◌∙◌, true, false, Option, some, Bytes, same_refl, arith}
use integrity_sum.ObjectName.{build_object_name}
use integrity_sum.Reconciler.{
  Snapshot, found, Calls, finished, with_status, needs_upload, upload_snapshot, upload_if_needed,
  reconcile,
}
use integrity_sum.Reconciler.Cluster.{IsCluster}

module _ {W : Type 0} (c : Calls W) where
  -- A snapshot whose status is up to date is left alone, and so is the world.
  pub up_to_date :
      (s : Snapshot) (namespace name : Bytes) (w : W)
      → c.get_snapshot namespace name w ≡ found s
      → s.deleting ≡ false
      → needs_upload c s ≡ false
      → reconcile c true namespace name w ≡ (finished, w)
  unfolding reconcile upload_if_needed
  up_to_date s namespace name w get live fresh = rw (get, live, fresh)

  pub needs_upload-with_status :
      (s : Snapshot) → needs_upload c (with_status s (c.md5hash s.spec.base64_hashes) true) ≡ false
  needs_upload-with_status s = rw (same_refl (c.md5hash s.spec.base64_hashes))

  module _ (object : Bytes → W → Option Bytes) (is_cluster : IsCluster c object) where
    -- A snapshot that needs an upload and can be uploaded: its image has a tag, its hashes are valid
    -- base64, and the two calls succeed.
    pub record Uploads (s : Snapshot) (w : W) (object_name hashes : Bytes) : Type 0 where
      pub live : s.deleting ≡ false
      pub needed : needs_upload c s ≡ true
      pub named :
          build_object_name c.unicode_lower s.namespace s.spec.image s.spec.algorithm
          ≡ some object_name
      pub decoded : c.decode s.spec.base64_hashes ≡ some hashes
      pub saves : (c.save object_name hashes w).0 ≡ true
      pub writes :
          (c.update_status
            (with_status s (c.md5hash s.spec.base64_hashes) true)
            (c.save object_name hashes w).1).0
          ≡ true

    abbrev pub uploaded : Snapshot → Snapshot
    uploaded s = with_status s (c.md5hash s.spec.base64_hashes) true

    module _ (s : Snapshot) (w : W) (object_name hashes : Bytes)
        (get : c.get_snapshot s.namespace s.name w ≡ found s)
        (u : Uploads s w object_name hashes) where
      abbrev world : W
      world = (c.update_status (uploaded s) (c.save object_name hashes w).1).1

      reconcile_step : reconcile c true s.namespace s.name w ≡ (finished, world)
      unfolding reconcile upload_if_needed upload_snapshot
      reconcile_step = ground (arith, get, u.live, u.needed, u.named, u.decoded, u.saves, u.writes)

      -- One reconciliation ends without an error; then the decoded hashes are stored under the name of
      -- the image, the status says so, and a second reconciliation changes nothing.
      pub reconcile_uploads_once :
          (w' : W) × (reconcile c true s.namespace s.name w ≡ (finished, w'))
          × (object object_name w' ≡ some hashes)
          × (c.get_snapshot s.namespace s.name w' ≡ found (uploaded s))
          × (reconcile c true s.namespace s.name w' ≡ (finished, w'))
      reconcile_uploads_once = (
        world,
        reconcile_step,
        is_cluster.status_keeps_objects (uploaded s) (c.save object_name hashes w).1 object_name
            ∙ is_cluster.saved object_name hashes w u.saves,
        is_cluster.status_written (uploaded s) (c.save object_name hashes w).1 u.writes,
        up_to_date (uploaded s) s.namespace s.name world
            (is_cluster.status_written (uploaded s) (c.save object_name hashes w).1 u.writes) u.live
            (needs_upload-with_status s),
      )
