-- ===== src/Reconciler/Races.antt =====
-- Two ways in which a status of `Snapshot` comes to be wrong about the storage: what
-- `Reconciler.System` excludes of its users.
use integrity_sum.Base.{◌≡◌, ◌∙◌, true, false, Option, none, some, Bytes, arith}
use integrity_sum.ObjectName.{build_object_name}
use integrity_sum.Reconciler.{
  Snapshot, found, Calls, finished, retried, with_status, without_finalizer, needs_upload,
  upload_snapshot, upload_if_needed, remove_snapshot, delete_snapshot, reconcile,
}
use integrity_sum.Reconciler.Cluster.{IsCluster}
use integrity_sum.Reconciler.Uploads.{up_to_date}

abbrev pub with_hashes : Snapshot → Bytes → Snapshot
with_hashes s hashes = record s { spec = record s.spec { base64_hashes = hashes } }

module _ {W : Type 0} (c : Calls W) (object : Bytes → W → Option Bytes)
    (is_cluster : IsCluster c object) where
  -- An uploaded snapshot gets other hashes, which are stored, but the status cannot be written; before
  -- the request is tried again, the old hashes are set back. Then the snapshot says that it is
  -- uploaded, every reconciliation leaves the world as it is, and the storage holds the other hashes.
  pub reverted_edit_is_missed :
      (s : Snapshot) (hashes d o : Bytes) (w reverted : W)
      → s.deleting ≡ false
      → needs_upload c s ≡ false
      → needs_upload c (with_hashes s hashes) ≡ true
      → c.get_snapshot s.namespace s.name w ≡ found (with_hashes s hashes)
      → build_object_name c.unicode_lower s.namespace s.spec.image s.spec.algorithm ≡ some o
      → c.decode hashes ≡ some d
      → (c.save o d w).0 ≡ true
      → (c.update_status
          (with_status (with_hashes s hashes) (c.md5hash hashes) true)
          (c.save o d w).1).0
        ≡ false
      → c.get_snapshot s.namespace s.name reverted ≡ found s
      → object o reverted ≡ object o (reconcile c true s.namespace s.name w).1
      → ((reconcile c true s.namespace s.name w).0 ≡ retried)
        × (reconcile c true s.namespace s.name reverted ≡ (finished, reverted))
        × (object o reverted ≡ some d)
  unfolding reconcile upload_if_needed upload_snapshot
  reverted_edit_is_missed s hashes d o w reverted live fresh stale get named decoded saves fails
        back same_object =
      let stored = is_cluster.saved o d w saves in
      let kept =
        is_cluster.status_keeps_objects (with_status (with_hashes s hashes) (c.md5hash hashes) true)
          (c.save o d w).1 o in
      (
        ground (arith, live, stale, get, named, decoded, saves, fails),
        ground (arith, live, fresh, back),
        same_object ∙ ground (arith, live, stale, get, named, decoded, saves, fails, stored, kept),
      )

  -- Two snapshots with one image, algorithm and namespace have one object. When one of them is deleted,
  -- the object is gone, and the other, which says that it is uploaded, is left as it is.
  pub shared_object_is_lost :
      (s t : Snapshot) (o : Bytes) (w : W)
      → c.get_snapshot s.namespace s.name w ≡ found s
      → s.deleting ≡ true
      → build_object_name c.unicode_lower s.namespace s.spec.image s.spec.algorithm ≡ some o
      → (t.namespace ≡ s.namespace)
        × (t.spec.image ≡ s.spec.image)
        × (t.spec.algorithm ≡ s.spec.algorithm)
      → (c.remove o w).0 ≡ true
      → t.deleting ≡ false
      → needs_upload c t ≡ false
      → c.get_snapshot t.namespace t.name (reconcile c true s.namespace s.name w).1 ≡ found t
      → (build_object_name c.unicode_lower t.namespace t.spec.image t.spec.algorithm ≡ some o)
        × (object o (reconcile c true s.namespace s.name w).1 ≡ none)
        × (reconcile c true t.namespace t.name (reconcile c true s.namespace s.name w).1
            ≡ (finished, (reconcile c true s.namespace s.name w).1))
  unfolding reconcile delete_snapshot remove_snapshot
  shared_object_is_lost s t o w get deleting named (en, ei, ea) removes live fresh still =
      let gone = is_cluster.removed o w removes in
      let kept = is_cluster.update_keeps_objects (without_finalizer c s) (c.remove o w).1 o in
      (
        rw (en, ei, ea) named,
        ground (arith, get, deleting, named, removes, gone, kept),
        up_to_date c t t.namespace t.name _ still live fresh,
      )
