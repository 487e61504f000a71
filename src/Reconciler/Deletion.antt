-- ===== src/Reconciler/Deletion.antt =====
-- A reconciliation of a snapshot that is being deleted.
use integrity_sum.Base.{◌≡◌, true, false, Option, none, some, Bytes, arith, if◌then◌else◌}
use integrity_sum.ObjectName.{build_object_name}
use integrity_sum.Reconciler.{
  Snapshot, found, Calls, finished, retried, without_finalizer, remove_snapshot, delete_snapshot,
  reconcile,
}
use integrity_sum.Reconciler.Cluster.{IsCluster}

module _ {W : Type 0} (c : Calls W) (object : Bytes → W → Option Bytes)
    (is_cluster : IsCluster c object) (s : Snapshot) (w : W) (object_name : Bytes)
    (get : c.get_snapshot s.namespace s.name w ≡ found s) (deleting : s.deleting ≡ true)
    (named : build_object_name c.unicode_lower s.namespace s.spec.image s.spec.algorithm
      ≡ some object_name) where
  -- The object leaves the storage before the finalizer leaves the snapshot: where the removal fails,
  -- the snapshot keeps its finalizer and the request is tried again; where it succeeds, the object is
  -- gone, the snapshot is written without the finalizer, and only a failure of that is tried again.
  pub object_goes_before_finalizer :
      ((c.remove object_name w).0 ≡ false
        → reconcile c true s.namespace s.name w ≡ (retried, (c.remove object_name w).1))
      × ((c.remove object_name w).0 ≡ true
          → ((reconcile c true s.namespace s.name w).1
              ≡ (c.update (without_finalizer c s) (c.remove object_name w).1).1)
            × (object object_name (reconcile c true s.namespace s.name w).1 ≡ none)
            × ((reconcile c true s.namespace s.name w).0 ≡ (
                if (c.update (without_finalizer c s) (c.remove object_name w).1).0
                then finished
                else retried)))
  unfolding reconcile delete_snapshot remove_snapshot
  object_goes_before_finalizer = (
    λ fails. ground (arith, get, deleting, named),
    λ goes.
        let gone = is_cluster.removed object_name w goes in
        let kept =
          is_cluster.update_keeps_objects (without_finalizer c s) (c.remove object_name w).1
            object_name in
        (
          ground (arith, get, deleting, named),
          ground (arith, get, deleting, named, gone, kept),
          ground (arith, get, deleting, named),
        ),
  )
