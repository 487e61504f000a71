-- ===== src/Reconciler/Cluster.antt =====
-- What the reconciler relies on of the Kubernetes API and of the storage.
use integrity_sum.Base.{◌≡◌, true, Option, none, some, Bytes}
use integrity_sum.Reconciler.{Snapshot, found, Calls}

-- A successful call has its effect, and none on the other of the two stores. `object` is what the
-- bucket holds.
pub record IsCluster {W : Type 0} (c : Calls W) (object : Bytes → W → Option Bytes) : Type 0 where
  pub saved : (n d : Bytes) (w : W) → (c.save n d w).0 ≡ true → object n (c.save n d w).1 ≡ some d
  pub removed : (n : Bytes) (w : W) → (c.remove n w).0 ≡ true → object n (c.remove n w).1 ≡ none
  pub status_written :
      (s : Snapshot) (w : W)
      → (c.update_status s w).0 ≡ true
      → c.get_snapshot s.namespace s.name (c.update_status s w).1 ≡ found s
  pub status_keeps_objects :
      (s : Snapshot) (w : W) (n : Bytes) → object n (c.update_status s w).1 ≡ object n w
  pub update_keeps_objects :
      (s : Snapshot) (w : W) (n : Bytes) → object n (c.update s w).1 ≡ object n w
