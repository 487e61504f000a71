-- ===== src/Reconciler/System.antt =====
-- The cluster around the reconciler of snapshot-controller/controllers/snapshot_controller.go: users
-- change the snapshots at any time, between the calls of a reconciliation too, every call may fail, and
-- the controller may be restarted. One reconciliation runs at a time, which is the default of the
-- controller's manager.
pub mod Changes
pub mod Writes
pub mod Invariant
pub mod Owned
pub mod Tended
pub mod Orphans
pub mod Statuses
pub mod Heals
pub mod Memory
pub mod Runs
pub mod Tests
use integrity_sum.Base.{◌≡◌, true, false, ◌⊎◌, List, Option, none, some, Bytes}
use integrity_sum.ObjectName.{build_object_name}
use integrity_sum.Reconciler.{
  SnapshotSpec, SnapshotStatus, Snapshot, found, Calls, Effect, needs_upload, upload_snapshot,
  remove_snapshot, after_upload, after_removal,
}

-- Where a reconciliation stands: it has not begun, it has read a snapshot, or it has come back from the
-- upload or from the removal.
pub data Phase : Type 0 where
  idle : Phase
  fetched : Snapshot → Phase
  tried removed : Snapshot → Effect → Phase

module _ {W : Type 0} (c : Calls W) where
  abbrev pub object_name : Snapshot → Option Bytes
  object_name s = build_object_name c.unicode_lower s.namespace s.spec.image s.spec.algorithm

  -- What the status says: the hashes that the snapshot holds are in the storage.
  abbrev pub IsFresh : Snapshot → Type 0
  IsFresh s = (s.deleting ≡ false) × (needs_upload c s ≡ false)

  -- `stored` is what the API server keeps under a namespace and a name, `object` what the bucket holds.
  module _ (stored : Bytes → Bytes → W → Option Snapshot) (object : Bytes → W → Option Bytes) where
    -- Nothing but one snapshot changes.
    pub record Change (namespace name : Bytes) (new : Option Snapshot) (w w' : W) : Type 0 where
      pub objects : (n : Bytes) → object n w' ≡ object n w
      pub own : stored namespace name w' ≡ new
      pub others : (k n : Bytes) → ((k ≡ namespace) × (n ≡ name)) ⊎ (stored k n w' ≡ stored k n w)

    -- A call that succeeds has its effect, and one that fails may have had it too. A snapshot is written
    -- only over the version that was read. What is read may be behind in the status, which the
    -- controller alone writes.
    pub record IsApi : Type 0 where
      pub got :
          (k n : Bytes) (w : W) (s : Snapshot)
          → c.get_snapshot k n w ≡ found s
          → (t : SnapshotStatus) × (stored k n w ≡ some (record s { status = t }))
      pub keyed :
          (k n : Bytes) (w : W) (s : Snapshot)
          → stored k n w ≡ some s
          → (s.namespace ≡ k) × (s.name ≡ n)
      pub saved :
          (n d : Bytes) (w : W) → (c.save n d w).0 ≡ true → object n (c.save n d w).1 ≡ some d
      pub save_own :
          (n d : Bytes) (w : W)
          → (object n (c.save n d w).1 ≡ object n w) ⊎ (object n (c.save n d w).1 ≡ some d)
      pub save_objects :
          (n d : Bytes) (w : W) (m : Bytes) → (m ≡ n) ⊎ (object m (c.save n d w).1 ≡ object m w)
      pub save_stored :
          (n d : Bytes) (w : W) (k m : Bytes) → stored k m (c.save n d w).1 ≡ stored k m w
      pub remove_objects :
          (n : Bytes) (w : W) (m : Bytes) → (m ≡ n) ⊎ (object m (c.remove n w).1 ≡ object m w)
      pub removed_object :
          (n : Bytes) (w : W) → (c.remove n w).0 ≡ true → object n (c.remove n w).1 ≡ none
      pub removed_only :
          (n : Bytes) (w : W) (m d : Bytes)
          → object m (c.remove n w).1 ≡ some d
          → object m w ≡ some d
      pub remove_stored :
          (n : Bytes) (w : W) (k m : Bytes) → stored k m (c.remove n w).1 ≡ stored k m w
      pub status_written :
          (s : Snapshot) (w : W)
          → Change s.namespace s.name (stored s.namespace s.name w) w (c.update_status s w).1
            ⊎ ((t : SnapshotStatus) × (stored s.namespace s.name w ≡ some (record s { status = t }))
                × Change s.namespace s.name (some s) w (c.update_status s w).1)
      pub status_kept :
          (s : Snapshot) (w : W)
          → (c.update_status s w).0 ≡ true
          → stored s.namespace s.name (c.update_status s w).1 ≡ some s
      -- A deleted snapshot that has lost its last finalizer is gone.
      pub updated :
          (s : Snapshot) (w : W)
          → Change s.namespace s.name (stored s.namespace s.name w) w (c.update s w).1
            ⊎ ((f : List Bytes) × (stored s.namespace s.name w ≡ some (record s { finalizers = f }))
                × (Change s.namespace s.name none w (c.update s w).1
                    ⊎ Change s.namespace s.name (some s) w (c.update s w).1))

    -- No other snapshot has the same object.
    abbrev pub Unshared : Snapshot → W → Type 0
    Unshared s w =
        (k n : Bytes) (t : Snapshot) (o : Bytes)
        → stored k n w ≡ some t
        → object_name s ≡ some o
        → object_name t ≡ some o
        → (k ≡ s.namespace) × (n ≡ s.name)

    -- What users do. The new hashes of an edited snapshot have another control hash than its status,
    -- and no two snapshots come to have the same object.
    pub data Event (w w' : W) : Type 0 where
      created :
          (s : Snapshot)
          → stored s.namespace s.name w ≡ none
          → s.status.is_uploaded ≡ false
          → Unshared s w
          → Change s.namespace s.name (some s) w w'
          → Event w w'
      edited :
          (s : Snapshot) (spec : SnapshotSpec)
          → stored s.namespace s.name w ≡ some s
          → needs_upload c (record s { spec = spec }) ≡ true
          → Unshared (record s { spec = spec }) w
          → Change s.namespace s.name (some (record s { spec = spec })) w w'
          → Event w w'
      refinalized :
          (s : Snapshot) (finalizers : List Bytes)
          → stored s.namespace s.name w ≡ some s
          → Change s.namespace s.name (some (record s { finalizers = finalizers })) w w'
          → Event w w'
      marked :
          (s : Snapshot)
          → stored s.namespace s.name w ≡ some s
          → Change s.namespace s.name (some (record s { deleting = true })) w w'
          → Event w w'
      vanished :
          (s : Snapshot)
          → stored s.namespace s.name w ≡ some s
          → Change s.namespace s.name none w w'
          → Event w w'

    -- One step of a user, by the relation `Act`, or of the controller.
    module _ (Act : W → W → Type 0) where
      pub data Step : Phase → W → Phase → W → Type 0 where
        acts : {p : Phase} {w w' : W} → Act w w' → Step p w p w'
        restarts : {p : Phase} {w : W} → Step p w idle w
        gets :
            {w : W} (k n : Bytes) (s : Snapshot)
            → c.get_snapshot k n w ≡ found s
            → Step idle w (fetched s) w
        skips :
            {w : W} (s : Snapshot)
            → s.deleting ≡ false
            → needs_upload c s ≡ false
            → Step (fetched s) w idle w
        uploads :
            {w : W} (s : Snapshot)
            → s.deleting ≡ false
            → needs_upload c s ≡ true
            → Step
                (fetched s)
                w
                (tried s (upload_snapshot c s s.namespace w).0)
                (upload_snapshot c s s.namespace w).1
        reports :
            {w : W} (s : Snapshot) (e : Effect)
            → Step (tried s e) w idle (after_upload c s (c.md5hash s.spec.base64_hashes) e w).1
        removes :
            {w : W} (s : Snapshot)
            → s.deleting ≡ true
            → Step (fetched s) w (removed s (remove_snapshot c s w).0) (remove_snapshot c s w).1
        releases :
            {w : W} (s : Snapshot) (e : Effect)
            → Step (removed s e) w idle (after_removal c s e w).1

      pub data Steps (p : Phase) (w : W) : Phase → W → Type 0 where
        here : Steps p w p w
        step : {q r : Phase} {v u : W} → Steps p w q v → Step q v r u → Steps p w r u
