-- ===== src/Reconciler.antt =====
-- snapshot-controller/controllers/snapshot_controller.go: the reconciler of `Snapshot` objects
-- (snapshot-controller/api/v1/snapshot_types.go). The Kubernetes API and the MinIO storage act on a
-- world of type `W`; `Cluster` has their calls, where `true` means that a call succeeded.
pub mod Cluster
pub mod Uploads
pub mod Deletion
pub mod Missed
pub mod Races
pub mod System
pub mod Tests
use integrity_sum.Base.{
  ◌≡◌, Bool, true, false, not, ◌||◌, List, [], ◌∷◌, ◌++◌, Option, none, some, Bytes, codes, same,
  if◌then◌else◌,
}
use integrity_sum.ObjectName.{build_object_name}

pub record SnapshotSpec : Type 0 where
  pub image : Bytes
  pub base64_hashes : Bytes
  pub algorithm : Bytes

pub record SnapshotStatus : Type 0 where
  pub is_uploaded : Bool
  pub control_hash : Bytes

-- Of the metadata, what the reconciler reads: `deleting` says that `DeletionTimestamp` is set.
pub record Snapshot : Type 0 where
  pub name : Bytes
  pub namespace : Bytes
  pub deleting : Bool
  pub finalizers : List Bytes
  pub spec : SnapshotSpec
  pub status : SnapshotStatus

abbrev pub finalizer_name : Bytes
finalizer_name = codes "controller.snapshot/finalizer"

-- The answer of `r.Get`.
pub data Fetch : Type 0 where
  found : Snapshot → Fetch
  not_found fetch_error : Fetch

pub record Calls (W : Type 0) : Type 0 where
  pub get_snapshot : Bytes → Bytes → W → Fetch
  pub update_status : Snapshot → W → Bool × W
  pub update : Snapshot → W → Bool × W
  -- `Save` and `Remove` of pkg/minio in the bucket `integrity`
  pub save : Bytes → Bytes → W → Bool × W
  pub remove : Bytes → W → Bool × W
  -- `controllerutil.RemoveFinalizer`, on the list of finalizers
  pub remove_finalizer : Bytes → List Bytes → List Bytes
  -- the functions of the standard library that the code calls
  pub md5hash : Bytes → Bytes
  pub decode : Bytes → Option Bytes
  pub unicode_lower : Bytes → Bytes

-- What `Reconcile` returns: no error, an error (the request is tried again), or a run-time panic.
pub data Outcome : Type 0 where
  finished retried panicked : Outcome

-- What the upload and the removal return.
pub data Effect : Type 0 where
  succeeded failed crashed : Effect

abbrev pub effect_of : Bool → Effect
effect_of true = succeeded
effect_of false = failed

abbrev outcome_of : Bool → Outcome
outcome_of true = finished
outcome_of false = retried

abbrev pub with_status : Snapshot → Bytes → Bool → Snapshot
with_status s hash uploaded = record s {
  status = record { is_uploaded = uploaded; control_hash = hash };
}

module _ {W : Type 0} (c : Calls W) where
  abbrev pub save_decoded : Bytes → Option Bytes → W → Effect × W
  save_decoded object_name none w = (failed, w)
  save_decoded object_name (some decoded_hashes) w =
      let r = c.save object_name decoded_hashes w in (effect_of r.0, r.1)

  abbrev pub upload_as : Option Bytes → Bytes → W → Effect × W
  upload_as none base64_hashes w = (crashed, w)
  upload_as (some object_name) base64_hashes w = save_decoded object_name (c.decode base64_hashes) w

  -- `uploadSnapshot`, with the namespace of the request
  unfoldable pub upload_snapshot : Snapshot → Bytes → W → Effect × W
  upload_snapshot o namespace w =
      upload_as (build_object_name c.unicode_lower namespace o.spec.image o.spec.algorithm)
        o.spec.base64_hashes w

  abbrev pub remove_as : Option Bytes → W → Effect × W
  remove_as none w = (crashed, w)
  remove_as (some object_name) w = let r = c.remove object_name w in (effect_of r.0, r.1)

  -- `removeSnapshot`
  unfoldable pub remove_snapshot : Snapshot → W → Effect × W
  remove_snapshot obj w =
      remove_as (build_object_name c.unicode_lower obj.namespace obj.spec.image obj.spec.algorithm)
        w

  abbrev pub without_finalizer : Snapshot → Snapshot
  without_finalizer obj = record obj {
    finalizers = c.remove_finalizer finalizer_name obj.finalizers;
  }

  abbrev pub after_removal : Snapshot → Effect → W → Outcome × W
  after_removal obj crashed w = (panicked, w)
  after_removal obj failed w = (retried, w)
  after_removal obj succeeded w =
      let r = c.update (without_finalizer obj) w in (outcome_of r.0, r.1)

  -- `deleteSnapshot`, and what `Reconcile` makes of its error
  unfoldable pub delete_snapshot : Snapshot → W → Outcome × W
  delete_snapshot obj w = let r = remove_snapshot obj w in after_removal obj r.0 r.1

  -- After the upload: the new status is written; an error of this write counts only after a
  -- successful upload.
  abbrev pub after_upload : Snapshot → Bytes → Effect → W → Outcome × W
  after_upload s control_hash crashed w = (panicked, w)
  after_upload s control_hash failed w =
      (finished, (c.update_status (with_status s s.status.control_hash false) w).1)
  after_upload s control_hash succeeded w =
      let r = c.update_status (with_status s control_hash true) w in (outcome_of r.0, r.1)

  -- `controlHash != snapshot.Status.ControlHash || !snapshot.Status.IsUploaded`
  abbrev pub needs_upload : Snapshot → Bool
  needs_upload s =
      not (same (c.md5hash s.spec.base64_hashes) s.status.control_hash) || not s.status.is_uploaded

  unfoldable pub upload_if_needed : Snapshot → Bytes → W → Outcome × W
  upload_if_needed s namespace w =
      let r = upload_snapshot s namespace w in
      if needs_upload s
      then after_upload s (c.md5hash s.spec.base64_hashes) r.0 r.1
      else (finished, w)

  abbrev pub reconcile_found : Fetch → Bytes → W → Outcome × W
  reconcile_found fetch_error namespace w = (retried, w)
  reconcile_found not_found namespace w = (finished, w)
  reconcile_found (found s) namespace w =
      if s.deleting then delete_snapshot s w else upload_if_needed s namespace w

  -- `Reconcile` of the request `namespace/name`; the Boolean says whether `minIOStorage` has a client.
  unfoldable pub reconcile : Bool → Bytes → Bytes → W → Outcome × W
  reconcile storage namespace name w =
      if storage
      then reconcile_found (c.get_snapshot namespace name w) namespace w
      else (retried, w)
