-- ===== src/Reconciler/Missed.antt =====
-- A change that the reconciler passes over, and an image at which it panics.
use integrity_sum.Base.{◌≡◌, true, false, [], ◌∷◌, Bytes, arith}
use integrity_sum.Strings.Search.{contains}
use integrity_sum.ObjectName.Agreement.{build_object_name_untagged}
use integrity_sum.Reconciler.{
  Snapshot, found, Calls, finished, panicked, needs_upload, upload_if_needed, upload_snapshot,
  reconcile,
}
use integrity_sum.Reconciler.Uploads.{up_to_date}

abbrev pub with_image : Snapshot → Bytes → Bytes → Snapshot
with_image s image algorithm = record s {
  spec = record { image = image; base64_hashes = s.spec.base64_hashes; algorithm = algorithm };
}

module _ {W : Type 0} (c : Calls W) (s : Snapshot) (namespace name : Bytes) (w : W) where
  -- The control hash covers the hashes alone: if the image or the algorithm of an uploaded snapshot is
  -- changed and the hashes are not, nothing is stored under the new name.
  pub image_change_is_ignored :
      (image algorithm : Bytes)
      → s.deleting ≡ false
      → needs_upload c s ≡ false
      → c.get_snapshot namespace name w ≡ found (with_image s image algorithm)
      → reconcile c true namespace name w ≡ (finished, w)
  image_change_is_ignored image algorithm live uploaded get =
      up_to_date c (with_image s image algorithm) namespace name w get live uploaded

  -- A snapshot whose image has no tag makes the controller panic, at every reconciliation that would
  -- upload it.
  pub untagged_image_panics :
      s.deleting ≡ false
      → needs_upload c s ≡ true
      → c.get_snapshot namespace name w ≡ found s
      → contains s.spec.image (b':' ∷ []) ≡ false
      → (reconcile c true namespace name w).0 ≡ panicked
  unfolding reconcile upload_if_needed upload_snapshot
  untagged_image_panics live needed get plain =
      let unnamed =
        build_object_name_untagged c.unicode_lower namespace s.spec.image s.spec.algorithm plain in
      ground (arith, get, live, needed, unnamed)
