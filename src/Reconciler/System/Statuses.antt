-- ===== src/Reconciler/System/Statuses.antt =====
-- Whichever calls fail and wherever the controller is restarted, as long as users keep to `Event`: a
-- status of `Snapshot` that says so is right about the storage.
use integrity_sum.Base.{
  ap, ◌≡◌, refl, sym, ap₂, ◌∙◌, true, false, inl, inr, Option, none, some, Bytes, arith,
}
use integrity_sum.Reconciler.{
  SnapshotStatus, Snapshot, found, Calls, Effect, succeeded, failed, crashed, without_finalizer,
  needs_upload, upload_snapshot, remove_snapshot, after_upload, after_removal,
}
use integrity_sum.Reconciler.System.{
  Phase, idle, fetched, tried, removed, object_name, IsFresh, Change, IsApi, Event, Step, acts,
  restarts, gets, skips, uploads, reports, removes, releases, Steps, here, step,
}
use integrity_sum.Reconciler.System.Writes.{
  Wrote-IsBacked, upload_as-Wrote, remove_as-Wrote, upload_as-left, upload_as-succeeded,
}
use integrity_sum.Reconciler.System.Changes.{
  some-inj, none-some, Holds, Change-IsBacked, Change-IsUnshared, stored-IsUnshared,
}
use integrity_sum.Reconciler.System.Invariant.{
  Inv, gone-Inv, put-IsUnshared, put-IsBacked, put-Inv, Event-Inv,
}

module _ {W : Type 0} (c : Calls W) (stored : Bytes → Bytes → W → Option Snapshot)
    (object : Bytes → W → Option Bytes) (api : IsApi c stored object) where
  keep-Inv :
      (p : Phase) (k n : Bytes) (w w' : W)
      → Change c stored object k n (stored k n w) w w'
      → Inv c stored object p w
      → Inv c stored object idle w'
  keep-Inv p k n w w' change inv = record {
    backed =
        Change-IsBacked c stored object k n (stored k n w) w w' change inv.backed
          (λ s e fresh. inv.backed k n s e fresh);
    unshared =
        Change-IsUnshared c stored object k n (stored k n w) w w' change
          (λ j m t. api.keyed j m w t) inv.unshared
          (λ s e. let (a, b) = api.keyed k n w s e in (a, b, inv.unshared k n s e));
    on_track = tt;
  }

  to_idle : (p : Phase) (w : W) → Inv c stored object p w → Inv c stored object idle w
  to_idle p w inv = record { backed = inv.backed; unshared = inv.unshared; on_track = tt }

  -- The status of a snapshot is written, or nothing is.
  status-Inv :
      (s : Snapshot) (t : SnapshotStatus) (p : Phase) (w : W)
      → (IsFresh c (record s { status = t }) → Holds c stored object s w)
      → Inv c stored object p w
      → Inv c stored object idle (c.update_status (record s { status = t }) w).1
  status-Inv s t p w held inv = elim (api.status_written (record s { status = t }) w) [
    | inl change ↦ keep-Inv p s.namespace s.name w _ change inv
    | inr (u, e, change) ↦ record {
      backed =
          put-IsBacked c stored object api (record s { status = t }) w _ change held inv.backed;
      unshared =
          put-IsUnshared c stored object api (record s { status = t }) w _ change
            (inv.unshared s.namespace s.name (record s { status = u }) e) inv.unshared;
      on_track = tt;
    }
  ]

  update-Inv :
      (s : Snapshot) (p : Phase) (w : W)
      → s.deleting ≡ true
      → Inv c stored object p w
      → Inv c stored object idle (c.update s w).1
  update-Inv s p w deleting inv = elim (api.updated s w) [
    | inl change ↦ keep-Inv p s.namespace s.name w _ change inv
    | inr (f, e, inl change) ↦
        to_idle p _ (gone-Inv c stored object api p s.namespace s.name w _ change inv)
    | inr (f, e, inr change) ↦ to_idle p _ (
        put-Inv c stored object api p s w _ change
          (inv.unshared s.namespace s.name (record s { finalizers = f }) e)
          (λ (live, _). absurd (ground (arith, live, deleting))) inv)
  ]

  reports-Inv :
      (s : Snapshot) (e : Effect) (w : W)
      → Inv c stored object (tried s e) w
      → Inv c stored object idle (after_upload c s (c.md5hash s.spec.base64_hashes) e w).1
  reports-Inv s succeeded w inv =
      status-Inv s (record { is_uploaded = true; control_hash = c.md5hash s.spec.base64_hashes })
        (tried s succeeded) w (λ _. inv.on_track refl) inv
  reports-Inv s failed w inv =
      status-Inv s (record { is_uploaded = false; control_hash = s.status.control_hash })
        (tried s failed) w (λ (_, fresh). absurd (ground (arith, fresh))) inv
  reports-Inv s crashed w inv = to_idle (tried s crashed) w inv

  releases-Inv :
      (s : Snapshot) (e : Effect) (w : W)
      → Inv c stored object (removed s e) w
      → Inv c stored object idle (after_removal c s e w).1
  releases-Inv s succeeded w inv =
      update-Inv (without_finalizer c s) (removed s succeeded) w inv.on_track inv
  releases-Inv s failed w inv = to_idle (removed s failed) w inv
  releases-Inv s crashed w inv = to_idle (removed s crashed) w inv

  gets-Inv :
      (k n : Bytes) (s : Snapshot) (w : W)
      → c.get_snapshot k n w ≡ found s
      → Inv c stored object idle w
      → Inv c stored object (fetched s) w
  gets-Inv k n s w e inv = record {
    backed = inv.backed;
    unshared = inv.unshared;
    on_track = λ j m t o at_t es et fresh.
        let (u, at_s) = api.got k n w s e in
        let (ek, en) = api.keyed k n w (record s { status = u }) at_s in
        let (ej, em) = inv.unshared k n (record s { status = u }) at_s j m t o at_t es et in
        let same_version : t ≡ record s { status = u } =
          some-inj (sym at_t ∙ ap₂ (λ x y. stored x y w) (ej ∙ ek) (em ∙ en) ∙ at_s) in
        (
          sym (ap (λ t. t.deleting) same_version) ∙ fresh.0,
          ap (λ t. t.spec.base64_hashes) same_version,
        );
  }

  step-Inv :
      {p : Phase} {w : W} {q : Phase} {w' : W}
      → Step c stored object (Event c stored object) p w q w'
      → Inv c stored object p w
      → Inv c stored object q w'
  unfolding upload_snapshot remove_snapshot
  step-Inv (acts {p} {w} {w'} ev) inv = Event-Inv c stored object api p w w' ev inv
  step-Inv (restarts {p} {w}) inv = to_idle p w inv
  step-Inv (gets {w} k n s e) inv = gets-Inv k n s w e inv
  step-Inv (skips {w} s live fresh) inv = to_idle (fetched s) w inv
  step-Inv (uploads {w} s live needed) inv =
      let wrote = upload_as-Wrote c stored object api (object_name c s) s.spec.base64_hashes w in
      record {
        backed =
            Wrote-IsBacked c stored object s w _ wrote
              (λ o named. inr (
                upload_as-left c stored object api (object_name c s) s.spec.base64_hashes w o
                  named))
              inv.on_track inv.backed;
        unshared = stored-IsUnshared c stored object w _ wrote.same_stored inv.unshared;
        on_track = upload_as-succeeded c stored object api (object_name c s) s.spec.base64_hashes w;
      }
  step-Inv (reports {w} s e) inv = reports-Inv s e w inv
  step-Inv (removes {w} s deleting) inv =
      let wrote = remove_as-Wrote c stored object api (object_name c s) w in
      record {
        backed =
            Wrote-IsBacked c stored object s w _ wrote (λ o named. inl deleting) inv.on_track
              inv.backed;
        unshared = stored-IsUnshared c stored object w _ wrote.same_stored inv.unshared;
        on_track = deleting;
      }
  step-Inv (releases {w} s e) inv = releases-Inv s e w inv

  Steps-Inv :
      {p : Phase} {w : W} {q : Phase} {w' : W}
      → Steps c stored object (Event c stored object) p w q w'
      → Inv c stored object p w
      → Inv c stored object q w'
  Steps-Inv here inv = inv
  Steps-Inv (step run st) inv = step-Inv st (Steps-Inv run inv)

  -- From a cluster without snapshots, as long as users keep the control hashes and the objects of the
  -- snapshots apart: at every moment, whichever calls have failed and wherever the controller was
  -- restarted, if a snapshot that is not being deleted says that it is uploaded, and its control hash
  -- is the one of its hashes, then the storage holds the decoded hashes under its object's name.
  pub status_is_right :
      (w w' : W) (p : Phase) (k n : Bytes) (s : Snapshot) (o : Bytes)
      → ((k n : Bytes) → stored k n w ≡ none)
      → Steps c stored object (Event c stored object) idle w p w'
      → stored k n w' ≡ some s
      → s.deleting ≡ false
      → needs_upload c s ≡ false
      → object_name c s ≡ some o
      → (d : Bytes) × (c.decode s.spec.base64_hashes ≡ some d) × (object o w' ≡ some d)
  status_is_right w w' p k n s o empty run e live fresh =
      let initial : Inv c stored object idle w = record {
        backed = λ k n s e. absurd (none-some (sym (empty k n) ∙ e));
        unshared = λ k n s e. absurd (none-some (sym (empty k n) ∙ e));
        on_track = tt;
      } in
      (Steps-Inv run initial).backed k n s e (live, fresh) o
