-- ===== src/Reconciler/System/Runs.antt =====
-- `Reconcile` of snapshot-controller/controllers/snapshot_controller.go as steps of the system.
use integrity_sum.Base.{
  ◌≡◌, refl, sym, true, false, inl, inr, Bool, Bool-cases, Option, Bytes, subst, if◌then◌else◌,
}
use integrity_sum.Reconciler.{
  Snapshot, Fetch, found, not_found, fetch_error, Calls, needs_upload, delete_snapshot,
  upload_if_needed, reconcile_found, reconcile,
}
use integrity_sum.Reconciler.System.{
  Phase, idle, IsApi, gets, skips, uploads, reports, removes, releases, Steps, here, step,
}

module _ {W : Type 0} (c : Calls W) (stored : Bytes → Bytes → W → Option Snapshot)
    (object : Bytes → W → Option Bytes) (Act : W → W → Type 0) where
  pub Steps-append :
      {p : Phase} {w : W} {q : Phase} {v : W} {r : Phase} {u : W}
      → Steps c stored object Act p w q v
      → Steps c stored object Act q v r u
      → Steps c stored object Act p w r u
  Steps-append run here = run
  Steps-append run (step more st) = step (Steps-append run more) st

  live_runs :
      (k n : Bytes) (s : Snapshot) (w : W)
      → c.get_snapshot k n w ≡ found s
      → s.deleting ≡ false
      → s.namespace ≡ k
      → Steps c stored object Act idle w idle (upload_if_needed c s k w).1
  unfolding upload_if_needed
  live_runs k n s w get live ek =
      subst (λ k. Steps c stored object Act idle w idle (upload_if_needed c s k w).1) ek
        (elim (Bool-cases (needs_upload c s)) [
          | inl needed ↦
              rw needed
                (step (step (step here (gets k n s get)) (uploads s live needed)) (reports s _))
          | inr fresh ↦ rw fresh (step (step here (gets k n s get)) (skips s live fresh))
        ])

  deleting_runs :
      (k n : Bytes) (s : Snapshot) (w : W)
      → c.get_snapshot k n w ≡ found s
      → s.deleting ≡ true
      → Steps c stored object Act idle w idle (delete_snapshot c s w).1
  unfolding delete_snapshot
  deleting_runs k n s w get deleting =
      step (step (step here (gets k n s get)) (removes s deleting)) (releases s _)

  abbrev RunsTo : Bytes → Snapshot → W → Bool → Type 0
  RunsTo k s w deleting =
      Steps c stored object Act idle w idle
        (if deleting then delete_snapshot c s w else upload_if_needed c s k w).1

  module _ (api : IsApi c stored object) where
    found_runs :
        (k n : Bytes) (f : Fetch) (w : W)
        → c.get_snapshot k n w ≡ f
        → Steps c stored object Act idle w idle (reconcile_found c f k w).1
    found_runs k n fetch_error w get = here
    found_runs k n not_found w get = here
    found_runs k n (found s) w get = elim (Bool-cases s.deleting) [
      | inl deleting ↦ subst (RunsTo k s w) (sym deleting) (deleting_runs k n s w get deleting)
      | inr live ↦ subst (RunsTo k s w) (sym live) (
          live_runs k n s w get live
            (let (u, e) = api.got k n w s get in (api.keyed k n w (record s { status = u }) e).0))
    ]

    -- `Reconcile`, which nothing interrupts, is a run of the system from one idle moment to the next.
    pub reconcile_runs :
        (storage : Bool) (k n : Bytes) (w : W)
        → Steps c stored object Act idle w idle (reconcile c storage k n w).1
    unfolding reconcile
    reconcile_runs true k n w = found_runs k n (c.get_snapshot k n w) w refl
    reconcile_runs false k n w = here
