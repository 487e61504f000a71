-- ===== src/Reconciler/System/Heals.antt =====
-- One reconciliation in which the calls succeed puts a snapshot right, after runs in which the users
-- keep to `Event`: control hashes and objects stay apart.
use integrity_sum.Base.{
  ◌≡◌, refl, sym, ◌∙◌, subst, true, false, inl, inr, Option, none, some, Bytes, Bool-cases, arith,
}
use integrity_sum.Reconciler.{
  Snapshot, found, Calls, Outcome, finished, with_status, needs_upload, upload_snapshot,
  upload_if_needed, reconcile,
}
use integrity_sum.Reconciler.Uploads.{up_to_date, needs_upload-with_status}
use integrity_sum.Reconciler.System.{idle, Phase, object_name, IsApi, Event, Steps}
use integrity_sum.Reconciler.System.Changes.{some-inj}
use integrity_sum.Reconciler.System.Statuses.{status_is_right}

module _ {W : Type 0} (c : Calls W) (stored : Bytes → Bytes → W → Option Snapshot)
    (object : Bytes → W → Option Bytes) (api : IsApi c stored object) where
  abbrev uploaded : Snapshot → Snapshot
  uploaded s = with_status s (c.md5hash s.spec.base64_hashes) true

  -- The world after the upload and the write of the status.
  abbrev world : Snapshot → Bytes → Bytes → W → W
  world s o d w = (c.update_status (uploaded s) (c.save o d w).1).1

  reconcile_needed :
      (s : Snapshot) (o d : Bytes) (w : W)
      → c.get_snapshot s.namespace s.name w ≡ found s
      → s.deleting ≡ false
      → needs_upload c s ≡ true
      → object_name c s ≡ some o
      → c.decode s.spec.base64_hashes ≡ some d
      → (c.save o d w).0 ≡ true
      → (c.update_status (uploaded s) (c.save o d w).1).0 ≡ true
      → reconcile c true s.namespace s.name w ≡ (finished, world s o d w)
  unfolding reconcile upload_if_needed upload_snapshot
  reconcile_needed s o d w get live needed named decoded saves writes =
      ground (arith, get, live, needed, named, decoded, saves, writes)

  status-objects :
      (s : Snapshot) (w : W) (o : Bytes) → object o (c.update_status s w).1 ≡ object o w
  status-objects s w o = elim (api.status_written s w) [
    | inl change ↦ change.objects o
    | inr (u, e, change) ↦ change.objects o
  ]

  -- Under the name of `s`, what is read is what is stored, its status included: `t`.
  abbrev pub Reads : Snapshot → Snapshot → W → Type 0
  Reads s t w =
      (c.get_snapshot s.namespace s.name w ≡ found t) × (stored s.namespace s.name w ≡ some t)

  -- What a reconciliation has put right.
  abbrev Healed : Snapshot → Snapshot → Bytes → Bytes → Outcome × W → Type 0
  Healed s t o d r =
      (r.0 ≡ finished)
      × (object o r.1 ≡ some d)
      × (t.spec ≡ s.spec)
      × (needs_upload c t ≡ false)
      × (reconcile c true s.namespace s.name r.1 ≡ (finished, r.1))

  -- It ends in a world where the snapshot is stored as `v`.
  healed :
      (s t v : Snapshot) (o d : Bytes) (w w' : W)
      → reconcile c true s.namespace s.name w ≡ (finished, w')
      → object o w' ≡ some d
      → stored s.namespace s.name w' ≡ some v
      → (v.spec ≡ s.spec) × (v.deleting ≡ false) × (needs_upload c v ≡ false)
      → Reads s t (reconcile c true s.namespace s.name w).1
      → Healed s t o d (reconcile c true s.namespace s.name w)
  healed s t v o d w w' ends holds at_v (spec, live, fresh) =
      subst (λ r. Reads s t r.1 → Healed s t o d r) (sym ends)
        (λ (get, at_t).
          let e : v ≡ t = some-inj (sym at_v ∙ at_t) in
          let t_fresh = subst (λ v. needs_upload c v ≡ false) e fresh in
          let t_live = subst (λ v. v.deleting ≡ false) e live in
          (
            refl,
            holds,
            subst (λ v. v.spec ≡ s.spec) e spec,
            t_fresh,
            up_to_date c t s.namespace s.name w' get t_live t_fresh,
          ))

  -- After a run from a cluster without snapshots, in which calls may fail and the controller may be
  -- restarted, but users keep to `Event` (snapshots are created as not uploaded, a specification is
  -- edited only if its hashes have another control hash than the status', and no two snapshots share an
  -- object): if a snapshot that is not being deleted
  -- has a name for its object and hashes that decode, and one reconciliation reads what is stored and
  -- its calls succeed, then this ends without an error and the storage holds the decoded hashes. If what is read
  -- afterwards is again what is stored, it is the same specification with a status that says so, and
  -- another reconciliation leaves the world as it is.
  pub reconcile_heals :
      (empty w : W) (p : Phase) (s t : Snapshot) (o d : Bytes)
      → ((k n : Bytes) → stored k n empty ≡ none)
      → Steps c stored object (Event c stored object) idle empty p w
      → Reads s s w
      → s.deleting ≡ false
      → object_name c s ≡ some o
      → c.decode s.spec.base64_hashes ≡ some d
      → (c.save o d w).0 ≡ true
      → (c.update_status (uploaded s) (c.save o d w).1).0 ≡ true
      → Reads s t (reconcile c true s.namespace s.name w).1
      → ((reconcile c true s.namespace s.name w).0 ≡ finished)
        × (object o (reconcile c true s.namespace s.name w).1 ≡ some d)
        × (t.spec ≡ s.spec)
        × (needs_upload c t ≡ false)
        × (reconcile c true s.namespace s.name (reconcile c true s.namespace s.name w).1
            ≡ (finished, (reconcile c true s.namespace s.name w).1))
  reconcile_heals empty w p s t o d no_snapshots run (get, at_s) live named decoded saves writes
        after =
      elim (Bool-cases (needs_upload c s)) [
        | inl needed ↦
            (healed s t (uploaded s) o d w (world s o d w)
              (reconcile_needed s o d w get live needed named decoded saves writes)
              (status-objects (uploaded s) (c.save o d w).1 o ∙ api.saved o d w saves)
              (api.status_kept (uploaded s) (c.save o d w).1 writes)
              (refl, live, needs_upload-with_status c s) after)
        | inr fresh ↦
            (let (d', ed, holds) =
                status_is_right c stored object api empty w p s.namespace s.name s o no_snapshots
                  run at_s live fresh named in
              healed s t s o d w w (up_to_date c s s.namespace s.name w get live fresh)
                (holds ∙ sym ed ∙ decoded) at_s (refl, live, fresh) after)
      ]
