-- ===== src/Reconciler/System/Orphans.antt =====
-- No object outlives its snapshot, where users leave images and finalizers alone: every step keeps the
-- invariant.
use integrity_sum.Base.{
  ◌≡◌, refl, sym, ap, ap₂, ◌∙◌, subst, true, false, inl, inr, List, Option, none, some, Bytes,
  arith,
}
use integrity_sum.Reconciler.{
  Snapshot, found, Calls, Effect, succeeded, failed, crashed, with_status, without_finalizer,
  upload_snapshot, remove_snapshot, after_upload, after_removal,
}
use integrity_sum.Reconciler.System.{
  Phase, idle, fetched, tried, removed, object_name, Change, IsApi, Step, acts, restarts, gets,
  skips, uploads, reports, removes, releases, Steps, here, step,
}
use integrity_sum.Reconciler.System.Changes.{some-inj, none-some}
use integrity_sum.Reconciler.System.Writes.{
  Wrote, upload_as-Wrote, remove_as-Wrote, remove_as-only, remove_as-succeeded,
}
use integrity_sum.Reconciler.System.Owned.{
  Tended, Owner, AllOwned, IsKept, IsGone, Inv, Owner-Change, AllGuarded-Change, Change-Inv,
}
use integrity_sum.Reconciler.System.Tended.{put-Inv, Tended-Inv}

module _ {W : Type 0} (c : Calls W) (stored : Bytes → Bytes → W → Option Snapshot)
    (object : Bytes → W → Option Bytes) (api : IsApi c stored object) where
  to_idle : (p : Phase) (w : W) → Inv c stored object p w → Inv c stored object idle w
  to_idle p w inv = record { owned = inv.owned; guarded = inv.guarded; is_safe = tt }

  kept-Inv :
      (p : Phase) (k n : Bytes) (w w' : W)
      → Change c stored object k n (stored k n w) w w'
      → Inv c stored object p w
      → Inv c stored object p w'
  kept-Inv p k n w w' change inv =
      Change-Inv c stored object api p k n (stored k n w) w w' change
        (λ o s e has named. let (ek, en) = api.keyed k n w s e in (s, e, named, has, ek, en))
        (λ t e live. inv.guarded k n t e live) inv

  status-Inv :
      (s : Snapshot) (p : Phase) (w : W)
      → Inv c stored object p w
      → Inv c stored object p (c.update_status s w).1
  status-Inv s p w inv = elim (api.status_written s w) [
    | inl change ↦ kept-Inv p s.namespace s.name w _ change inv
    | inr (u, e, change) ↦
        put-Inv c stored object api p (record s { status = u }) s w _ e change (refl, refl, refl)
          (λ h. h) (λ l. l) inv
  ]

  -- A deleted snapshot whose object is gone is written or goes.
  released-Inv :
      (s : Snapshot) (f : List Bytes) (new : Option Snapshot) (w w' : W)
      → stored s.namespace s.name w ≡ some (record s { finalizers = f })
      → Change c stored object s.namespace s.name new w w'
      → ((t : Snapshot) → new ≡ some t → t.deleting ≡ true)
      → IsGone c stored object s w
      → Inv c stored object idle w
      → Inv c stored object idle w'
  released-Inv s f new w w' at_s change deleting gone inv = record {
    owned = λ o d e.
        let there = sym (change.objects o) ∙ e in
        Owner-Change c stored object api s.namespace s.name new w w' change o
          (λ r at_r _ named. absurd (
            none-some
              (sym (gone o (ap (object_name c) (some-inj (sym at_s ∙ at_r)) ∙ named)) ∙ there)))
          (inv.owned o d there);
    guarded =
        AllGuarded-Change c stored object api s.namespace s.name new w w' change
          (λ t e live. absurd (ground (arith, deleting t e, live))) inv.guarded;
    is_safe = tt;
  }

  update-Inv :
      (s : Snapshot) (w : W)
      → s.deleting ≡ true
      → IsGone c stored object s w
      → Inv c stored object idle w
      → Inv c stored object idle (c.update s w).1
  update-Inv s w deleting gone inv = elim (api.updated s w) [
    | inl change ↦ kept-Inv idle s.namespace s.name w _ change inv
    | inr (f, e, inl change) ↦
        released-Inv s f none w _ e change (λ t e. absurd (none-some e)) gone inv
    | inr (f, e, inr change) ↦
        released-Inv s f (some s) w _ e change
          (λ t e. subst (λ t. t.deleting ≡ true) (some-inj e) deleting) gone inv
  ]

  reports-Inv :
      (s : Snapshot) (e : Effect) (w : W)
      → Inv c stored object (tried s e) w
      → Inv c stored object idle (after_upload c s (c.md5hash s.spec.base64_hashes) e w).1
  reports-Inv s succeeded w inv =
      status-Inv (with_status s (c.md5hash s.spec.base64_hashes) true) idle w
        (to_idle (tried s succeeded) w inv)
  reports-Inv s failed w inv =
      status-Inv (with_status s s.status.control_hash false) idle w (to_idle (tried s failed) w inv)
  reports-Inv s crashed w inv = to_idle (tried s crashed) w inv

  releases-Inv :
      (s : Snapshot) (e : Effect) (w : W)
      → Inv c stored object (removed s e) w
      → Inv c stored object idle (after_removal c s e w).1
  releases-Inv s succeeded w inv =
      update-Inv (without_finalizer c s) w inv.is_safe.0 (inv.is_safe.1 refl)
        (to_idle (removed s succeeded) w inv)
  releases-Inv s failed w inv = to_idle (removed s failed) w inv
  releases-Inv s crashed w inv = to_idle (removed s crashed) w inv

  Owner-stored :
      (o : Bytes) (w w' : W)
      → ((k n : Bytes) → stored k n w' ≡ stored k n w)
      → Owner c stored object o w
      → Owner c stored object o w'
  Owner-stored o w w' same_stored owner = record {
    snapshot = owner.snapshot;
    is_stored = same_stored owner.snapshot.namespace owner.snapshot.name ∙ owner.is_stored;
    named = owner.named;
    has = owner.has;
  }

  written-owned :
      (s : Snapshot) (w w' : W)
      → Wrote c stored object (object_name c s) w w'
      → IsKept c stored object s w
      → AllOwned c stored object w
      → AllOwned c stored object w'
  written-owned s w w' wrote kept owned o d e =
      Owner-stored o w w' wrote.same_stored (elim wrote.objects [
        | inl same_objects ↦ owned o d (sym (same_objects o) ∙ e)
        | inr (q, named, others) ↦ elim (others o) [
          | inl eq ↦ subst (λ q. Owner c stored object q w) (sym eq) (kept q named)
          | inr same_there ↦ owned o d (sym same_there ∙ e)
        ]
      ])

  gets-Inv :
      (k n : Bytes) (s : Snapshot) (w : W)
      → c.get_snapshot k n w ≡ found s
      → Inv c stored object idle w
      → Inv c stored object (fetched s) w
  gets-Inv k n s w e inv = record {
    owned = inv.owned;
    guarded = inv.guarded;
    is_safe = λ live o named.
        let (u, at_s) = api.got k n w s e in
        let (ek, en) = api.keyed k n w (record s { status = u }) at_s in
        record {
          snapshot = record s { status = u };
          is_stored = ap₂ (λ x y. stored x y w) ek en ∙ at_s;
          named = named;
          has = inv.guarded k n (record s { status = u }) at_s live;
        };
  }

  step-Inv :
      {p : Phase} {w : W} {q : Phase} {w' : W}
      → Step c stored object (Tended c stored object) p w q w'
      → Inv c stored object p w
      → Inv c stored object q w'
  unfolding upload_snapshot remove_snapshot
  step-Inv (acts {p} {w} {w'} ev) inv = Tended-Inv c stored object api p w w' ev inv
  step-Inv (restarts {p} {w}) inv = to_idle p w inv
  step-Inv (gets {w} k n s e) inv = gets-Inv k n s w e inv
  step-Inv (skips {w} s live fresh) inv = to_idle (fetched s) w inv
  step-Inv (uploads {w} s live needed) inv =
      let wrote = upload_as-Wrote c stored object api (object_name c s) s.spec.base64_hashes w in
      record {
        owned = written-owned s w _ wrote (inv.is_safe live) inv.owned;
        guarded = λ k n t e. inv.guarded k n t (sym (wrote.same_stored k n) ∙ e);
        is_safe = tt;
      }
  step-Inv (reports {w} s e) inv = reports-Inv s e w inv
  step-Inv (removes {w} s deleting) inv =
      let wrote = remove_as-Wrote c stored object api (object_name c s) w in
      record {
        owned = λ o d e.
            Owner-stored o w _ wrote.same_stored
              (inv.owned o d (remove_as-only c stored object api (object_name c s) w o d e));
        guarded = λ k n t e. inv.guarded k n t (sym (wrote.same_stored k n) ∙ e);
        is_safe = (deleting, remove_as-succeeded c stored object api (object_name c s) w);
      }
  step-Inv (releases {w} s e) inv = releases-Inv s e w inv

  Steps-Inv :
      {p : Phase} {w : W} {q : Phase} {w' : W}
      → Steps c stored object (Tended c stored object) p w q w'
      → Inv c stored object p w
      → Inv c stored object q w'
  Steps-Inv here inv = inv
  Steps-Inv (step run st) inv = step-Inv st (Steps-Inv run inv)

  -- From a cluster without snapshots and an empty bucket, where users create snapshots with the
  -- finalizer, never take the finalizer away and never edit an image or an algorithm: at every moment
  -- each object in the bucket belongs to a snapshot that is still there. So when the last snapshot of
  -- an object is gone, the object is gone, whichever calls have failed on the way.
  pub no_orphans :
      (w w' : W) (p : Phase) (o d : Bytes)
      → ((k n : Bytes) → stored k n w ≡ none)
      → ((o : Bytes) → object o w ≡ none)
      → Steps c stored object (Tended c stored object) idle w p w'
      → object o w' ≡ some d
      → Owner c stored object o w'
  no_orphans w w' p o d empty no_objects run =
      let initial : Inv c stored object idle w = record {
        owned = λ o d e. absurd (none-some (sym (no_objects o) ∙ e));
        guarded = λ k n s e. absurd (none-some (sym (empty k n) ∙ e));
        is_safe = tt;
      } in
      (Steps-Inv run initial).owned o d
