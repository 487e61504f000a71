-- ===== src/Reconciler/System/Tended.antt =====
-- What careful users do keeps the invariant of the objects.
use integrity_sum.Base.{
  ◌≡◌, refl, sym, ap, ◌∙◌, subst, true, false, Option, none, some, Bytes, arith,
}
use integrity_sum.Reconciler.{Snapshot, Calls}
use integrity_sum.Reconciler.System.{Phase, object_name, Change, IsApi}
use integrity_sum.Reconciler.System.Changes.{some-inj, none-some}
use integrity_sum.Reconciler.System.Owned.{
  Has, Tended, adds, rehashes, labels, asks_deletion, drops, Inv, Change-Inv,
}

module _ {W : Type 0} (c : Calls W) (stored : Bytes → Bytes → W → Option Snapshot)
    (object : Bytes → W → Option Bytes) (api : IsApi c stored object) where
  -- A snapshot in place of one with the same object, which keeps the finalizer.
  pub put-Inv :
      (p : Phase) (s t : Snapshot) (w w' : W)
      → stored s.namespace s.name w ≡ some s
      → Change c stored object s.namespace s.name (some t) w w'
      → (t.namespace ≡ s.namespace) × (t.name ≡ s.name) × (object_name c t ≡ object_name c s)
      → (Has s.finalizers → Has t.finalizers)
      → (t.deleting ≡ false → s.deleting ≡ false)
      → Inv c stored object p w
      → Inv c stored object p w'
  put-Inv p s t w w' at_s change (ens, en, eo) has live inv =
      Change-Inv c stored object api p s.namespace s.name (some t) w w' change
        (λ o r at_r has_r named_r.
          let er = some-inj (sym at_s ∙ at_r) in
          (
            t,
            refl,
            eo ∙ ap (object_name c) er ∙ named_r,
            has (subst (λ r. Has r.finalizers) (sym er) has_r),
            ens,
            en,
          ))
        (λ r er live_r.
          subst (λ r. Has r.finalizers) (some-inj er)
            (has (
              inv.guarded s.namespace s.name s at_s
                (live (subst (λ r. r.deleting ≡ false) (sym (some-inj er)) live_r)))))
        inv

  pub Tended-Inv :
      (p : Phase) (w w' : W)
      → Tended c stored object w w'
      → Inv c stored object p w
      → Inv c stored object p w'
  Tended-Inv p w w' (adds s free has change) inv =
      Change-Inv c stored object api p s.namespace s.name (some s) w w' change
        (λ o r at_r _ _. absurd (none-some (sym free ∙ at_r)))
        (λ t e _. subst (λ t. Has t.finalizers) (some-inj e) has) inv
  Tended-Inv p w w' (rehashes s hashes e change) inv =
      put-Inv p s (record s { spec = record s.spec { base64_hashes = hashes } }) w w' e change
        (refl, refl, refl) (λ h. h) (λ l. l) inv
  Tended-Inv p w w' (labels s f e has change) inv =
      put-Inv p s (record s { finalizers = f }) w w' e change (refl, refl, refl) has (λ l. l) inv
  Tended-Inv p w w' (asks_deletion s e change) inv =
      put-Inv p s (record s { deleting = true }) w w' e change (refl, refl, refl) (λ h. h)
        (λ l. absurd (ground (arith, l))) inv
  Tended-Inv p w w' (drops s e lacks change) inv =
      Change-Inv c stored object api p s.namespace s.name none w w' change
        (λ o r at_r has _.
          absurd (lacks (subst (λ r. Has r.finalizers) (some-inj (sym at_r ∙ e)) has)))
        (λ t e _. absurd (none-some e)) inv
