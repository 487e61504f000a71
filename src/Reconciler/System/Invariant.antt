-- ===== src/Reconciler/System/Invariant.antt =====
-- The invariant of the statuses of `Snapshot`, and the users' changes, which keep it.
use integrity_sum.Base.{
  false, ◌≡◌, refl, sym, ap, ◌∙◌, subst, true, Option, none, some, Bytes, arith,
}
use integrity_sum.Reconciler.{Snapshot, Calls, succeeded}
use integrity_sum.Reconciler.System.{
  Phase, idle, fetched, tried, removed, object_name, IsFresh, Change, IsApi, Unshared, Event,
  created, edited, refinalized, marked, vanished,
}
use integrity_sum.Reconciler.System.Changes.{
  some-inj, none-some, Holds, IsBacked, IsUnshared, IsBusy, Change-IsBacked, Change-IsBusy,
  Change-IsUnshared,
}

module _ {W : Type 0} (c : Calls W) (stored : Bytes → Bytes → W → Option Snapshot)
    (object : Bytes → W → Option Bytes) where
  -- What a reconciliation relies on at each phase.
  abbrev pub IsOnTrack : Phase → W → Type 0
  IsOnTrack idle w = Unit
  IsOnTrack (fetched s) w = IsBusy c stored object s w
  IsOnTrack (tried s e) w = e ≡ succeeded → Holds c stored object s w
  IsOnTrack (removed s e) w = s.deleting ≡ true

  pub record Inv (p : Phase) (w : W) : Type 0 where
    pub backed : IsBacked c stored object w
    pub unshared : IsUnshared c stored object w
    pub on_track : IsOnTrack p w

  module _ (api : IsApi c stored object) where
    -- The snapshot that was stored before said as much.
    abbrev Was : Snapshot → W → Type 0
    Was s w =
        (t : Snapshot) × (stored s.namespace s.name w ≡ some t)
        × IsFresh c t
        × (object_name c s ≡ object_name c t)
        × (s.spec.base64_hashes ≡ t.spec.base64_hashes)

    IsOnTrack-Change :
        (p : Phase) (k n : Bytes) (new : Option Snapshot) (w w' : W)
        → Change c stored object k n new w w'
        → ((s t : Snapshot) (o : Bytes)
            → IsBusy c stored object s w
            → new ≡ some t
            → object_name c s ≡ some o
            → object_name c t ≡ some o
            → IsFresh c t
            → (s.deleting ≡ false) × (t.spec.base64_hashes ≡ s.spec.base64_hashes))
        → IsOnTrack p w
        → IsOnTrack p w'
    IsOnTrack-Change idle k n new w w' change quiet h = tt
    IsOnTrack-Change (fetched s) k n new w w' change quiet h =
        Change-IsBusy c stored object k n new w w' change s h (λ t o e es et. quiet s t o h e es et)
    IsOnTrack-Change (tried s e) k n new w w' change quiet h =
        λ ok o named. let (d, ed, eo) = h ok o named in (d, ed, change.objects o ∙ eo)
    IsOnTrack-Change (removed s e) k n new w w' change quiet h = h

    pub gone-Inv :
        (p : Phase) (k n : Bytes) (w w' : W)
        → Change c stored object k n none w w'
        → Inv p w
        → Inv p w'
    gone-Inv p k n w w' change inv = record {
      backed =
          Change-IsBacked c stored object k n none w w' change inv.backed
            (λ s e _. absurd (none-some e));
      unshared =
          Change-IsUnshared c stored object k n none w w' change (λ j m t. api.keyed j m w t)
            inv.unshared (λ s e. absurd (none-some e));
      on_track =
          IsOnTrack-Change p k n none w w' change (λ s t o _ e _ _ _. absurd (none-some e))
            inv.on_track;
    }

    pub put-IsUnshared :
        (s : Snapshot) (w w' : W)
        → Change c stored object s.namespace s.name (some s) w w'
        → Unshared c stored object s w
        → IsUnshared c stored object w
        → IsUnshared c stored object w'
    put-IsUnshared s w w' change u unshared =
        Change-IsUnshared c stored object s.namespace s.name (some s) w w' change
          (λ j m t. api.keyed j m w t) unshared
          (λ t e.
            subst
              (λ t. (t.namespace ≡ s.namespace) × (t.name ≡ s.name) × Unshared c stored object t w)
              (some-inj e) (refl, refl, u))

    pub put-IsBacked :
        (s : Snapshot) (w w' : W)
        → Change c stored object s.namespace s.name (some s) w w'
        → (IsFresh c s → Holds c stored object s w)
        → IsBacked c stored object w
        → IsBacked c stored object w'
    put-IsBacked s w w' change held backed =
        Change-IsBacked c stored object s.namespace s.name (some s) w w' change backed
          (λ t e. subst (λ t. IsFresh c t → Holds c stored object t w) (some-inj e) held)

    pub put-Inv :
        (p : Phase) (s : Snapshot) (w w' : W)
        → Change c stored object s.namespace s.name (some s) w w'
        → Unshared c stored object s w
        → (IsFresh c s → Was s w)
        → Inv p w
        → Inv p w'
    put-Inv p s w w' change u was inv = record {
      backed =
          put-IsBacked s w w' change
            (λ fresh o named.
              let (t, at_t, t_fresh, eo, eh) = was fresh in
              let (d, ed, ho) = inv.backed s.namespace s.name t at_t t_fresh o (sym eo ∙ named) in
              (d, ap c.decode eh ∙ ed, ho))
            inv.backed;
      unshared = put-IsUnshared s w w' change u inv.unshared;
      on_track =
          IsOnTrack-Change p s.namespace s.name (some s) w w' change
            (λ r t o busy e er et fresh.
              let (v, at_v, v_fresh, eo, eh) = was (subst (IsFresh c) (sym (some-inj e)) fresh) in
              let (live, ev) =
                busy s.namespace s.name v o at_v er (sym eo ∙ ap (object_name c) (some-inj e) ∙ et)
                  v_fresh in
              (live, ap (λ s. s.spec.base64_hashes) (sym (some-inj e)) ∙ eh ∙ ev))
            inv.on_track;
    }

    pub Event-Inv : (p : Phase) (w w' : W) → Event c stored object w w' → Inv p w → Inv p w'
    Event-Inv p w w' (created s free new u change) inv =
        put-Inv p s w w' change u (λ (live, fresh). absurd (ground (arith, fresh, new))) inv
    Event-Inv p w w' (edited s spec e stale u change) inv =
        put-Inv p (record s { spec = spec }) w w' change u
          (λ (live, fresh). absurd (ground (arith, fresh, stale))) inv
    Event-Inv p w w' (refinalized s f e change) inv =
        put-Inv p (record s { finalizers = f }) w w' change (inv.unshared s.namespace s.name s e)
          (λ fresh. (s, e, fresh, refl, refl)) inv
    Event-Inv p w w' (marked s e change) inv =
        put-Inv p (record s { deleting = true }) w w' change (inv.unshared s.namespace s.name s e)
          (λ (live, _). absurd (ground (arith, live))) inv
    Event-Inv p w w' (vanished s e change) inv = gone-Inv p s.namespace s.name w w' change inv
