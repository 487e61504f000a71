-- ===== src/Reconciler/System/Writes.antt =====
-- What an upload and a removal may have done to the cluster.
use integrity_sum.Base.{
  ◌≡◌, refl, ap, ◌∙◌, sym, subst, true, ◌⊎◌, inl, inr, Bool, Option, none, some, Bytes, arith,
}
use integrity_sum.Reconciler.{
  Snapshot, Calls, succeeded, effect_of, save_decoded, upload_as, remove_as,
}
use integrity_sum.Reconciler.System.{object_name, IsApi}
use integrity_sum.Reconciler.System.Changes.{
  some-inj, IsBacked, IsBusy, MayLeave, write-IsBacked, Holds-objects,
}

succeeded-true : (b : Bool) → effect_of b ≡ succeeded → b ≡ true
succeeded-true b e = ground (arith, e)

module _ {W : Type 0} (c : Calls W) (stored : Bytes → Bytes → W → Option Snapshot)
    (object : Bytes → W → Option Bytes) where
  -- No snapshot has changed, and of the objects at most the one of this name.
  pub record Wrote (name : Option Bytes) (w w' : W) : Type 0 where
    pub same_stored : (k n : Bytes) → stored k n w' ≡ stored k n w
    pub objects :
        ((n : Bytes) → object n w' ≡ object n w)
        ⊎ ((o : Bytes) × (name ≡ some o) × ((m : Bytes) → (m ≡ o) ⊎ (object m w' ≡ object m w)))

  nothing-Wrote : (name : Option Bytes) (w : W) → Wrote name w w
  nothing-Wrote name w = record { same_stored = λ k n. refl; objects = inl (λ n. refl) }

  pub Wrote-IsBacked :
      (s : Snapshot) (w w' : W)
      → Wrote (object_name c s) w w'
      → ((o : Bytes) → object_name c s ≡ some o → MayLeave c stored object s o w w')
      → IsBusy c stored object s w
      → IsBacked c stored object w
      → IsBacked c stored object w'
  Wrote-IsBacked s w w' wrote left busy backed = elim wrote.objects [
    | inl same_objects ↦ λ k n t e fresh.
        Holds-objects c stored object t w w' same_objects
          (backed k n t (sym (wrote.same_stored k n) ∙ e) fresh)
    | inr (o, named, others) ↦
        write-IsBacked c stored object s o w w' named wrote.same_stored others (left o named) busy
          backed
  ]

  module _ (api : IsApi c stored object) where
    save_decoded-Wrote :
        (o : Bytes) (d : Option Bytes) (w : W) → Wrote (some o) w (save_decoded c o d w).1
    save_decoded-Wrote o none w = nothing-Wrote (some o) w
    save_decoded-Wrote o (some d) w = record {
      same_stored = api.save_stored o d w;
      objects = inr (o, refl, api.save_objects o d w);
    }

    pub upload_as-Wrote :
        (name : Option Bytes) (hashes : Bytes) (w : W) → Wrote name w (upload_as c name hashes w).1
    upload_as-Wrote none hashes w = nothing-Wrote none w
    upload_as-Wrote (some o) hashes w = save_decoded-Wrote o (c.decode hashes) w

    pub remove_as-Wrote : (name : Option Bytes) (w : W) → Wrote name w (remove_as c name w).1
    remove_as-Wrote none w = nothing-Wrote none w
    remove_as-Wrote (some o) w = record {
      same_stored = api.remove_stored o w;
      objects = inr (o, refl, api.remove_objects o w);
    }

    save_decoded-left :
        (o : Bytes) (x : Option Bytes) (w : W)
        → (object o (save_decoded c o x w).1 ≡ object o w)
          ⊎ ((d : Bytes) × (x ≡ some d) × (object o (save_decoded c o x w).1 ≡ some d))
    save_decoded-left o none w = inl refl
    save_decoded-left o (some d) w = elim (api.save_own o d w) [
      | inl kept ↦ inl kept
      | inr new ↦ inr (d, refl, new)
    ]

    pub upload_as-left :
        (name : Option Bytes) (hashes : Bytes) (w : W) (o : Bytes)
        → name ≡ some o
        → (object o (upload_as c name hashes w).1 ≡ object o w)
          ⊎ ((d : Bytes) × (c.decode hashes ≡ some d)
              × (object o (upload_as c name hashes w).1 ≡ some d))
    upload_as-left none hashes w o named = inl refl
    upload_as-left (some p) hashes w o named =
        subst
          (λ q.
            (object q (save_decoded c p (c.decode hashes) w).1 ≡ object q w)
            ⊎ ((d : Bytes) × (c.decode hashes ≡ some d)
                × (object q (save_decoded c p (c.decode hashes) w).1 ≡ some d)))
          (some-inj named) (save_decoded-left p (c.decode hashes) w)

    save_decoded-succeeded :
        (o : Bytes) (x : Option Bytes) (w : W)
        → (save_decoded c o x w).0 ≡ succeeded
        → (d : Bytes) × (x ≡ some d) × (object o (save_decoded c o x w).1 ≡ some d)
    save_decoded-succeeded o none w e = absurd (ground (arith, e))
    save_decoded-succeeded o (some d) w e =
        (d, refl, api.saved o d w (succeeded-true (c.save o d w).0 e))

    pub upload_as-succeeded :
        (name : Option Bytes) (hashes : Bytes) (w : W)
        → (upload_as c name hashes w).0 ≡ succeeded
        → (o : Bytes) → name ≡ some o
        → (d : Bytes) × (c.decode hashes ≡ some d)
          × (object o (upload_as c name hashes w).1 ≡ some d)
    upload_as-succeeded none hashes w e o named = absurd (ground (arith, e))
    upload_as-succeeded (some p) hashes w e o named =
        let (d, ed, ho) = save_decoded-succeeded p (c.decode hashes) w e in
        (
          d,
          ed,
          ap (λ q. object q (save_decoded c p (c.decode hashes) w).1) (some-inj (sym named)) ∙ ho,
        )

    pub remove_as-only :
        (name : Option Bytes) (w : W) (m d : Bytes)
        → object m (remove_as c name w).1 ≡ some d
        → object m w ≡ some d
    remove_as-only none w m d e = e
    remove_as-only (some o) w m d e = api.removed_only o w m d e

    pub remove_as-succeeded :
        (name : Option Bytes) (w : W)
        → (remove_as c name w).0 ≡ succeeded
        → (o : Bytes) → name ≡ some o
        → object o (remove_as c name w).1 ≡ none
    remove_as-succeeded none w e o named = absurd (ground (arith, e))
    remove_as-succeeded (some p) w e o named =
        ap (λ q. object q (c.remove p w).1) (some-inj (sym named))
        ∙ api.removed_object p w (succeeded-true (c.remove p w).0 e)
