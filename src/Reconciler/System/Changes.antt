-- ===== src/Reconciler/System/Changes.antt =====
-- What stays true of the snapshots and the objects when one snapshot changes, or one object.
use integrity_sum.Base.{
  true, false, ◌≡◌, ◌∙◌, sym, ap, subst, ◌⊎◌, inl, inr, Option, none, some, Bytes, arith,
}
use integrity_sum.Reconciler.{Snapshot, Calls}
use integrity_sum.Reconciler.System.{object_name, IsFresh, Change, Unshared}

pub some-inj {ℓ} : {A : Type ℓ} {x y : A} → some x ≡ some y → x ≡ y
some-inj e = cc

pub none-some {ℓ} : {A : Type ℓ} {x : A} → none ≡ some x → ⊥
none-some e = ground (arith, e)

module _ {W : Type 0} (c : Calls W) (stored : Bytes → Bytes → W → Option Snapshot)
    (object : Bytes → W → Option Bytes) where
  -- The decoded hashes of a snapshot are stored under its object's name.
  abbrev pub Holds : Snapshot → W → Type 0
  Holds s w =
      (o : Bytes)
      → object_name c s ≡ some o
      → (d : Bytes) × (c.decode s.spec.base64_hashes ≡ some d) × (object o w ≡ some d)

  -- A status that says so is right.
  abbrev pub IsBacked : W → Type 0
  IsBacked w = (k n : Bytes) (s : Snapshot) → stored k n w ≡ some s → IsFresh c s → Holds s w

  abbrev pub IsUnshared : W → Type 0
  IsUnshared w = (k n : Bytes) (s : Snapshot) → stored k n w ≡ some s → Unshared c stored object s w

  -- A status that speaks of the object of this snapshot speaks of the same hashes.
  abbrev pub IsBusy : Snapshot → W → Type 0
  IsBusy s w =
      (k n : Bytes) (t : Snapshot) (o : Bytes)
      → stored k n w ≡ some t
      → object_name c s ≡ some o
      → object_name c t ≡ some o
      → IsFresh c t
      → (s.deleting ≡ false) × (t.spec.base64_hashes ≡ s.spec.base64_hashes)

  pub Holds-objects :
      (s : Snapshot) (w w' : W) → ((n : Bytes) → object n w' ≡ object n w) → Holds s w → Holds s w'
  Holds-objects s w w' same_objects h o e = let (d, ed, eo) = h o e in (d, ed, same_objects o ∙ eo)

  module _ (k n : Bytes) (new : Option Snapshot) (w w' : W)
      (change : Change c stored object k n new w w') where
    -- What is stored afterwards is the new snapshot under its name, or was stored before.
    before :
        (j m : Bytes) (t : Snapshot)
        → stored j m w' ≡ some t
        → ((j ≡ k) × (m ≡ n) × (new ≡ some t)) ⊎ (stored j m w ≡ some t)
    before j m t e = elim (change.others j m) [
      | inl (ek, en) ↦ inl (
        ek,
        en,
        sym change.own
            ∙ subst (λ x. stored k x w' ≡ some t) en (subst (λ x. stored x m w' ≡ some t) ek e),
      )
      | inr kept ↦ inr (sym kept ∙ e)
    ]

    pub Change-IsBacked :
        IsBacked w → ((s : Snapshot) → new ≡ some s → IsFresh c s → Holds s w) → IsBacked w'
    Change-IsBacked backed new_backed j m t e fresh =
        Holds-objects t w w' change.objects (elim (before j m t e) [
          | inl (_, _, en) ↦ new_backed t en fresh
          | inr old ↦ backed j m t old fresh
        ])

    pub Change-IsBusy :
        (s : Snapshot)
        → IsBusy s w
        → ((t : Snapshot) (o : Bytes)
            → new ≡ some t
            → object_name c s ≡ some o
            → object_name c t ≡ some o
            → IsFresh c t
            → (s.deleting ≡ false) × (t.spec.base64_hashes ≡ s.spec.base64_hashes))
        → IsBusy s w'
    Change-IsBusy s busy new_busy j m t o e es et = elim (before j m t e) [
      | inl (_, _, en) ↦ new_busy t o en es et
      | inr old ↦ busy j m t o old es et
    ]

    pub Change-IsUnshared :
        ((j m : Bytes) (t : Snapshot) → stored j m w ≡ some t → (t.namespace ≡ j) × (t.name ≡ m))
        → IsUnshared w
        → ((s : Snapshot)
            → new ≡ some s
            → (s.namespace ≡ k) × (s.name ≡ n) × Unshared c stored object s w)
        → IsUnshared w'
    Change-IsUnshared keyed unshared new_unshared j m s e i l t o et ns nt = elim (before j m s e) [
      | inl (ej, em, en) ↦
          (let (fk, fn, u) = new_unshared s en in
            elim (before i l t et) [
              | inl (ei, el, _) ↦ (ei ∙ sym fk, el ∙ sym fn)
              | inr old ↦ u i l t o old ns nt
            ])
      | inr old ↦ elim (before i l t et) [
        | inl (ei, el, en) ↦
            (let (fk, fn, u) = new_unshared t en in
              let (gj, gm) = u j m s o old nt ns in
              let (hj, hm) = keyed j m s old in
              (ei ∙ sym fk ∙ sym gj ∙ sym hj, el ∙ sym fn ∙ sym gm ∙ sym hm))
        | inr told ↦ unshared j m s old i l t o told ns nt
      ]
    ]

  -- What a call may leave under the name of a snapshot: anything if it is being deleted, and else what
  -- was there or the decoded hashes.
  abbrev pub MayLeave : Snapshot → Bytes → W → W → Type 0
  MayLeave s o w w' =
      (s.deleting ≡ true)
      ⊎ ((object o w' ≡ object o w)
          ⊎ ((d : Bytes) × (c.decode s.spec.base64_hashes ≡ some d) × (object o w' ≡ some d)))

  -- A call writes under the name of a snapshot.
  module _ (s : Snapshot) (o : Bytes) (w w' : W) (named : object_name c s ≡ some o)
      (same_stored : (k n : Bytes) → stored k n w' ≡ stored k n w)
      (others : (m : Bytes) → (m ≡ o) ⊎ (object m w' ≡ object m w)) where
    left_right :
        (t : Snapshot)
        → (s.deleting ≡ false) × (t.spec.base64_hashes ≡ s.spec.base64_hashes)
        → MayLeave s o w w'
        → (d : Bytes) × (c.decode t.spec.base64_hashes ≡ some d) × (object o w ≡ some d)
        → (d : Bytes) × (c.decode t.spec.base64_hashes ≡ some d) × (object o w' ≡ some d)
    left_right t (live, e) (inl deleting) h = absurd (ground (arith, live, deleting))
    left_right t (live, e) (inr (inl kept)) (d, ed, ho) = (d, ed, kept ∙ ho)
    left_right t (live, e) (inr (inr (d, ed, ho))) h = (d, ap c.decode e ∙ ed, ho)

    pub write-IsBacked : MayLeave s o w w' → IsBusy s w → IsBacked w → IsBacked w'
    write-IsBacked left busy backed k n t e fresh p named_t =
        let old = sym (same_stored k n) ∙ e in
        elim (others p) [
          | inl ep ↦
              subst
                (λ p.
                  (d : Bytes) × (c.decode t.spec.base64_hashes ≡ some d) × (object p w' ≡ some d))
                (sym ep)
                (left_right t (busy k n t o old named (named_t ∙ ap some ep) fresh) left
                  (backed k n t old fresh o (named_t ∙ ap some ep)))
          | inr kept ↦ (let (d, ed, eo) = backed k n t old fresh p named_t in (d, ed, kept ∙ eo))
        ]

  pub stored-IsUnshared :
      (w w' : W) → ((k n : Bytes) → stored k n w' ≡ stored k n w) → IsUnshared w → IsUnshared w'
  stored-IsUnshared w w' same_stored unshared k n s e i l t o et =
      unshared k n s (sym (same_stored k n) ∙ e) i l t o (sym (same_stored i l) ∙ et)
