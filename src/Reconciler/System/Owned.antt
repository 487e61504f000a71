-- ===== src/Reconciler/System/Owned.antt =====
-- Users who leave images and finalizers alone, and the invariant that no object outlives its snapshot.
use integrity_sum.Base.{
  ◌≡◌, sym, ap₂, ◌∙◌, true, false, ◌⊎◌, inl, inr, List, [], ◌∷◌, Option, none, some, Bytes,
}
use integrity_sum.Reconciler.{Snapshot, finalizer_name, Calls, succeeded}
use integrity_sum.Reconciler.System.{
  Phase, idle, fetched, tried, removed, object_name, Change, IsApi,
}

-- The finalizer of the controller is on the list.
abbrev pub Has : List Bytes → Type 0
Has [] = ⊥
Has (f ∷ fs) = (f ≡ finalizer_name) ⊎ Has fs

module _ {W : Type 0} (c : Calls W) (stored : Bytes → Bytes → W → Option Snapshot)
    (object : Bytes → W → Option Bytes) where
  -- What careful users do: they create snapshots with the finalizer, leave the finalizer, the image and
  -- the algorithm as they are, and ask for a deletion. A snapshot without the finalizer may vanish.
  pub data Tended (w w' : W) : Type 0 where
    adds :
        (s : Snapshot)
        → stored s.namespace s.name w ≡ none
        → Has s.finalizers
        → Change c stored object s.namespace s.name (some s) w w'
        → Tended w w'
    rehashes :
        (s : Snapshot) (hashes : Bytes)
        → stored s.namespace s.name w ≡ some s
        → Change c stored object s.namespace s.name
            (some (record s { spec = record s.spec { base64_hashes = hashes } }))
            w
            w'
        → Tended w w'
    labels :
        (s : Snapshot) (finalizers : List Bytes)
        → stored s.namespace s.name w ≡ some s
        → (Has s.finalizers → Has finalizers)
        → Change c stored object s.namespace s.name
            (some (record s { finalizers = finalizers }))
            w
            w'
        → Tended w w'
    asks_deletion :
        (s : Snapshot)
        → stored s.namespace s.name w ≡ some s
        → Change c stored object s.namespace s.name (some (record s { deleting = true })) w w'
        → Tended w w'
    drops :
        (s : Snapshot)
        → stored s.namespace s.name w ≡ some s
        → ¬ Has s.finalizers
        → Change c stored object s.namespace s.name none w w'
        → Tended w w'

  -- A snapshot of this name, with the finalizer, has the object.
  pub record Owner (o : Bytes) (w : W) : Type 0 where
    pub snapshot : Snapshot
    pub is_stored : stored snapshot.namespace snapshot.name w ≡ some snapshot
    pub named : object_name c snapshot ≡ some o
    pub has : Has snapshot.finalizers

  abbrev pub AllOwned : W → Type 0
  AllOwned w = (o d : Bytes) → object o w ≡ some d → Owner o w

  abbrev pub AllGuarded : W → Type 0
  AllGuarded w =
      (k n : Bytes) (s : Snapshot) → stored k n w ≡ some s → s.deleting ≡ false → Has s.finalizers

  -- The snapshot's object has an owner, if it has a name.
  abbrev pub IsKept : Snapshot → W → Type 0
  IsKept s w = (o : Bytes) → object_name c s ≡ some o → Owner o w

  abbrev pub IsGone : Snapshot → W → Type 0
  IsGone s w = (o : Bytes) → object_name c s ≡ some o → object o w ≡ none

  abbrev pub IsSafe : Phase → W → Type 0
  IsSafe idle w = Unit
  IsSafe (fetched s) w = s.deleting ≡ false → IsKept s w
  IsSafe (tried s e) w = Unit
  IsSafe (removed s e) w = (s.deleting ≡ true) × (e ≡ succeeded → IsGone s w)

  pub record Inv (p : Phase) (w : W) : Type 0 where
    pub owned : AllOwned w
    pub guarded : AllGuarded w
    pub is_safe : IsSafe p w

  module _ (api : IsApi c stored object) where
    -- The new snapshot under a name keeps what the old one owned.
    abbrev pub Keeps : Bytes → Bytes → Option Snapshot → Bytes → W → Type 0
    Keeps k n new o w =
        (s : Snapshot)
        → stored k n w ≡ some s
        → Has s.finalizers
        → object_name c s ≡ some o
        → (t : Snapshot) × (new ≡ some t)
          × (object_name c t ≡ some o)
          × Has t.finalizers
          × (t.namespace ≡ k)
          × (t.name ≡ n)

    pub Owner-Change :
        (k n : Bytes) (new : Option Snapshot) (w w' : W)
        → Change c stored object k n new w w'
        → (o : Bytes) → Keeps k n new o w
        → Owner o w
        → Owner o w'
    Owner-Change k n new w w' change o keeps owner =
        elim (change.others owner.snapshot.namespace owner.snapshot.name) [
          | inl (ek, en) ↦
              (let at_key = ap₂ (λ x y. stored x y w) (sym ek) (sym en) ∙ owner.is_stored in
                let (t, et, named, has, tk, tn) =
                  keeps owner.snapshot at_key owner.has owner.named in
                record {
                  snapshot = t;
                  is_stored = ap₂ (λ x y. stored x y w') tk tn ∙ change.own ∙ et;
                  named = named;
                  has = has;
                })
          | inr same_there ↦ record {
            snapshot = owner.snapshot;
            is_stored = same_there ∙ owner.is_stored;
            named = owner.named;
            has = owner.has;
          }
        ]

    pub AllGuarded-Change :
        (k n : Bytes) (new : Option Snapshot) (w w' : W)
        → Change c stored object k n new w w'
        → ((t : Snapshot) → new ≡ some t → t.deleting ≡ false → Has t.finalizers)
        → AllGuarded w
        → AllGuarded w'
    AllGuarded-Change k n new w w' change new_guarded guarded j m t e live =
        elim (change.others j m) [
          | inl (ej, em) ↦
              new_guarded t (sym change.own ∙ ap₂ (λ x y. stored x y w') (sym ej) (sym em) ∙ e) live
          | inr same_there ↦ guarded j m t (sym same_there ∙ e) live
        ]

    IsSafe-Change :
        (p : Phase) (k n : Bytes) (new : Option Snapshot) (w w' : W)
        → Change c stored object k n new w w'
        → ((o : Bytes) → Keeps k n new o w)
        → IsSafe p w
        → IsSafe p w'
    IsSafe-Change idle k n new w w' change keeps h = tt
    IsSafe-Change (fetched s) k n new w w' change keeps h =
        λ live o named. Owner-Change k n new w w' change o (keeps o) (h live o named)
    IsSafe-Change (tried s e) k n new w w' change keeps h = tt
    IsSafe-Change (removed s e) k n new w w' change keeps h =
        (h.0, λ ok o named. change.objects o ∙ h.1 ok o named)

    pub Change-Inv :
        (p : Phase) (k n : Bytes) (new : Option Snapshot) (w w' : W)
        → Change c stored object k n new w w'
        → ((o : Bytes) → Keeps k n new o w)
        → ((t : Snapshot) → new ≡ some t → t.deleting ≡ false → Has t.finalizers)
        → Inv p w
        → Inv p w'
    Change-Inv p k n new w w' change keeps new_guarded inv = record {
      owned = λ o d e.
          Owner-Change k n new w w' change o (keeps o) (inv.owned o d (sym (change.objects o) ∙ e));
      guarded = AllGuarded-Change k n new w w' change new_guarded inv.guarded;
      is_safe = IsSafe-Change p k n new w w' change keeps inv.is_safe;
    }
