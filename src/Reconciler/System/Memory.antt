-- ===== src/Reconciler/System/Memory.antt =====
-- A cluster in memory with room for one snapshot, whose writes check the version that was read.
use integrity_sum.Base.{
  ◌≡◌, refl, sym, ◌∙◌, ap, subst, Bool, true, false, not, ◌&&◌, ◌⊎◌, inl, inr, List, [], ◌∷◌,
  Option, none, some, Bytes, arith, same, same_iff, same_refl, Bool-cases, if◌then◌else◌,
}
use integrity_sum.Base.Map.{Map, lookup, insert, delete, lookup-insert, lookup-delete}
use integrity_sum.Reconciler.System.{Change, IsApi}
use integrity_sum.Reconciler.{SnapshotStatus, Snapshot, Fetch, found, not_found, Calls}

pub record World : Type 0 where
  pub slot : Option Snapshot
  pub objects : Map Bytes

abbrev same_bool : Bool → Bool → Bool
same_bool true b = b
same_bool false b = not b

abbrev same_all : List Bytes → List Bytes → Bool
same_all [] [] = true
same_all [] (y ∷ ys) = false
same_all (x ∷ xs) [] = false
same_all (x ∷ xs) (y ∷ ys) = same x y && same_all xs ys

same_all-eq : (xs ys : List Bytes) → same_all xs ys ≡ true → xs ≡ ys
same_all-eq [] [] e = refl
same_all-eq [] (y ∷ ys) e = absurd (ground (arith, e))
same_all-eq (x ∷ xs) [] e = absurd (ground (arith, e))
same_all-eq (x ∷ xs) (y ∷ ys) e = ground (arith, same_iff x y, same_all-eq xs ys, e)

-- All but the status and the finalizers.
abbrev alike : Snapshot → Snapshot → Bool
alike t s =
    same t.namespace s.namespace
    && same t.name s.name
    && same_bool t.deleting s.deleting
    && same t.spec.image s.spec.image
    && same t.spec.base64_hashes s.spec.base64_hashes
    && same t.spec.algorithm s.spec.algorithm

alike-eq :
    (t s : Snapshot)
    → alike t s ≡ true
    → t ≡ record s { status = t.status; finalizers = t.finalizers }
alike-eq t s e = grind (
  arith,
  same_iff t.namespace s.namespace,
  same_iff t.name s.name,
  same_iff t.spec.image s.spec.image,
  same_iff t.spec.base64_hashes s.spec.base64_hashes,
  same_iff t.spec.algorithm s.spec.algorithm,
)

abbrev pub at : Bytes → Bytes → Option Snapshot → Option Snapshot
at k n none = none
at k n (some s) = if same k s.namespace && same n s.name then some s else none

abbrev pub stored : Bytes → Bytes → World → Option Snapshot
stored k n w = at k n w.slot

abbrev pub object : Bytes → World → Option Bytes
object n w = lookup n w.objects

abbrev pub fetch_of : Option Snapshot → Fetch
fetch_of none = not_found
fetch_of (some s) = found s

-- The version that is there is the one that was read.
abbrev replace : Bool → Option Snapshot → World → Bool × World
replace current new w = if current then (true, record w { slot = new }) else (false, w)

abbrev status_current : Snapshot → Option Snapshot → Bool
status_current s none = false
status_current s (some t) = alike t s && same_all t.finalizers s.finalizers

abbrev same_status : Snapshot → Snapshot → Bool
same_status t s =
    same_bool t.status.is_uploaded s.status.is_uploaded
    && same t.status.control_hash s.status.control_hash

abbrev update_current : Snapshot → Option Snapshot → Bool
update_current s none = false
update_current s (some t) = alike t s && same_status t s

abbrev released : Snapshot → Option Snapshot
released s = if s.deleting then none else some s

abbrev pub calls : Calls World
calls = record {
  get_snapshot = λ k n w. fetch_of (stored k n w);
  update_status = λ s w. replace (status_current s w.slot) (some s) w;
  update = λ s w. replace (update_current s w.slot) (released s) w;
  save = λ n d w. (true, record w { objects = insert n d w.objects });
  remove = λ n w. (true, record w { objects = delete n w.objects });
  remove_finalizer = λ f l. [];
  md5hash = λ s. s;
  decode = λ s. some s;
  unicode_lower = λ s. s;
}

at-keyed :
    (k n : Bytes) (x : Option Snapshot) (s : Snapshot)
    → at k n x ≡ some s
    → (s.namespace ≡ k) × (s.name ≡ n)
at-keyed k n none s e = absurd (ground (arith, e))
at-keyed k n (some t) s e = grind (arith, same_iff k t.namespace, same_iff n t.name, e)

pub at-away :
    (k n : Bytes) (t : Snapshot) → ((k ≡ t.namespace) × (n ≡ t.name)) ⊎ (at k n (some t) ≡ none)
at-away k n t = elim (Bool-cases (same k t.namespace && same n t.name)) [
  | inl e ↦ inl (
    grind (arith, e, same_iff k t.namespace, same_iff n t.name),
    grind (arith, e, same_iff k t.namespace, same_iff n t.name),
  )
  | inr e ↦ inr (rw e refl)
]

at-others :
    (k n : Bytes) (s t : Snapshot)
    → t.namespace ≡ s.namespace
    → t.name ≡ s.name
    → ((k ≡ s.namespace) × (n ≡ s.name)) ⊎ (at k n (some s) ≡ at k n (some t))
at-others k n s t ek en = elim (at-away k n t) [
  | inl (a, b) ↦ inl (a ∙ ek, b ∙ en)
  | inr et ↦ elim (at-away k n s) [ inl same_key ↦ inl same_key | inr es ↦ inr (es ∙ sym et) ]
]

pub at-own : (s : Snapshot) → at s.namespace s.name (some s) ≡ some s
at-own s = rw (same_refl s.namespace, same_refl s.name)

found-some : (k n : Bytes) (x : Option Snapshot) (s : Snapshot) → fetch_of x ≡ found s → x ≡ some s
found-some k n none s e = absurd (ground (arith, e))
found-some k n (some t) s e = ground (arith, e)

nothing : (k n : Bytes) (w : World) → Change calls stored object k n (stored k n w) w w
nothing k n w = record { objects = λ m. refl; own = refl; others = λ j m. inr refl }

-- The snapshot in the slot is overwritten, or goes.
overwritten :
    (s t : Snapshot) (w : World)
    → w.slot ≡ some t
    → t.namespace ≡ s.namespace
    → t.name ≡ s.name
    → Change calls stored object s.namespace s.name (some s) w (record w { slot = some s })
overwritten s t w e ek en = record {
  objects = λ m. refl;
  own = at-own s;
  others = λ j m.
      subst (λ x. ((j ≡ s.namespace) × (m ≡ s.name)) ⊎ (at j m (some s) ≡ at j m x)) (sym e)
        (at-others j m s t ek en);
}

emptied :
    (t : Snapshot) (w : World)
    → w.slot ≡ some t
    → Change calls stored object t.namespace t.name none w (record w { slot = none })
emptied t w e = record {
  objects = λ m. refl;
  own = refl;
  others = λ j m.
      subst (λ x. ((j ≡ t.namespace) × (m ≡ t.name)) ⊎ (none ≡ at j m x)) (sym e)
        (elim (at-away j m t) [ inl same_key ↦ inl same_key | inr away ↦ inr (sym away) ]);
}

abbrev pub world : Option Snapshot → Map Bytes → World
world x o = record { slot = x; objects = o }

status_law :
    (s : Snapshot) (x : Option Snapshot) (o : Map Bytes)
    → Change calls stored object s.namespace s.name
        (stored s.namespace s.name (world x o))
        (world x o)
        (calls.update_status s (world x o)).1
      ⊎ ((t : SnapshotStatus) × (stored s.namespace s.name (world x o)
            ≡ some (record s { status = t }))
          × Change calls stored object s.namespace s.name
              (some s)
              (world x o)
              (calls.update_status s (world x o)).1)
status_law s none o = inl (nothing s.namespace s.name (world none o))
status_law s (some t) o = elim (Bool-cases (alike t s && same_all t.finalizers s.finalizers)) [
  | inl e ↦
      (let et : t ≡ record s { status = t.status } =
          grind (arith, e, alike-eq t s, same_all-eq t.finalizers s.finalizers) in
        rw e (
          inr (
            t.status,
            ap (at s.namespace s.name) (ap some et) ∙ at-own (record s { status = t.status }),
            overwritten s t (world (some t) o) refl (ap (λ t. t.namespace) et)
                (ap (λ t. t.name) et),
          )))
  | inr e ↦ rw e (inl (nothing s.namespace s.name (world (some t) o)))
]

release_law :
    (s t : Snapshot) (o : Map Bytes)
    → t ≡ record s { finalizers = t.finalizers }
    → (deleting : Bool)
    → Change calls stored object s.namespace s.name none
        (world (some t) o)
        (world (if deleting then none else some s) o)
      ⊎ Change calls stored object s.namespace s.name
          (some s)
          (world (some t) o)
          (world (if deleting then none else some s) o)
release_law s t o et true =
    inl (emptied (record s { finalizers = t.finalizers }) (world (some t) o) (ap some et))
release_law s t o et false =
    inr (overwritten s t (world (some t) o) refl (ap (λ t. t.namespace) et) (ap (λ t. t.name) et))

update_law :
    (s : Snapshot) (x : Option Snapshot) (o : Map Bytes)
    → Change calls stored object s.namespace s.name
        (stored s.namespace s.name (world x o))
        (world x o)
        (calls.update s (world x o)).1
      ⊎ ((f : List Bytes) × (stored s.namespace s.name (world x o)
            ≡ some (record s { finalizers = f }))
          × (Change calls stored object s.namespace s.name none
                (world x o)
                (calls.update s (world x o)).1
              ⊎ Change calls stored object s.namespace s.name
                  (some s)
                  (world x o)
                  (calls.update s (world x o)).1))
update_law s none o = inl (nothing s.namespace s.name (world none o))
update_law s (some t) o = elim (Bool-cases (alike t s && same_status t s)) [
  | inl e ↦
      (let et : t ≡ record s { finalizers = t.finalizers } =
          grind (arith, e, alike-eq t s, same_iff t.status.control_hash s.status.control_hash) in
        rw e (
          inr (
            t.finalizers,
            ap (at s.namespace s.name) (ap some et)
                ∙ at-own (record s { finalizers = t.finalizers }),
            release_law s t o et s.deleting,
          )))
  | inr e ↦ rw e (inl (nothing s.namespace s.name (world (some t) o)))
]

status_kept_law :
    (s : Snapshot) (x : Option Snapshot) (o : Map Bytes)
    → (calls.update_status s (world x o)).0 ≡ true
    → stored s.namespace s.name (calls.update_status s (world x o)).1 ≡ some s
status_kept_law s none o e = absurd (ground (arith, e))
status_kept_law s (some t) o e =
    elim (Bool-cases (alike t s && same_all t.finalizers s.finalizers)) [
      | inl is_current ↦ rw is_current (at-own s)
      | inr old ↦ absurd (ground (arith, e, old))
    ]

pub calls-IsApi : IsApi calls stored object
calls-IsApi = record {
  got = λ k n w s e. (s.status, found-some k n (stored k n w) s e);
  keyed = λ k n w s e. at-keyed k n w.slot s e;
  saved = λ n d w e. ground (arith, lookup-insert n n d w.objects, same_refl n);
  save_own = λ n d w. inr (ground (arith, lookup-insert n n d w.objects, same_refl n));
  save_objects = λ n d w m. elim (Bool-cases (same n m)) [
    | inl e ↦ inl (sym ((same_iff n m).0 e))
    | inr e ↦ inr (ground (arith, lookup-insert n m d w.objects, e))
  ];
  save_stored = λ n d w k m. refl;
  remove_objects = λ n w m. elim (Bool-cases (same n m)) [
    | inl e ↦ inl (sym ((same_iff n m).0 e))
    | inr e ↦ inr (ground (arith, lookup-delete n m w.objects, e))
  ];
  removed_object = λ n w e. ground (arith, lookup-delete n n w.objects, same_refl n);
  removed_only = λ n w m d e. ground (arith, lookup-delete n m w.objects, e);
  remove_stored = λ n w k m. refl;
  status_written = λ s w. status_law s w.slot w.objects;
  status_kept = λ s w e. status_kept_law s w.slot w.objects e;
  updated = λ s w. update_law s w.slot w.objects;
}
