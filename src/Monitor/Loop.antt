-- ===== src/Monitor/Loop.antt =====
-- The loop over the channel compares the files that arrive with the records, whatever their order.
use integrity_sum.Base.{
  ℕ, suc, ◌≡◌, ◌≢◌, ◌⊎◌, inl, inr, refl, ap, sym, ◌∙◌, Bool, true, false, List, [], ◌∷◌, ◌++◌,
  Option, none, some, Bytes, same, same_iff, same_refl, if◌then◌else◌, arith, Bool-cases,
}
use integrity_sum.Base.Map.{Map, lookup, delete, lookup-delete}
use integrity_sum.Strings.Search.{trim_prefix}
use integrity_sum.Worker.{FileHash}
use integrity_sum.Monitor.{
  LoopEnd, mismatch, new_file, drained, cancelled, compare_item, compare_loop,
}

-- The files that were scanned, with their paths stripped.
unfoldable pub files : Bytes → List FileHash → Map Bytes
files proc_dirs [] = []
files proc_dirs (v ∷ vs) = (trim_prefix v.path proc_dirs, v.hash) ∷ files proc_dirs vs

-- No path twice.
abbrev pub Distinct : Map Bytes → Type 0
Distinct [] = Unit
Distinct ((p, h) ∷ m) = (lookup p m ≡ none) × Distinct m

abbrev pub or_else {ℓ} : {A : Type ℓ} → Option A → Option A → Option A
or_else none b = b
or_else (some a) b = some a

-- An entry of a list, with what stands before it.
pub record Entry (m : Map Bytes) (p h : Bytes) : Type 0 where
  pub before : Map Bytes
  pub after : Map Bytes
  pub split : m ≡ before ++ ((p, h) ∷ after)

-- What a loop that received everything has seen.
pub record Drained (fs e m : Map Bytes) : Type 0 where
  pub distinct : Distinct fs
  pub matched : (q : Bytes) → lookup q e ≡ or_else (lookup q fs) (lookup q m)
  pub gone : (q h : Bytes) → lookup q fs ≡ some h → lookup q m ≡ none

Drained-cons :
    (path hash : Bytes) (fs e m : Map Bytes)
    → lookup path e ≡ some hash
    → Drained fs (delete path e) m
    → Drained ((path, hash) ∷ fs) e m
unfolding lookup
Drained-cons path hash fs e m found d = record {
  distinct =
      (ground (arith, d.matched path, lookup-delete path path e, same_refl path), d.distinct);
  matched = λ q. ground (arith, d.matched q, lookup-delete path q e, same_iff path q);
  gone = λ q k x. ground (arith, d.gone q k, d.matched q, lookup-delete path q e, same_iff path q);
}

-- The head of the channel was as recorded, and the loop went on.
passed_head :
    (found : Option Bytes) (path hash : Bytes) (rest : LoopEnd) (m : Map Bytes)
    → compare_item found path hash rest ≡ drained m
    → (found ≡ some hash) × (rest ≡ drained m)
passed_head none path hash rest m h = absurd (ground arith)
passed_head (some k) path hash rest m h = (ground (arith, same_iff k hash), ground arith)

not_cancelled :
    (b : Bool) (item : LoopEnd) (m : Map Bytes)
    → (if b then cancelled else item) ≡ drained m
    → item ≡ drained m
not_cancelled b item m h = ground arith

mismatch_item :
    (found : Option Bytes) (path hash : Bytes) (rest : LoopEnd) (p h : Bytes)
    → compare_item found path hash rest ≡ mismatch p h
    → ((k : Bytes) × (found ≡ some k) × (k ≢ hash) × (path ≡ p) × (hash ≡ h))
      ⊎ (rest ≡ mismatch p h)
mismatch_item none path hash rest p h x = absurd (ground arith)
mismatch_item (some k) path hash rest p h x = elim (Bool-cases (same k hash)) [
  | inl eq ↦ inr (ground arith)
  | inr ne ↦ inl (k, refl, λ y. ground (arith, same_iff k hash), ground arith, ground arith)
]

new_item :
    (found : Option Bytes) (path hash : Bytes) (rest : LoopEnd) (p h : Bytes)
    → compare_item found path hash rest ≡ new_file p h
    → ((found ≡ none) × (path ≡ p) × (hash ≡ h)) ⊎ (rest ≡ new_file p h)
new_item none path hash rest p h x = inl (refl, ground arith, ground arith)
new_item (some k) path hash rest p h x = inr (ground arith)

-- An end that is not `cancelled` comes from the item.
went_in :
    (b : Bool) (item end : LoopEnd)
    → cancelled ≢ end
    → (if b then cancelled else item) ≡ end
    → item ≡ end
went_in true item end ne x = absurd (ne x)
went_in false item end ne x = x

Entry-head :
    (path hash : Bytes) (m : Map Bytes) (p h : Bytes)
    → path ≡ p
    → hash ≡ h
    → Entry ((path, hash) ∷ m) p h
Entry-head path hash m p h ep eh = record { before = []; after = m; split = cc }

Entry-cons :
    (path hash : Bytes) {m : Map Bytes} {p h : Bytes} → Entry m p h → Entry ((path, hash) ∷ m) p h
Entry-cons path hash x = record {
  before = (path, hash) ∷ x.before;
  after = x.after;
  split = ap (λ t. (path, hash) ∷ t) x.split;
}

new_later :
    (path hash : Bytes) (e : Map Bytes) {m : Map Bytes} {p h : Bytes}
    → ((x : Entry m p h) × ((lookup p (delete path e) ≡ none) ⊎ (lookup p x.before ≢ none)))
    → (x : Entry ((path, hash) ∷ m) p h) × ((lookup p e ≡ none) ⊎ (lookup p x.before ≢ none))
unfolding lookup Entry-cons
new_later path hash e {p} (x, inr ne) = (Entry-cons path hash x, inr λ y. ground arith)
new_later path hash e {p} (x, inl no_record) = elim (Bool-cases (same path p)) [
  | inl eq ↦ (Entry-cons path hash x, inr λ y. ground arith)
  | inr other ↦ (Entry-cons path hash x, inl (ground (arith, lookup-delete path p e)))
]

module _ (ctx_done : ℕ → Bool) (proc_dirs : Bytes) where
  -- A loop that receives everything has found each file recorded, once, with its hash.
  pub drained_sound :
      (n : ℕ) (vs : List FileHash) (e m : Map Bytes)
      → compare_loop ctx_done n proc_dirs vs e ≡ drained m
      → Drained (files proc_dirs vs) e m
  unfolding compare_loop files lookup
  drained_sound n [] e m h = record {
    distinct = tt;
    matched = λ q. ground arith;
    gone = λ q k x. cc;
  }
  drained_sound n (v ∷ vs) e m h =
      let path = trim_prefix v.path proc_dirs in
      let rest = compare_loop ctx_done (suc n) proc_dirs vs (delete path e) in
      let (found, went_on) =
        passed_head (lookup path e) path v.hash rest m (not_cancelled (ctx_done n) _ m h) in
      Drained-cons path v.hash (files proc_dirs vs) e m found
        (drained_sound (suc n) vs (delete path e) m went_on)

  -- A file whose hash differs from its record.
  pub mismatch_sound :
      (n : ℕ) (vs : List FileHash) (e : Map Bytes) (p h : Bytes)
      → compare_loop ctx_done n proc_dirs vs e ≡ mismatch p h
      → Entry (files proc_dirs vs) p h × (k : Bytes) × (lookup p e ≡ some k) × (k ≢ h)
  unfolding compare_loop files
  mismatch_sound n [] e p h x = absurd (ground arith)
  mismatch_sound n (v ∷ vs) e p h x =
      let path = trim_prefix v.path proc_dirs in
      elim (mismatch_item (lookup path e) path v.hash _ p h
        (went_in (ctx_done n) _ _ (λ y. cc) x)) [
          | inl (k, found, ne, ep, eh) ↦ (
            Entry-head path v.hash (files proc_dirs vs) p h ep eh,
            k,
            ground arith,
            λ y. ne (y ∙ sym eh),
          )
          | inr later ↦
              let (entry, k, found, ne) = mismatch_sound (suc n) vs (delete path e) p h later in
              (Entry-cons path v.hash entry, k, ground (arith, lookup-delete path p e), ne)
        ]

  -- A file with no record, or that came before.
  pub new_file_sound :
      (n : ℕ) (vs : List FileHash) (e : Map Bytes) (p h : Bytes)
      → compare_loop ctx_done n proc_dirs vs e ≡ new_file p h
      → (x : Entry (files proc_dirs vs) p h) × ((lookup p e ≡ none) ⊎ (lookup p x.before ≢ none))
  unfolding compare_loop files
  new_file_sound n [] e p h x = absurd (ground arith)
  new_file_sound n (v ∷ vs) e p h x =
      let path = trim_prefix v.path proc_dirs in
      elim (new_item (lookup path e) path v.hash _ p h (went_in (ctx_done n) _ _ (λ y. cc) x)) [
        | inl (found, ep, eh) ↦
            (Entry-head path v.hash (files proc_dirs vs) p h ep eh, inl (ground arith))
        | inr later ↦ new_later path v.hash e (new_file_sound (suc n) vs (delete path e) p h later)
      ]

item_live :
    (found : Option Bytes) (path hash : Bytes) (rest : LoopEnd)
    → rest ≢ cancelled
    → compare_item found path hash rest ≢ cancelled
item_live none path hash rest h x = cc
item_live (some k) path hash rest h x = elim (Bool-cases (same k hash)) [
  | inl eq ↦ h (ground arith)
  | inr ne ↦ ground arith
]

empty_of_lookup : (m : Map Bytes) → ((q : Bytes) → lookup q m ≡ none) → m ≡ []
unfolding lookup
empty_of_lookup [] h = refl
empty_of_lookup ((k, v) ∷ m) h = absurd (ground (arith, h k, same_refl k))

module _ (ctx_done : ℕ → Bool) (proc_dirs : Bytes) (running : (n : ℕ) → ctx_done n ≡ false) where
  -- Distinct files that are exactly the records drain the map.
  pub drained_complete :
      (n : ℕ) (vs : List FileHash) (e : Map Bytes)
      → Distinct (files proc_dirs vs)
      → ((q : Bytes) → lookup q e ≡ lookup q (files proc_dirs vs))
      → compare_loop ctx_done n proc_dirs vs e ≡ drained []
  unfolding compare_loop files lookup
  drained_complete n [] e d h = ap drained (empty_of_lookup e h)
  drained_complete n (v ∷ vs) e (fresh, d) h =
      let path = trim_prefix v.path proc_dirs in
      let found : lookup path e ≡ some v.hash = ground (arith, h path, same_refl path) in
      let ih =
        drained_complete (suc n) vs (delete path e) d
          (λ q. ground (arith, h q, lookup-delete path q e, same_iff path q, fresh)) in
      rw (running n, found, same_refl v.hash) ih

  -- With the context live the loop is never cancelled.
  pub not-cancelled :
      (n : ℕ) (vs : List FileHash) (e : Map Bytes)
      → compare_loop ctx_done n proc_dirs vs e ≢ cancelled
  unfolding compare_loop
  not-cancelled n [] e x = cc
  not-cancelled n (v ∷ vs) e x =
      let path = trim_prefix v.path proc_dirs in
      item_live (lookup path e) path v.hash _ (not-cancelled (suc n) vs (delete path e))
        (rw (running n) at x)
