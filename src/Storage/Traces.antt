-- ===== src/Storage/Traces.antt =====
-- What the replies of a store tell of one object and one bucket.
use integrity_sum.Base.{
  ◌≡◌, ◌⊎◌, inl, inr, refl, sym, ap, subst, ◌∙◌, Bool, true, false, ◌&&◌, List, Option, none, some,
  Bytes, same, same_refl, same_iff, arith, Bool-cases, if◌then◌else◌,
}
use integrity_sum.Storage.Store.{
  Store, Call, save_call, load_call, remove_call, create_call, Reply, done, failed, content,
  applied, Serves, effect, after, Among, LoadsAmong,
}

abbrev set_to : Option (Option Bytes) → Option Bytes → Option Bytes
set_to none v = v
set_to (some x) v = x

if-set_to :
    (t : Bool) (x v : Option Bytes) → (if t then x else v) ≡ set_to (if t then some x else none) v
if-set_to true x v = refl
if-set_to false x v = refl

objects-applied :
    (b n : Bytes) (c : Call) (s : Store)
    → (applied c s).objects b n ≡ set_to (effect b n c) (s.objects b n)
objects-applied b n (save_call b' n' d) s =
    if-set_to (same b' b && same n' n) (some d) (s.objects b n)
objects-applied b n (load_call b' n') s = refl
objects-applied b n (remove_call b' n') s = if-set_to (same b' b && same n' n) none (s.objects b n)
objects-applied b n (create_call b') s = refl

module _ (v v' : Option Bytes) (vs : List (Option Bytes)) (held : Among v vs) where
  kept-Among : v' ≡ v → Among v' vs
  kept-Among e = subst (λ x. Among x vs) (sym e) held

  done-Among : (e : Option (Option Bytes)) → v' ≡ set_to e v → Among v' (after e done vs)
  done-Among none h = kept-Among h
  done-Among (some x) h = inl h

  failed-Among :
      (e : Option (Option Bytes)) → ((v' ≡ v) ⊎ (v' ≡ set_to e v)) → Among v' (after e failed vs)
  failed-Among none (inl h) = kept-Among h
  failed-Among none (inr h) = kept-Among h
  failed-Among (some x) (inl h) = inr (kept-Among h)
  failed-Among (some x) (inr h) = inl h

  content-Among :
      (e : Option (Option Bytes)) (d : Bytes) → v' ≡ v → Among v' (after e (content d) vs)
  content-Among none d h = kept-Among h
  content-Among (some x) d h = kept-Among h

-- An object, behind one call.
pub Serves-Among :
    (b n : Bytes) (s t : Store) (c : Call) (r : Reply) (vs : List (Option Bytes))
    → Serves s c r t
    → Among (s.objects b n) vs
    → Among (t.objects b n) (after (effect b n c) r vs)
Serves-Among b n s t c done vs h held =
    done-Among (s.objects b n) (t.objects b n) vs held (effect b n c)
      (ap (λ u. u.objects b n) h ∙ objects-applied b n c s)
Serves-Among b n s t c failed vs (inl h) held =
    failed-Among (s.objects b n) (t.objects b n) vs held (effect b n c)
      (inl (ap (λ u. u.objects b n) h))
Serves-Among b n s t c failed vs (inr h) held =
    failed-Among (s.objects b n) (t.objects b n) vs held (effect b n c)
      (inr (ap (λ u. u.objects b n) h ∙ objects-applied b n c s))
Serves-Among b n s t c (content d) vs (h, _) held =
    content-Among (s.objects b n) (t.objects b n) vs held (effect b n c) d
      (ap (λ u. u.objects b n) h)

pub Serves-LoadsAmong :
    (b n : Bytes) (s t : Store) (c : Call) (r : Reply) (vs : List (Option Bytes))
    → Serves s c r t
    → Among (s.objects b n) vs
    → LoadsAmong b n vs c r
Serves-LoadsAmong b n s t c done vs h held = tt
Serves-LoadsAmong b n s t c failed vs h held = tt
Serves-LoadsAmong b n s t (load_call b' n') (content d) vs (h, found) held =
    λ e. kept-Among (s.objects b n) (some d) vs held (ground (arith, found))
Serves-LoadsAmong b n s t (save_call b' n' d') (content d) vs (h, found) held = absurd found
Serves-LoadsAmong b n s t (remove_call b' n') (content d) vs (h, found) held = absurd found
Serves-LoadsAmong b n s t (create_call b') (content d) vs (h, found) held = absurd found

-- A bucket, behind one call: it stays, it is there if its creation is done, and no other comes.
applied-exists :
    (b : Bytes) (c : Call) (s : Store) → s.exists b ≡ true → (applied c s).exists b ≡ true
applied-exists b (save_call b' n d) s h = h
applied-exists b (load_call b' n) s h = h
applied-exists b (remove_call b' n) s h = h
applied-exists b (create_call b') s h = ground (arith, h)

pub Serves-exists :
    (b : Bytes) (s t : Store) (c : Call) (r : Reply)
    → Serves s c r t
    → s.exists b ≡ true
    → t.exists b ≡ true
Serves-exists b s t c done e h = ap (λ u. u.exists b) e ∙ applied-exists b c s h
Serves-exists b s t c failed (inl e) h = ap (λ u. u.exists b) e ∙ h
Serves-exists b s t c failed (inr e) h = ap (λ u. u.exists b) e ∙ applied-exists b c s h
Serves-exists b s t c (content d) (e, _) h = ap (λ u. u.exists b) e ∙ h

pub created-exists :
    (b : Bytes) (s t : Store) (c : Call) (r : Reply)
    → Serves s c r t
    → c ≡ create_call b
    → r ≡ done
    → t.exists b ≡ true
created-exists b s t c done e is_create is_done =
    ap (λ u. u.exists b) (e ∙ ap (λ c. applied c s) is_create) ∙ ground (arith, same_refl b)
created-exists b s t c failed e is_create is_done = absurd (ground (arith, is_done))
created-exists b s t c (content d) e is_create is_done = absurd (ground (arith, is_done))

applied_only :
    (b : Bytes) (c : Call) (s : Store)
    → (applied c s).exists b ≡ true
    → (s.exists b ≡ true) ⊎ (c ≡ create_call b)
applied_only b (save_call b' n d) s h = inl h
applied_only b (load_call b' n) s h = inl h
applied_only b (remove_call b' n) s h = inl h
applied_only b (create_call b') s h = elim (Bool-cases (same b' b)) [
  | inl e ↦ inr (ap create_call ((same_iff b' b).0 e))
  | inr e ↦ inl (ground (arith, e, h))
]

pub only-Serves :
    (b : Bytes) (s t : Store) (c : Call) (r : Reply)
    → Serves s c r t
    → t.exists b ≡ true
    → (s.exists b ≡ true) ⊎ (c ≡ create_call b)
only-Serves b s t c done e h = applied_only b c s (ap (λ u. u.exists b) (sym e) ∙ h)
only-Serves b s t c failed (inl e) h = inl (ap (λ u. u.exists b) (sym e) ∙ h)
only-Serves b s t c failed (inr e) h = applied_only b c s (ap (λ u. u.exists b) (sym e) ∙ h)
only-Serves b s t c (content d) (e, _) h = inl (ap (λ u. u.exists b) (sym e) ∙ h)
