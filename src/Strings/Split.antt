-- ===== src/Strings/Split.antt =====
-- `strings.Split` and `strings.Join`. A separator is never empty in this program.
use integrity_sum.Base.{
  ℕ, zero, suc, ◌-◌, ◌≡◌, refl, ap, true, false, List, [], ◌∷◌, ◌++◌, arith, Bytes, length, All,
  Lacks, ◌∙◌, Bool-cases, inl, inr,
}
use integrity_sum.Strings.Search.{has_prefix, contains, has_prefix-append}

-- A byte in front of the first part.
abbrev pub push : ℕ → List Bytes → List Bytes
push c [] = (c ∷ []) ∷ []
push c (p ∷ ps) = (c ∷ p) ∷ ps

-- The first argument counts the bytes of the last separator that are still to be skipped.
pub split_from : ℕ → Bytes → Bytes → List Bytes
split_from k [] sep = [] ∷ []
split_from (suc k) (c ∷ s) sep = split_from k s sep
split_from zero (c ∷ s) sep = elim (has_prefix (c ∷ s) sep) [
  | true ↦ [] ∷ split_from (length sep - 1) s sep
  | false ↦ push c (split_from 0 s sep)
]

unfoldable pub split : Bytes → Bytes → List Bytes
unfolding split_from has_prefix
split s sep = split_from 0 s sep

unfoldable pub join : List Bytes → Bytes → Bytes
join [] sep = []
join (p ∷ []) sep = p
join (p ∷ q ∷ ps) sep = p ++ (sep ++ join (q ∷ ps) sep)

skip : (t s sep : Bytes) → split_from (length t) (t ++ s) sep ≡ split_from 0 s sep
unfolding split_from
skip [] s sep = refl
skip (c ∷ t) s sep = skip t s sep

-- A text with no separator is its own only part.
pub split_alone : (s sep : Bytes) → contains s sep ≡ false → split s sep ≡ s ∷ []
unfolding split contains
split_alone [] sep h = refl
split_alone (c ∷ s) sep h = ground (arith, split_alone s sep)

-- A part that lacks the separator's first byte ends at the first separator.
pub split-append :
    (p : Bytes) (b : ℕ) (t s : Bytes)
    → Lacks b p
    → split (p ++ (b ∷ t ++ s)) (b ∷ t) ≡ p ∷ split s (b ∷ t)
unfolding split
split-append [] b t s _ = ground (arith, has_prefix-append t s, skip t s (b ∷ t))
split-append (c ∷ p) b t s (ne, h) = ground (arith, split-append p b t s h)

pub split-Lacks : (p : Bytes) (b : ℕ) (t : Bytes) → Lacks b p → split p (b ∷ t) ≡ p ∷ []
unfolding split
split-Lacks [] b t _ = refl
split-Lacks (c ∷ p) b t (ne, h) = ground (arith, split-Lacks p b t h)

-- Splitting a join gives the parts back, where no part holds the separator's first byte.
pub split-join :
    (p : Bytes) (ps : List Bytes) (b : ℕ) (t : Bytes)
    → All (Lacks b) (p ∷ ps)
    → split (join (p ∷ ps) (b ∷ t)) (b ∷ t) ≡ p ∷ ps
unfolding join
split-join p [] b t (h, _) = split-Lacks p b t h
split-join p (q ∷ ps) b t (h, hs) =
    split-append p b t (join (q ∷ ps) (b ∷ t)) h ∙ ap (λ r. p ∷ r) (split-join q ps b t hs)

push-cons : (c : ℕ) (l : List Bytes) → (p : Bytes) × (ps : List Bytes) × (push c l ≡ p ∷ ps)
push-cons c [] = (c ∷ [], [], refl)
push-cons c (p ∷ ps) = (c ∷ p, ps, refl)

cut-cons : (k : ℕ) (s sep : Bytes) → (p : Bytes) × (ps : List Bytes) × (split_from k s sep ≡ p ∷ ps)
unfolding split_from
cut-cons k [] sep =
    ([], [], elim k as (λ j. split_from j [] sep ≡ [] ∷ []) [ zero ↦ refl | suc j ↦ refl ])
cut-cons (suc k) (c ∷ s) sep = cut-cons k s sep
cut-cons zero (c ∷ s) sep = elim (Bool-cases (has_prefix (c ∷ s) sep)) [
  | inl cut ↦ ([], split_from (length sep - 1) s sep, rw (cut, split_from))
  | inr stay ↦ let (p, ps, e) = push-cons c (split_from 0 s sep) in (p, ps, rw (stay, split_from) e)
]

-- There is always a first part.
pub split-ne-nil : (s sep : Bytes) → (p : Bytes) × (ps : List Bytes) × (split s sep ≡ p ∷ ps)
unfolding split
split-ne-nil s sep = cut-cons 0 s sep
