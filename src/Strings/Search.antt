-- ===== src/Strings/Search.antt =====
-- `strings.HasPrefix`, `TrimPrefix`, `HasSuffix` and `Contains`.
use integrity_sum.Base.{
  ◌≡◌, refl, Bool, true, false, ◌&&◌, ◌||◌, [], ◌∷◌, ◌++◌, arith, Bytes, length, drop, ◌==◌,
  if◌then◌else◌,
}
use mathlib.Core.List.{reverse}

unfoldable pub has_prefix : Bytes → Bytes → Bool
has_prefix s [] = true
has_prefix [] (b ∷ t) = false
has_prefix (a ∷ s) (b ∷ t) = a == b && has_prefix s t

unfoldable pub trim_prefix : Bytes → Bytes → Bytes
trim_prefix s p = if has_prefix s p then drop (length p) s else s

unfoldable pub has_suffix : Bytes → Bytes → Bool
has_suffix s t = has_prefix (reverse s) (reverse t)

unfoldable pub contains : Bytes → Bytes → Bool
contains [] sep = has_prefix [] sep
contains (c ∷ s) sep = has_prefix (c ∷ s) sep || contains s sep

pub has_prefix-append : (p s : Bytes) → has_prefix (p ++ s) p ≡ true
unfolding has_prefix
has_prefix-append [] s = refl
has_prefix-append (a ∷ p) s = ground (arith, has_prefix-append p s)

pub drop-append : (p s : Bytes) → drop (length p) (p ++ s) ≡ s
drop-append [] s = refl
drop-append (a ∷ p) s = drop-append p s

pub trim_prefix-append : (p s : Bytes) → trim_prefix (p ++ s) p ≡ s
unfolding trim_prefix
trim_prefix-append p s = rw (has_prefix-append p s) (drop-append p s)
