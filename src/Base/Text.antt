-- ===== src/Base/Text.antt =====
-- Go strings: a string is the list of its bytes. `same` is Go's `==` on strings.
use Prim.Native.Nat.{ℕ}
use Prim.Native.Char.{code}
use Prim.Native.String.{String}
use mathlib.Core.Path.{◌≡◌, refl}
use mathlib.Core.Logic.{◌↔◌, ◌≢◌}
use mathlib.Core.Bool.{Bool, true, false, ◌&&◌}
use mathlib.Core.List.{List, [], ◌∷◌}
use native.Mathlib.Omega.{arith}
use integrity_sum.Base.Tests.{◌==◌}
use integrity_sum.Base.Lists.{All}

abbrev pub Bytes : Type 0
Bytes = List ℕ

-- The code points of a literal: its bytes, since the literals of the model are ASCII.
abbrev pub codes : String → Bytes
codes String.[] = []
codes (String.◌∷◌ c s) = code c ∷ codes s

unfoldable pub same : Bytes → Bytes → Bool
same [] [] = true
same [] (b ∷ t) = false
same (a ∷ s) [] = false
same (a ∷ s) (b ∷ t) = a == b && same s t

same_sound : (s t : Bytes) → same s t ≡ true → s ≡ t
unfolding same
same_sound [] [] h = refl
same_sound [] (b ∷ t) h = cc
same_sound (a ∷ s) [] h = cc
same_sound (a ∷ s) (b ∷ t) h = ground (arith, same_sound s t)

pub same_refl : (s : Bytes) → same s s ≡ true
unfolding same
same_refl [] = refl
same_refl (a ∷ s) = ground (arith, same_refl s)

pub same_iff : (s t : Bytes) → (same s t ≡ true) ↔ (s ≡ t)
same_iff s t = (same_sound s t, λ e. rw e (same_refl t))

-- No byte of the string is `b`.
abbrev pub Lacks : ℕ → Bytes → Type 0
Lacks b = All (λ c. c ≢ b)
