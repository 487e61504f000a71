-- ===== src/Bee2/Cgo.antt =====
-- The Go ints of internal/ffi/bee2/wrapper.go and their conversions to C, on 64-bit machines.
use integrity_sum.Base.{
  ℕ, zero, suc, ◌-◌, ◌/◌, ◌%◌, ◌^◌, ◌≤◌, ◌<◌, ◌≡◌, ◌↔◌, refl, ltb, arith, if◌then◌else◌,
}
use integrity_sum.Strings.Decimal.{ℤ, pos, negsuc}

-- A number with the sign changed.
abbrev pub negated : ℕ → ℤ
negated zero = pos 0
negated (suc n) = negsuc n

-- The quotients `/ 2` and `/ 8` of Go, which round to zero.
abbrev pub half : ℤ → ℤ
half (pos n) = pos (n / 2)
half (negsuc n) = negated (suc n / 2)

abbrev pub eighth : ℤ → ℤ
eighth (pos n) = pos (n / 8)
eighth (negsuc n) = negated (suc n / 8)

-- `C.ulong`: 64 bits without a sign.
abbrev pub c_ulong : ℤ → ℕ
c_ulong (pos n) = n % 2 ^ 64
c_ulong (negsuc n) = 2 ^ 64 - 1 - n % 2 ^ 64

-- The value of 32 bits with a sign.
abbrev signed : ℕ → ℤ
signed n = if ltb n (2 ^ 31) then pos n else negsuc (2 ^ 32 - 1 - n)

-- `C.int`
abbrev pub c_int : ℤ → ℤ
c_int (pos n) = signed (n % 2 ^ 32)
c_int (negsuc n) = signed (2 ^ 32 - 1 - n % 2 ^ 32)

-- The values of Go's `int`.
abbrev pub IsInt : ℤ → Type 0
IsInt (pos n) = n < 2 ^ 63
IsInt (negsuc n) = n < 2 ^ 63

-- From -7 to 263.
abbrev pub FitsHash : ℤ → Type 0
FitsHash (pos n) = n < 264
FitsHash (negsuc n) = n < 7

small-negated : (k : ℕ) → k < 2 ^ 63 → c_ulong (negated k) ≤ 32 → k ≡ 0
small-negated zero small h = refl
small-negated (suc k) small h = absurd (omega arith)

-- As an unsigned number, an eighth of an `int` is at most 32 only if this is from -7 to 263: a greater
-- one is more, and a smaller one wraps around.
pub eighth-FitsHash : (i : ℤ) → IsInt i → (c_ulong (eighth i) ≤ 32) ↔ FitsHash i
eighth-FitsHash (pos n) h = (λ le. omega arith, λ lt. omega arith)
eighth-FitsHash (negsuc n) h = (
  λ le. omega (arith, small-negated (suc n / 8) (omega arith) le),
  λ lt. (let none_left : suc n / 8 ≡ 0 = omega arith in rw none_left (omega arith)),
)
