-- ===== src/Strings/Decimal.antt =====
-- `strconv.Atoi` on 64-bit machines, and `%d`. `negsuc n` is -(n + 1).
use integrity_sum.Base.{
  ℕ, zero, suc, ◌+◌, ◌-◌, ◌*◌, ◌/◌, ◌%◌, ◌^◌, ◌<◌, ◌≡◌, sym, ap, ◌∙◌, Bool, true, ◌&&◌, [], ◌∷◌,
  Option, none, some, arith, Bytes, All, ltb, leb, ◌==◌, if◌then◌else◌, Bool-cases, inl, inr,
}

pub data ℤ : Type 0 where
  pos : ℕ → ℤ
  negsuc : ℕ → ℤ

abbrev pub is_digit : ℕ → Bool
is_digit c = leb b'0' c && leb c b'9'

-- The number that the digits spell behind `n`; `none` at any other byte.
pub digits_value : Bytes → ℕ → Option ℕ
digits_value [] n = some n
digits_value (c ∷ s) n =
    let rest = digits_value s (n * 10 + (c - b'0')) in if is_digit c then rest else none

-- At least one digit.
abbrev pub unsigned : Bytes → Option ℕ
unsigned [] = none
unsigned (c ∷ s) = digits_value (c ∷ s) 0

abbrev positive : Option ℕ → Option ℤ
positive none = none
positive (some n) = if ltb n (2 ^ 63) then some (pos n) else none

abbrev negative : Option ℕ → Option ℤ
negative none = none
negative (some n) =
    if n == 0 then some (pos 0) else if leb n (2 ^ 63) then some (negsuc (n - 1)) else none

unfoldable pub atoi : Bytes → Option ℤ
unfolding digits_value
atoi [] = none
atoi (c ∷ s) =
    if c == b'-'
    then negative (unsigned s)
    else if c == b'+'
    then positive (unsigned s)
    else positive (unsigned (c ∷ s))

-- The digits of `n` in front of `out`; the fuel is more than `n`, and a step divides `n` by ten.
pub digits : ℕ → ℕ → Bytes → Bytes
digits zero n out = out
digits (suc f) n out =
    let rest = digits f (n / 10) ((b'0' + n % 10) ∷ out) in
    if ltb n 10 then (b'0' + n) ∷ out else rest

unfoldable pub format_nat : ℕ → Bytes
unfolding digits
format_nat n = digits (suc n) n []

-- `%d`
unfoldable pub format_int : ℤ → Bytes
format_int (pos n) = format_nat n
format_int (negsuc n) = b'-' ∷ format_nat (suc n)

value-digits :
    (f n : ℕ) (out : Bytes) → n < f → digits_value (digits f n out) 0 ≡ digits_value out n
unfolding digits digits_value
value-digits zero n out h = absurd (omega arith)
value-digits (suc f) n out h = ground (arith, value-digits f (n / 10) ((b'0' + n % 10) ∷ out))

value-format_nat : (n : ℕ) → digits_value (format_nat n) 0 ≡ some n
unfolding format_nat digits_value
value-format_nat n = value-digits (suc n) n [] (omega arith)

-- The first byte of a decimal is a digit.
digits_head :
    (f n : ℕ) (out : Bytes)
    → n < f
    → (c : ℕ) × (s : Bytes) × (digits f n out ≡ c ∷ s) × (is_digit c ≡ true)
unfolding digits
digits_head zero n out h = absurd (omega arith)
digits_head (suc f) n out h = elim (Bool-cases (ltb n 10)) [
  | inl low ↦ (b'0' + n, out, rw low, ground arith)
  | inr high ↦
      let (c, s, e, d) = digits_head f (n / 10) ((b'0' + n % 10) ∷ out) (ground arith) in
      (c, s, rw high e, d)
]

atoi_digits :
    (c : ℕ) (s : Bytes) (n : ℕ)
    → is_digit c ≡ true
    → digits_value (c ∷ s) 0 ≡ some n
    → n < 2 ^ 63
    → atoi (c ∷ s) ≡ some (pos n)
unfolding atoi
atoi_digits c s n d v h = ground arith

pub format_nat_head : (n : ℕ) → (c : ℕ) × (s : Bytes) × (format_nat n ≡ c ∷ s) × (is_digit c ≡ true)
unfolding format_nat
format_nat_head n = digits_head (suc n) n [] (omega arith)

-- A decimal in the range of `int` is read back.
pub atoi-format_nat : (n : ℕ) → n < 2 ^ 63 → atoi (format_nat n) ≡ some (pos n)
atoi-format_nat n h =
    let (c, s, e, d) = format_nat_head n in
    ap atoi e ∙ atoi_digits c s n d (ap (λ t. digits_value t 0) (sym e) ∙ value-format_nat n) h

All-digits :
    (f n : ℕ) (out : Bytes)
    → All (λ c. is_digit c ≡ true) out
    → All (λ c. is_digit c ≡ true) (digits f n out)
unfolding digits
All-digits zero n out h = h
All-digits (suc f) n out h = elim (Bool-cases (ltb n 10)) [
  | inl low ↦ rw low (ground arith, h)
  | inr high ↦ rw high (All-digits f (n / 10) ((b'0' + n % 10) ∷ out) (ground arith, h))
]

pub All-format_nat : (n : ℕ) → All (λ c. is_digit c ≡ true) (format_nat n)
unfolding format_nat
All-format_nat n = All-digits (suc n) n [] tt
