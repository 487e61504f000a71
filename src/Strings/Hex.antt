-- ===== src/Strings/Hex.antt =====
-- `hex.EncodeToString`: two lower-case digits for a byte.
use integrity_sum.Base.{
  ℕ, ◌+◌, ◌-◌, ◌/◌, ◌%◌, ◌<◌, ◌≡◌, refl, ap₂, true, ◌&&◌, ◌||◌, [], ◌∷◌, Bytes, All, leb, ltb,
  arith, if◌then◌else◌,
}

unfoldable pub hex_digit : ℕ → ℕ
hex_digit n = if ltb n 10 then b'0' + n else b'a' + (n - 10)

unfoldable pub encode_to_string : Bytes → Bytes
unfolding hex_digit
encode_to_string [] = []
encode_to_string (c ∷ s) = hex_digit (c / 16) ∷ hex_digit (c % 16) ∷ encode_to_string s

-- `0` to `9` and `a` to `f`
abbrev pub IsHexDigit : ℕ → Type 0
IsHexDigit c = (leb b'0' c && leb c b'9' || leb b'a' c && leb c b'f') ≡ true

abbrev pub IsByte : ℕ → Type 0
IsByte c = c < 256

hex_digit-IsHexDigit : (n : ℕ) → n < 16 → IsHexDigit (hex_digit n)
unfolding hex_digit
hex_digit-IsHexDigit n h = ground arith

pub encode_to_string-IsHexDigit : (s : Bytes) → All IsByte s → All IsHexDigit (encode_to_string s)
unfolding encode_to_string
encode_to_string-IsHexDigit [] h = tt
encode_to_string-IsHexDigit (c ∷ s) (hc, h) = (
  hex_digit-IsHexDigit (c / 16) (omega arith),
  (hex_digit-IsHexDigit (c % 16) (omega arith), encode_to_string-IsHexDigit s h),
)

hex_digit_inj : (m n : ℕ) → m < 16 → n < 16 → hex_digit m ≡ hex_digit n → m ≡ n
unfolding hex_digit
hex_digit_inj m n hm hn e = ground arith

byte_inj :
    (c d : ℕ)
    → IsByte c
    → IsByte d
    → hex_digit (c / 16) ≡ hex_digit (d / 16)
    → hex_digit (c % 16) ≡ hex_digit (d % 16)
    → c ≡ d
byte_inj c d hc hd high low =
    let same_high = hex_digit_inj (c / 16) (d / 16) (omega arith) (omega arith) high in
    let same_low = hex_digit_inj (c % 16) (d % 16) (omega arith) (omega arith) low in omega arith

pub encode_to_string_inj :
    (s t : Bytes) → All IsByte s → All IsByte t → encode_to_string s ≡ encode_to_string t → s ≡ t
unfolding encode_to_string
encode_to_string_inj [] [] hs ht e = refl
encode_to_string_inj [] (d ∷ t) hs ht e = cc
encode_to_string_inj (c ∷ s) [] hs ht e = cc
encode_to_string_inj (c ∷ s) (d ∷ t) (hc, hs) (hd, ht) e =
    ap₂ (λ x xs. x ∷ xs) (byte_inj c d hc hd (ground (arith)) (ground (arith)))
      (encode_to_string_inj s t hs ht (ground arith))
