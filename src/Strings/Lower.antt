-- ===== src/Strings/Lower.antt =====
-- `strings.ToLower`. Its fast path for ASCII text is written out; the rest, which goes by Unicode's
-- tables, is the parameter `unicode_lower`.
use integrity_sum.Base.{
  ℕ, ◌+◌, ◌≡◌, refl, Bool, true, ◌&&◌, [], ◌∷◌, map, arith, Bytes, all, ltb, leb, if◌then◌else◌,
}

unfoldable pub lower_byte : ℕ → ℕ
lower_byte c = if leb b'A' c && leb c b'Z' then c + 32 else c

abbrev pub is_ascii : Bytes → Bool
is_ascii = all (λ c. ltb c 128)

unfoldable pub to_lower : (Bytes → Bytes) → Bytes → Bytes
unfolding lower_byte
to_lower unicode_lower s = if is_ascii s then map lower_byte s else unicode_lower s

lower_byte_idem : (c : ℕ) → lower_byte (lower_byte c) ≡ lower_byte c
unfolding lower_byte
lower_byte_idem c = ground arith

map-lower_byte_idem : (s : Bytes) → map lower_byte (map lower_byte s) ≡ map lower_byte s
map-lower_byte_idem [] = refl
map-lower_byte_idem (c ∷ s) = cc (lower_byte_idem c, map-lower_byte_idem s)

is_ascii-lower : (s : Bytes) → is_ascii s ≡ true → is_ascii (map lower_byte s) ≡ true
unfolding lower_byte
is_ascii-lower [] h = refl
is_ascii-lower (c ∷ s) h = ground (arith, is_ascii-lower s)

pub to_lower_idem :
    (unicode_lower : Bytes → Bytes) (s : Bytes)
    → is_ascii s ≡ true
    → to_lower unicode_lower (to_lower unicode_lower s) ≡ to_lower unicode_lower s
unfolding to_lower
to_lower_idem unicode_lower s h = ground (arith, is_ascii-lower s, map-lower_byte_idem s)
