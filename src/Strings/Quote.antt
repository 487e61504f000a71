-- ===== src/Strings/Quote.antt =====
-- `strconv.Unquote`. Quoted text with escapes, line breaks or bytes beyond ASCII goes through Go's
-- decoder of escapes, which is the parameter `unescape`; all other text is handled here.
use integrity_sum.Base.{
  ℕ, ◌≡◌, refl, Bool, true, false, not, ◌&&◌, ◌||◌, [], ◌∷◌, Option, none, some, arith, Bytes, all,
  ◌==◌, if◌then◌else◌,
}
use integrity_sum.Strings.Lower.{is_ascii}

-- What stands before and behind the first `q`.
pub cut_at : ℕ → Bytes → Option (Bytes × Bytes)
cut_at q [] = none
cut_at q (c ∷ s) =
    let rest : Option (Bytes × Bytes) = elim (cut_at q s) [
      | none ↦ none
      | some (body, rem) ↦ some (c ∷ body, rem)
    ] in
    if c == q then some ([], s) else rest

without_cr : Bytes → Bytes
without_cr [] = []
without_cr (c ∷ s) = let rest = without_cr s in if c == b'\r' then rest else c ∷ rest

-- Nothing may stand behind the closing quote.
abbrev closed : Bytes → Bytes → Option Bytes
closed body [] = some body
closed body (c ∷ rem) = none

abbrev is_plain : Bytes → Bool
is_plain body = is_ascii body && all (λ c. not (c == b'\\') && not (c == b'\n')) body

abbrev is_single : Bytes → Bool
is_single (c ∷ []) = true
is_single _ = false

quoted : (Bytes → Option Bytes) → ℕ → Bytes → Option (Bytes × Bytes) → Option Bytes
unfolding without_cr
quoted unescape q s none = none
quoted unescape q s (some (body, rem)) =
    if q == b'`'
    then closed (without_cr body) rem
    else if q == b'"'
    then (if is_plain body then closed body rem else unescape s)
    else if q == b'\''
    then (if is_plain body && is_single body then closed body rem else unescape s)
    else none

unfoldable pub unquote : (Bytes → Option Bytes) → Bytes → Option Bytes
unfolding cut_at quoted
unquote unescape [] = none
unquote unescape (q ∷ s) = quoted unescape q (q ∷ s) (cut_at q s)

-- The bytes that can open quoted text.
abbrev pub is_quote : ℕ → Bool
is_quote q = q == b'`' || q == b'"' || q == b'\''

quoted_plain :
    (unescape : Bytes → Option Bytes) (q : ℕ) (s : Bytes) (cut : Option (Bytes × Bytes))
    → is_quote q ≡ false
    → quoted unescape q s cut ≡ none
unfolding quoted
quoted_plain unescape q s none h = refl
quoted_plain unescape q s (some (body, rem)) h = ground arith

-- Text that does not begin with a quote is no quoted text.
pub unquote_plain :
    (unescape : Bytes → Option Bytes) (q : ℕ) (s : Bytes)
    → is_quote q ≡ false
    → unquote unescape (q ∷ s) ≡ none
unfolding unquote
unquote_plain unescape q s h = quoted_plain unescape q (q ∷ s) (cut_at q s) h
