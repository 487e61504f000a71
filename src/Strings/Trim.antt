-- ===== src/Strings/Trim.antt =====
-- `strings.TrimSpace` and `strings.Trim`. White space is Unicode's, recognised by its UTF-8 bytes:
-- U+0009 to U+000D, U+0020, U+0085, U+00A0, U+1680, U+2000 to U+200A, U+2028, U+2029, U+202F,
-- U+205F and U+3000. Bytes that are no valid encoding are not space.
use integrity_sum.Base.{
  ℕ, ◌≡◌, refl, sym, ap, ◌∙◌, Bool, true, ◌&&◌, ◌||◌, [], ◌∷◌, ◌++◌, arith, Bytes, All, All-append,
  subst, ◌==◌, leb, if◌then◌else◌,
}
use mathlib.Core.List.{reverse, reverse-append, reverse-reverse}

abbrev pub space1 : ℕ → Bool
space1 a = leb 9 a && leb a 13 || a == 32

abbrev pub space2 : ℕ → ℕ → Bool
space2 a b = a == 0xc2 && (b == 0x85 || b == 0xa0)

abbrev pub space3 : ℕ → ℕ → ℕ → Bool
space3 a b c =
    a == 0xe1 && b == 0x9a && c == 0x80
    || (a == 0xe2 && b == 0x80 && (leb 0x80 c && leb c 0x8a || c == 0xa8 || c == 0xa9 || c == 0xaf)
        || (a == 0xe2 && b == 0x81 && c == 0x9f || a == 0xe3 && b == 0x80 && c == 0x80))

-- How many bytes of white space stand at the front, for tests on one, two and three bytes.
module _ (s1 : ℕ → Bool) (s2 : ℕ → ℕ → Bool) (s3 : ℕ → ℕ → ℕ → Bool) where
  pub trim_front : Bytes → Bytes
  trim_front [] = []
  trim_front (a ∷ []) = if s1 a then [] else a ∷ []
  trim_front (a ∷ b ∷ []) =
      let rest = trim_front (b ∷ []) in if s1 a then rest else if s2 a b then [] else a ∷ b ∷ []
  trim_front (a ∷ b ∷ c ∷ s) =
      let rest1 = trim_front (b ∷ c ∷ s) in
      let rest2 = trim_front (c ∷ s) in
      let rest3 = trim_front s in
      if s1 a then rest1 else if s2 a b then rest2 else if s3 a b c then rest3 else a ∷ b ∷ c ∷ s

pub trim_left_space : Bytes → Bytes
unfolding trim_front
trim_left_space = trim_front space1 space2 space3

-- The encodings read from the end.
pub trim_right_space : Bytes → Bytes
unfolding trim_front
trim_right_space s =
    reverse (trim_front space1 (λ b a. space2 a b) (λ c b a. space3 a b c) (reverse s))

unfoldable pub trim_space : Bytes → Bytes
unfolding trim_left_space trim_right_space
trim_space s = trim_right_space (trim_left_space s)

-- A printable ASCII byte: no encoding of white space holds one, at either end.
abbrev pub IsGraph : ℕ → Type 0
IsGraph c = (leb 33 c && leb c 126) ≡ true

trim_front_graph_left : (c : ℕ) (s : Bytes) → IsGraph c → trim_left_space (c ∷ s) ≡ c ∷ s
unfolding trim_left_space
trim_front_graph_left c [] h = ground arith
trim_front_graph_left c (d ∷ []) h = ground arith
trim_front_graph_left c (d ∷ e ∷ s) h = ground arith

trim_front_graph_right :
    (c : ℕ) (s : Bytes)
    → IsGraph c
    → trim_front space1 (λ b a. space2 a b) (λ c b a. space3 a b c) (c ∷ s) ≡ c ∷ s
unfolding trim_front
trim_front_graph_right c [] h = ground arith
trim_front_graph_right c (d ∷ []) h = ground arith
trim_front_graph_right c (d ∷ e ∷ s) h = ground arith

pub trim_right_graph :
    (s : Bytes) (d : ℕ) → IsGraph d → trim_right_space (s ++ d ∷ []) ≡ s ++ d ∷ []
unfolding trim_right_space
trim_right_graph s d h =
    let back = reverse-append s (d ∷ []) in
    ap (λ t. reverse (trim_front space1 (λ b a. space2 a b) (λ c b a. space3 a b c) t)) back
    ∙ (ap reverse (trim_front_graph_right d (reverse s) h ∙ sym back)
        ∙ reverse-reverse (s ++ d ∷ []))

-- Text between two printable bytes is left as it is.
pub trim_space_graph :
    (c : ℕ) (s : Bytes) (d : ℕ)
    → IsGraph c
    → IsGraph d
    → trim_space (c ∷ s ++ d ∷ []) ≡ c ∷ s ++ d ∷ []
unfolding trim_space
trim_space_graph c s d hc hd =
    rw (trim_front_graph_left c (s ++ d ∷ []) hc) (trim_right_graph (c ∷ s) d hd)

pub trim_space_one : (c : ℕ) → IsGraph c → trim_space (c ∷ []) ≡ c ∷ []
unfolding trim_space
trim_space_one c h = rw (trim_front_graph_left c [] h) (trim_right_graph [] c h)

All-reverse : (s : Bytes) → All IsGraph s → All IsGraph (reverse s)
All-reverse [] h = tt
All-reverse (c ∷ s) (hc, h) =
    subst (All IsGraph) (sym (reverse-append (c ∷ []) s))
      (All-append IsGraph (reverse s) (c ∷ []) (All-reverse s h) (hc, tt))

trim_front-IsGraph :
    (s : Bytes)
    → All IsGraph s
    → trim_front space1 (λ b a. space2 a b) (λ c b a. space3 a b c) s ≡ s
unfolding trim_front
trim_front-IsGraph [] h = refl
trim_front-IsGraph (c ∷ s) (hc, h) = trim_front_graph_right c s hc

trim_left_space-IsGraph : (s : Bytes) → All IsGraph s → trim_left_space s ≡ s
unfolding trim_left_space
trim_left_space-IsGraph [] h = refl
trim_left_space-IsGraph (c ∷ s) (hc, h) = trim_front_graph_left c s hc

-- Text of printable bytes is left as it is.
pub trim_space-IsGraph : (s : Bytes) → All IsGraph s → trim_space s ≡ s
unfolding trim_space trim_right_space
trim_space-IsGraph s h =
    rw (trim_left_space-IsGraph s h)
      (ap reverse (trim_front-IsGraph (reverse s) (All-reverse s h)) ∙ reverse-reverse s)

trim_front_newline :
    (t : Bytes)
    → trim_front space1 (λ b a. space2 a b) (λ c b a. space3 a b c) (b'\n' ∷ t)
      ≡ trim_front space1 (λ b a. space2 a b) (λ c b a. space3 a b c) t
unfolding trim_front
trim_front_newline [] = refl
trim_front_newline (b ∷ []) = refl
trim_front_newline (b ∷ c ∷ s) = refl

trim_right_newline : (s : Bytes) → All IsGraph s → trim_right_space (s ++ b'\n' ∷ []) ≡ s
unfolding trim_right_space
trim_right_newline s h =
    ap (λ t. reverse (trim_front space1 (λ b a. space2 a b) (λ c b a. space3 a b c) t))
      (reverse-append s (b'\n' ∷ []))
    ∙ (ap reverse
          (trim_front_newline (reverse s) ∙ trim_front-IsGraph (reverse s) (All-reverse s h))
        ∙ reverse-reverse s)

-- A line end behind printable text is trimmed.
pub trim_space_newline :
    (c : ℕ) (s : Bytes) → All IsGraph (c ∷ s) → trim_space ((c ∷ s) ++ b'\n' ∷ []) ≡ c ∷ s
unfolding trim_space
trim_space_newline c s h =
    rw (trim_front_graph_left c (s ++ b'\n' ∷ []) h.0) (trim_right_newline (c ∷ s) h)
