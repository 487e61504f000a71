-- ===== src/Strings/Cutset.antt =====
-- `strings.Trim` with a cutset of one byte.
use integrity_sum.Base.{
  ℕ, ◌≡◌, ◌≢◌, sym, ap, ◌∙◌, [], ◌∷◌, ◌++◌, arith, Bytes, ◌==◌, if◌then◌else◌, append_assoc,
}
use mathlib.Core.List.{reverse, reverse-append, reverse-reverse}

pub trim_left : ℕ → Bytes → Bytes
trim_left b [] = []
trim_left b (c ∷ s) = if c == b then trim_left b s else c ∷ s

unfoldable pub trim : ℕ → Bytes → Bytes
unfolding trim_left
trim b s = reverse (trim_left b (reverse (trim_left b s)))

-- The last byte is there, and is another one.
pub record EndsBeside (b : ℕ) (s : Bytes) : Type 0 where
  pub start : Bytes
  pub last : ℕ
  pub spelled : s ≡ start ++ last ∷ []
  pub beside : last ≢ b

pub EndsBeside-append : (b : ℕ) (p : Bytes) {s : Bytes} → EndsBeside b s → EndsBeside b (p ++ s)
EndsBeside-append b p h = record {
  start = p ++ h.start;
  last = h.last;
  spelled = ap (λ t. p ++ t) h.spelled ∙ sym (append_assoc p h.start (h.last ∷ []));
  beside = h.beside;
}

trim_left_beside : (b c : ℕ) (s : Bytes) → c ≢ b → trim_left b (c ∷ s) ≡ c ∷ s
unfolding trim_left
trim_left_beside b c s h = ground arith

-- Text that neither begins nor ends with the byte is left as it is.
pub trim_beside : (b c : ℕ) (s : Bytes) → c ≢ b → EndsBeside b (c ∷ s) → trim b (c ∷ s) ≡ c ∷ s
unfolding trim
trim_beside b c s hc h =
    let back : reverse (c ∷ s) ≡ h.last ∷ reverse h.start =
      ap reverse h.spelled ∙ reverse-append h.start (h.last ∷ []) in
    ap (λ t. reverse (trim_left b (reverse t))) (trim_left_beside b c s hc)
    ∙ (ap (λ t. reverse (trim_left b t)) back
        ∙ (ap reverse (trim_left_beside b h.last (reverse h.start) h.beside ∙ sym back)
            ∙ reverse-reverse (c ∷ s)))
