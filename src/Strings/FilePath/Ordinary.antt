-- ===== src/Strings/FilePath/Ordinary.antt =====
-- A path whose parts are all ordinary names is clean: `Clean` and `Join` leave it alone.
use integrity_sum.Base.{
  ℕ, ◌≡◌, ◌≢◌, refl, sym, subst, ap, ◌∙◌, Bool, false, List, [], ◌∷◌, ◌++◌, arith, Bytes, same_iff,
  All, All-append, append-nil, append_assoc, Bool-cases, inl, inr, ◌==◌, if◌then◌else◌,
}
use integrity_sum.Strings.Split.{push, split, join}
use integrity_sum.Strings.SplitByte.{split_step, split-nil, split_at, join-split}
use integrity_sum.Strings.FilePath.{slash, dot_dot, spell, clean_parts, is_rooted, clean, join_path}
use mathlib.Core.List.{reverse, reverse-append, reverse-reverse}

-- A name that `Clean` keeps.
abbrev pub IsOrdinary : Bytes → Type 0
IsOrdinary p = (p ≢ []) × (p ≢ b'.' ∷ []) × (p ≢ dot_dot)

-- One or more ordinary names, with a slash between.
abbrev pub IsOrdinaryPath : Bytes → Type 0
IsOrdinaryPath s = All IsOrdinary (split s slash)

clean_parts_ordinary :
    (rooted : Bool) (ps kept : List Bytes)
    → All IsOrdinary ps
    → clean_parts rooted ps kept ≡ reverse ps ++ kept
unfolding clean_parts
clean_parts_ordinary rooted [] kept _ = refl
clean_parts_ordinary rooted (p ∷ ps) kept ((h1, h2, h3), hs) = ground (
  arith,
  same_iff p [],
  same_iff p (b'.' ∷ []),
  same_iff p dot_dot,
  clean_parts_ordinary rooted ps (p ∷ kept) hs,
  reverse-append (p ∷ []) ps,
  append_assoc (reverse ps) (p ∷ []) kept,
)

not_rooted : (c : ℕ) (s : Bytes) → IsOrdinaryPath (c ∷ s) → is_rooted (c ∷ s) ≡ false
not_rooted c s h = elim (Bool-cases (c == b'/')) [
  | inl root ↦ absurd (
      (subst (All IsOrdinary)
          (split_step b'/' c s
            ∙ ap (λ t. if t then [] ∷ split s slash else push c (split s slash)) root)
          h).0.0
        refl)
  | inr plain ↦ plain
]

ordinary-ne-nil : (s : Bytes) → IsOrdinaryPath s → s ≢ []
ordinary-ne-nil s h e =
    (subst (All IsOrdinary) (ap (λ t. split t slash) e ∙ split-nil b'/') h).0.0 refl

clean_ordinary : (c : ℕ) (s : Bytes) → IsOrdinaryPath (c ∷ s) → clean (c ∷ s) ≡ c ∷ s
unfolding clean
clean_ordinary c s h =
    let ps = split (c ∷ s) slash in
    let spelled : join (reverse (clean_parts false ps [])) slash ≡ c ∷ s =
      ap (λ l. join (reverse l) slash)
        (clean_parts_ordinary false ps [] h ∙ append-nil (reverse ps))
      ∙ (ap (λ l. join l slash) (reverse-reverse ps) ∙ join-split b'/' (c ∷ s)) in
    ap (λ r. spell r (join (reverse (clean_parts r ps [])) slash)) (not_rooted c s h)
    ∙ ap (spell false) spelled

IsOrdinaryPath-append :
    (s t : Bytes) → IsOrdinaryPath s → IsOrdinaryPath t → IsOrdinaryPath (s ++ b'/' ∷ t)
IsOrdinaryPath-append s t hs ht =
    subst (All IsOrdinary) (sym (split_at b'/' s t))
      (All-append IsOrdinary (split s slash) (split t slash) hs ht)

-- Joining three ordinary paths puts slashes between them, and changes nothing else.
pub join_path_ordinary :
    (p q r : Bytes)
    → IsOrdinaryPath p
    → IsOrdinaryPath q
    → IsOrdinaryPath r
    → join_path (p ∷ q ∷ r ∷ []) ≡ p ++ (slash ++ (q ++ (slash ++ r)))
unfolding join_path join
join_path_ordinary [] q r hp hq hr = absurd (ordinary-ne-nil [] hp refl)
join_path_ordinary (c ∷ p) q r hp hq hr =
    clean_ordinary c (p ++ b'/' ∷ (q ++ b'/' ∷ r))
      (IsOrdinaryPath-append (c ∷ p) (q ++ b'/' ∷ r) hp (IsOrdinaryPath-append q r hq hr))
