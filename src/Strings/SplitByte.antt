-- ===== src/Strings/SplitByte.antt =====
-- Splitting at a single byte: a split of a concatenation, and a join of a split.
use integrity_sum.Base.{
  ℕ, ◌≡◌, refl, sym, ap, ◌∙◌, List, [], ◌∷◌, ◌++◌, arith, Bytes, ◌==◌, if◌then◌else◌,
}
use integrity_sum.Strings.Split.{push, split, join, split-ne-nil}

module _ (b : ℕ) where
  pub split-nil : split [] (b ∷ []) ≡ [] ∷ []
  unfolding split
  split-nil = refl

  -- One round of the scan.
  pub split_step :
      (c : ℕ) (s : Bytes)
      → split (c ∷ s) (b ∷ [])
        ≡ (if c == b then [] ∷ split s (b ∷ []) else push c (split s (b ∷ [])))
  unfolding split
  split_step c s = ground arith

  push-append :
      (c : ℕ) (s : Bytes) (qs : List Bytes)
      → push c (split s (b ∷ []) ++ qs) ≡ push c (split s (b ∷ [])) ++ qs
  push-append c s qs =
      let (p, ps, e) = split-ne-nil s (b ∷ []) in
      ap (λ l. push c (l ++ qs)) e ∙ sym (ap (λ l. push c l ++ qs) e)

  -- The parts before and behind a separator.
  pub split_at : (p s : Bytes) → split (p ++ b ∷ s) (b ∷ []) ≡ split p (b ∷ []) ++ split s (b ∷ [])
  split_at [] s = ground (arith, split_step b s, split-nil)
  split_at (c ∷ p) s = ground (
    arith,
    split_step c (p ++ b ∷ s),
    split_step c p,
    split_at p s,
    push-append c p (split s (b ∷ [])),
  )

  join-push :
      (c : ℕ) (p : Bytes) (ps : List Bytes)
      → join (push c (p ∷ ps)) (b ∷ []) ≡ c ∷ join (p ∷ ps) (b ∷ [])
  unfolding join
  join-push c p [] = refl
  join-push c p (q ∷ ps) = refl

  join_cons :
      (p q : Bytes) (ps : List Bytes)
      → join (p ∷ q ∷ ps) (b ∷ []) ≡ p ++ (b ∷ join (q ∷ ps) (b ∷ []))
  unfolding join
  join_cons p q ps = refl

  -- Joining the parts gives the text back.
  pub join-split : (s : Bytes) → join (split s (b ∷ [])) (b ∷ []) ≡ s
  join-split [] = rw split-nil (unfold join in refl)
  join-split (c ∷ s) =
      let (p, ps, e) = split-ne-nil s (b ∷ []) in
      ground (arith, split_step c s, e, join-split s, join-push c p ps, join_cons [] p ps)
