-- ===== src/Process/Pid.antt =====
-- The PID is read from what `pidof` prints.
use integrity_sum.Base.{
  ℕ, suc, ◌^◌, ◌<◌, ◌≡◌, ap, sym, ◌∙◌, ◌≢◌, true, List, [], ◌∷◌, ◌++◌, some, Bytes, All, All-append,
  subst, Lacks, arith,
}
use integrity_sum.Base.Result.{ok}
use integrity_sum.Strings.Split.{split, split-append, split-Lacks}
use integrity_sum.Strings.Trim.{trim_space, IsGraph, trim_space-IsGraph, trim_space_newline}
use integrity_sum.Strings.Decimal.{
  pos, format_nat, is_digit, atoi-format_nat, format_nat_head, All-format_nat,
}
use integrity_sum.Process.{get_pid}

digits-IsGraph : (s : Bytes) → All (λ c. is_digit c ≡ true) s → All IsGraph s
digits-IsGraph [] h = tt
digits-IsGraph (c ∷ s) (hc, h) = (ground arith, digits-IsGraph s h)

digits_lack_space : (s : Bytes) → All (λ c. is_digit c ≡ true) s → Lacks b' ' s
digits_lack_space [] h = tt
digits_lack_space (c ∷ s) (hc, h) = (λ e. ground arith, digits_lack_space s h)

-- From the first part on, whatever stands behind it.
get_pid_from :
    (cmd_out p : Bytes) (ps : List Bytes) (n : ℕ)
    → split cmd_out (b' ' ∷ []) ≡ p ∷ ps
    → trim_space p ≡ format_nat (suc n)
    → suc n < 2 ^ 63
    → get_pid (some cmd_out) ≡ ok (pos (suc n))
unfolding get_pid
get_pid_from cmd_out p ps n cut text fits = rw (cut, text, atoi-format_nat (suc n) fits)

-- The first PID of the list is taken, if it fits an `int`: the only one, with the line end behind
-- it, or one with a space and more behind it.
pub get_pid_lem :
    (n : ℕ) (more : Bytes)
    → suc n < 2 ^ 63
    → (get_pid (some (format_nat (suc n) ++ b'\n' ∷ [])) ≡ ok (pos (suc n)))
      × (get_pid (some (format_nat (suc n) ++ (b' ' ∷ more))) ≡ ok (pos (suc n)))
get_pid_lem n more fits =
    let s = format_nat (suc n) in
    let d = All-format_nat (suc n) in
    let (c, t, e, _) = format_nat_head (suc n) in
    (
      get_pid_from _ (s ++ b'\n' ∷ []) [] n
          (split-Lacks (s ++ b'\n' ∷ []) b' ' [] (
            All-append (λ c. c ≢ b' ') s (b'\n' ∷ []) (digits_lack_space s d)
              ((λ x. ground arith), tt)))
          (ap (λ u. trim_space (u ++ b'\n' ∷ [])) e
            ∙ (trim_space_newline c t (subst (All IsGraph) e (digits-IsGraph s d)) ∙ sym e))
          fits,
      get_pid_from _ s (split more (b' ' ∷ [])) n
          (split-append s b' ' [] more (digits_lack_space s d))
          (trim_space-IsGraph s (digits-IsGraph s d)) fits,
    )
