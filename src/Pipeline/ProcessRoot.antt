-- ===== src/Pipeline/ProcessRoot.antt =====
-- The path `/proc/<pid>/root/` of `GetProcessPath` as a root, and the directories below it.
use integrity_sum.Base.{
  ◌≡◌, refl, sym, suc, subst, ap, ◌∙◌, true, List, [], ◌∷◌, ◌++◌, map, Option, Bytes, All, codes,
  Lacks, arith, append_assoc,
}
use integrity_sum.Base.Result.{ok, >>=-eq-ok}
use integrity_sum.Strings.Split.{join}
use integrity_sum.Strings.FilePath.{slash}
use integrity_sum.Strings.FilePath.Names.{IsName, plain-IsName}
use integrity_sum.Strings.Decimal.{
  ℤ, pos, negsuc, is_digit, format_nat, format_int, format_nat_head, All-format_nat,
}
use integrity_sum.Process.{get_pid, process_path, get_process_path, process_paths}
use integrity_sum.Walker.Paths.{Root}

digits_lack_slash : (s : Bytes) → All (λ c. is_digit c ≡ true) s → Lacks b'/' s
digits_lack_slash [] h = tt
digits_lack_slash (c ∷ s) (hc, h) = (λ e. ground arith, digits_lack_slash s h)

format_int-IsName : (pid : ℤ) → IsName (format_int pid)
unfolding format_int
format_int-IsName (pos n) =
    let (c, t, e, d) = format_nat_head n in
    subst IsName (sym e) (
      plain-IsName c t (λ x. ground arith)
        (subst (Lacks b'/') e (digits_lack_slash (format_nat n) (All-format_nat n))))
format_int-IsName (negsuc n) =
    plain-IsName b'-' (format_nat (suc n)) (λ x. ground arith)
      (λ x. ground arith, digits_lack_slash (format_nat (suc n)) (All-format_nat (suc n)))

process_path-Root : (pid : ℤ) → Root (process_path pid [])
unfolding process_path join
process_path-Root pid = record {
  rooted = true;
  first = codes "proc";
  rest = format_int pid ∷ codes "root" ∷ [];
  are_names = (
    plain-IsName b'p' (codes "roc") (λ x. ground arith) (omega arith),
    (
      format_int-IsName pid,
      (plain-IsName b'r' (codes "oot") (λ x. ground arith) (omega arith), tt),
    ),
  );
  form =
      ap (λ x. b'/' ∷ codes "proc/" ++ x)
        (sym (append_assoc (format_int pid) (codes "/root") slash));
}

pub get_process_path-Root :
    (pidof : Option Bytes) (proc_dirs : Bytes)
    → get_process_path pidof [] ≡ ok proc_dirs
    → Root proc_dirs
unfolding get_process_path
get_process_path-Root pidof proc_dirs h =
    let (pid, _, path) = >>=-eq-ok (get_pid pidof) (λ pid. ok (process_path pid [])) h in
    subst Root (cc) (process_path-Root pid)

process_path-append : (pid : ℤ) (v : Bytes) → process_path pid v ≡ process_path pid [] ++ v
unfolding process_path
process_path-append pid v =
    ap (λ x. codes "/proc/" ++ x) (sym (append_assoc (format_int pid) (codes "/root/") v))

get_process_path-append :
    (pidof : Option Bytes) (proc_dirs v : Bytes)
    → get_process_path pidof [] ≡ ok proc_dirs
    → get_process_path pidof v ≡ ok (proc_dirs ++ v)
unfolding get_process_path
get_process_path-append pidof proc_dirs v h =
    let (pid, found, root) = >>=-eq-ok (get_pid pidof) (λ pid. ok (process_path pid [])) h in
    rw found (ap ok (process_path-append pid v ∙ ap (λ x. x ++ v) (cc)))

-- The monitored directories stand below that root.
pub process_paths-map :
    (pidof : Option Bytes) (proc_dirs : Bytes) (dirs : List Bytes)
    → get_process_path pidof [] ≡ ok proc_dirs
    → process_paths pidof dirs ≡ ok (map (λ v. proc_dirs ++ v) dirs)
unfolding process_paths
process_paths-map pidof proc_dirs [] h = refl
process_paths-map pidof proc_dirs (v ∷ vs) h =
    rw (get_process_path-append pidof proc_dirs v h, process_paths-map pidof proc_dirs vs h) refl
