-- ===== src/Process.antt =====
-- internal/utils/process: the PID of a process by the command `pidof`, the path of its root file
-- system (`GetProcessPath` of internal/integritymonitor/integritymonitor.go), and the name of the
-- checksums file of its image.
pub mod Pid
mod Tests
use integrity_sum.Base.{
  ℕ, zero, suc, Bool, true, false, List, [], ◌∷◌, ◌++◌, Option, none, some, Bytes, codes,
  if◌then◌else◌,
}
use integrity_sum.Base.Map.{Map, lookup}
use integrity_sum.Base.Result.{Result, ok, err, ◌>>=◌}
use integrity_sum.Strings.Split.{split}
use integrity_sum.Strings.Trim.{trim_space}
use integrity_sum.Strings.Lower.{to_lower}
use integrity_sum.Strings.Decimal.{ℤ, pos, negsuc, atoi, format_int}

pub data ProcessError : Type 0 where
  process_not_found incorrect_image_name : ProcessError

-- `ss[0]` of a split, which has a first part.
abbrev first : List Bytes → Bytes
first [] = []
first (p ∷ ps) = p

abbrev found : Option ℤ → Result ProcessError ℤ
found none = err process_not_found
found (some (pos n)) = elim n [ zero ↦ err process_not_found | suc m ↦ ok (pos (suc m)) ]
found (some (negsuc n)) = ok (negsuc n)

-- The argument is what `pidof` prints, or `none` if the command fails.
unfoldable pub get_pid : Option Bytes → Result ProcessError ℤ
get_pid none = err process_not_found
get_pid (some cmd_out) = found (atoi (trim_space (first (split cmd_out (b' ' ∷ [])))))

-- `fmt.Sprintf("/proc/%d/root/%s", pid, path)`
unfoldable pub process_path : ℤ → Bytes → Bytes
process_path pid path = codes "/proc/" ++ (format_int pid ++ (codes "/root/" ++ path))

unfoldable pub get_process_path : Option Bytes → Bytes → Result ProcessError Bytes
get_process_path pidof path = do pid ← get_pid pidof; ok (process_path pid path)

-- The loop of `CheckIntegrity` over the monitored directories, where all calls of `pidof` print the same.
unfoldable pub process_paths : Option Bytes → List Bytes → Result ProcessError (List Bytes)
process_paths pidof [] = ok []
process_paths pidof (p ∷ ps) = do
  path ← get_process_path pidof p
  paths ← process_paths pidof ps
  ok (path ∷ paths)

-- `procImage[procName]`: a missing key gives the empty string.
abbrev image_of : Option Bytes → Bytes
image_of none = []
image_of (some image) = image

-- `fmt.Sprintf("%s/%s/%s.%s", ns, parts[0], parts[1], strings.ToLower(alg))`
abbrev pub sum_file : (Bytes → Bytes) → Bytes → Bytes → List Bytes → Result ProcessError Bytes
sum_file unicode_lower ns alg [] = err incorrect_image_name
sum_file unicode_lower ns alg (p ∷ []) = err incorrect_image_name
sum_file unicode_lower ns alg (p ∷ q ∷ ps) =
    ok (ns ++ (b'/' ∷ p ++ (b'/' ∷ q ++ (b'.' ∷ to_lower unicode_lower alg))))

-- The flags `process-image` and `pod-namespace` are arguments.
unfoldable pub check_sum_file :
    (Bytes → Bytes) → Map Bytes → Bytes → Bytes → Bytes → Result ProcessError Bytes
check_sum_file unicode_lower proc_image ns proc_name alg =
    sum_file unicode_lower ns alg (split (image_of (lookup proc_name proc_image)) (b':' ∷ []))
