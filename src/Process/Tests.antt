-- ===== src/Process/Tests.antt =====
-- PIDs and paths as `pidof` prints them.
use integrity_sum.Base.{◌≡◌, refl, none, some, codes}
use integrity_sum.Base.Result.{ok, err}
use integrity_sum.Strings.Split.{split}
use integrity_sum.Strings.Trim.{trim_space}
use integrity_sum.Strings.Decimal.{atoi, format_nat, format_int}
use integrity_sum.Process.{process_not_found, get_pid, process_path, get_process_path}

no_process : get_pid none ≡ err process_not_found
unfolding get_pid
no_process = refl

zero_is_refused : get_pid (some (codes "0\n")) ≡ err process_not_found
unfolding get_pid split trim_space atoi
zero_is_refused = refl

path_of_process :
    get_process_path (some (codes "42 43\n")) (codes "/etc") ≡ ok (codes "/proc/42/root//etc")
unfolding get_process_path get_pid process_path split trim_space atoi format_int format_nat
path_of_process = refl
