-- ===== src/Options.antt =====
-- `ParseMonitoringOpts` of internal/integritymonitor/integritymonitor.go: the processes to monitor
-- and their paths, `nginx=/dir1,/dir2 redis=/dir3`, from the flag `monitoring-options`.
pub mod Parsed
pub mod RoundTrip
mod Tests
use integrity_sum.Base.{List, [], ◌∷◌, map, Option, none, some, Bytes}
use integrity_sum.Base.Map.{Map, insert}
use integrity_sum.Base.Result.{Result, ok, err, ◌>>=◌}
use integrity_sum.Strings.Split.{split}
use integrity_sum.Strings.Trim.{trim_space}
use integrity_sum.Strings.Cutset.{trim}
use integrity_sum.Strings.Quote.{unquote}

pub data OptsError : Type 0 where
  options_empty not_key_value path_required : OptsError

-- `strings.Split(strings.Trim(procPaths[1], ","), ",")`, each part trimmed
unfoldable pub paths_of : Bytes → List Bytes
paths_of s = map trim_space (split (trim b',' s) (b',' ∷ []))

-- `len(procPaths) < 2`, and `procPaths[1] == ""`
abbrev pub from_key_value : List Bytes → Result OptsError (Bytes × List Bytes)
from_key_value [] = err not_key_value
from_key_value (name ∷ []) = err not_key_value
from_key_value (name ∷ [] ∷ more) = err path_required
from_key_value (name ∷ (c ∷ s) ∷ more) = ok (name, paths_of (c ∷ s))

-- The body of the loop over the processes.
unfoldable pub parse_process : Bytes → Result OptsError (Bytes × List Bytes)
parse_process p = from_key_value (split p (b'=' ∷ []))

unfoldable pub parse_processes : List Bytes → Map (List Bytes) → Result OptsError (Map (List Bytes))
parse_processes [] opts_map = ok opts_map
parse_processes (p ∷ ps) opts_map = do
  entry ← parse_process p
  parse_processes ps (insert entry.0 entry.1 opts_map)

-- `unOpts`: the text between the quotes, or the whole text
abbrev pub unquoted : Option Bytes → Bytes → Bytes
unquoted none opts = opts
unquoted (some s) opts = s

-- `len(processes) < 1`, which a split never gives
abbrev pub from_processes : List Bytes → Result OptsError (Map (List Bytes))
from_processes [] = err options_empty
from_processes (p ∷ ps) = parse_processes (p ∷ ps) []

unfoldable pub parse_monitoring_opts :
    (Bytes → Option Bytes) → Bytes → Result OptsError (Map (List Bytes))
parse_monitoring_opts unescape [] = err options_empty
parse_monitoring_opts unescape (c ∷ opts) =
    from_processes (split (unquoted (unquote unescape (c ∷ opts)) (c ∷ opts)) (b' ' ∷ []))
