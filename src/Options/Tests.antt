-- ===== src/Options/Tests.antt =====
-- The cases of internal/integritymonitor/integritymonitor_test.go, and the parser's theorems at them.
use integrity_sum.Base.{◌≡◌, refl, List, [], ◌∷◌, Option, none, Bytes, codes, arith, All, same}
use integrity_sum.Base.Map.{Map, insert, delete}
use integrity_sum.Base.Result.{ok, err}
use integrity_sum.Strings.Split.{split, join}
use integrity_sum.Strings.Trim.{trim_space}
use integrity_sum.Strings.Cutset.{trim}
use integrity_sum.Strings.Quote.{unquote}
use integrity_sum.Options.{
  options_empty, not_key_value, path_required, paths_of, parse_process, parse_processes,
  parse_monitoring_opts,
}
use integrity_sum.Options.RoundTrip.{
  Entry, IsEntry, IsOptionPath, entries_map, options_text, parse-options_text,
}

-- No text of these tests has an escape.
abbrev no_escape : Bytes → Option Bytes
no_escape s = none

abbrev two_processes : Map (List Bytes)
two_processes =
    (codes "redis", codes "/proc" ∷ codes "/dir3" ∷ [])
    ∷ (codes "nginx", codes "/proc" ∷ codes "/dir1" ∷ [])
    ∷ []

positive :
    parse_monitoring_opts no_escape (codes "nginx=/proc,/dir1 redis=/proc,/dir3") ≡ ok two_processes
unfolding parse_monitoring_opts parse_processes parse_process paths_of split trim trim_space unquote
    insert delete same
positive = refl

in_quotes :
    parse_monitoring_opts no_escape (codes "\"nginx=/proc,/dir1 redis=/proc,/dir3\"")
    ≡ ok two_processes
unfolding parse_monitoring_opts parse_processes parse_process paths_of split trim trim_space unquote
    insert delete same
in_quotes = refl

extra_commas :
    parse_monitoring_opts no_escape (codes "nginx=,/proc,/dir1, redis=,/proc,/dir3,")
    ≡ ok two_processes
unfolding parse_monitoring_opts parse_processes parse_process paths_of split trim trim_space unquote
    insert delete same
extra_commas = refl

refused :
    (parse_monitoring_opts no_escape [] ≡ err options_empty)
    × (parse_monitoring_opts no_escape (codes "nginx=/dir1 redis/dir3") ≡ err not_key_value)
    × (parse_monitoring_opts no_escape (codes "nginx=/dir1, redis=") ≡ err path_required)
unfolding parse_monitoring_opts parse_processes parse_process paths_of split trim trim_space unquote
refused = (refl, refl, refl)

abbrev nginx : Entry
nginx = record { name = codes "nginx"; path = codes "/proc"; more = codes "/dir1" ∷ [] }

abbrev redis : Entry
redis = record { name = codes "redis"; path = codes "/d"; more = [] }

proc_fits : IsOptionPath (codes "/proc")
unfolding trim_space
proc_fits = record {
  not_empty = λ e. cc;
  trimmed = refl;
  no_comma = omega arith;
  no_equals = omega arith;
  no_space = omega arith;
}

dir1_fits : IsOptionPath (codes "/dir1")
unfolding trim_space
dir1_fits = record {
  not_empty = λ e. cc;
  trimmed = refl;
  no_comma = omega arith;
  no_equals = omega arith;
  no_space = omega arith;
}

d_fits : IsOptionPath (codes "/d")
unfolding trim_space
d_fits = record {
  not_empty = λ e. cc;
  trimmed = refl;
  no_comma = omega arith;
  no_equals = omega arith;
  no_space = omega arith;
}

entries_fit : All IsEntry (nginx ∷ redis ∷ [])
entries_fit = (
  record {
    name_no_equals = omega arith;
    name_no_space = omega arith;
    paths_fit = (proc_fits, (dir1_fits, tt));
  },
  (
    record { name_no_equals = omega arith; name_no_space = omega arith; paths_fit = (d_fits, tt) },
    tt,
  ),
)

not_quoted : unquote no_escape (options_text nginx (redis ∷ [])) ≡ none
unfolding unquote join
not_quoted = refl

parse-options_text_example :
    parse_monitoring_opts no_escape (options_text nginx (redis ∷ []))
    ≡ ok (entries_map (nginx ∷ redis ∷ []) [])
parse-options_text_example = parse-options_text no_escape nginx (redis ∷ []) entries_fit not_quoted
