-- ===== src/Snapshot/Tool.antt =====
-- cmd/snapshot/main.go: the program that writes a snapshot.
use integrity_sum.Base.{◌≡◌, true, [], ◌∷◌, Option, none, some, Bytes, codes, arith}
use integrity_sum.Configs.{FlagSet, text, strings, duration, init_log}
use integrity_sum.Snapshot.{
  Host, SnapshotError, collect, write_as_plain_text, calculate_and_write_hashes,
}

-- `initConfig`: the flags and their defaults.
abbrev pub flags : FlagSet
flags =
    (codes "dir", strings [])
    ∷ (codes "root-fs", text (codes "./"))
    ∷ (codes "out", text (codes "out.txt"))
    ∷ (codes "scan-dir-timeout", duration 30)
    ∷ []

-- What a run of the program leaves: the log level, the output file, and the error that was logged.
-- The exit status is 0 in every case.
pub record Ended (Level : Type 0) : Type 0 where
  pub level : Level
  pub out : Option Bytes
  pub logged : Option SnapshotError

-- `main`, with the flags parsed
pub main :
    {Level E : Type 0}
    → Level
    → (Bytes → Level × Option E)
    → Bytes
    → Host
    → Option Bytes
    → Ended Level
main info_level parse_level v_level h before =
    let r = calculate_and_write_hashes h before in
    record { level = init_log info_level parse_level v_level; out = r.0; logged = r.1 }

-- Without directories, which is the default, the program writes an empty file and logs no error.
no_dirs_empty_file :
    {Level E : Type 0} (info_level : Level) (parse_level : Bytes → Level × Option E)
    (v_level : Bytes) (h : Host) (before : Option Bytes)
    → h.can_create ≡ true
    → h.dirs ≡ []
    → ((main info_level parse_level v_level h before).out ≡ some [])
      × ((main info_level parse_level v_level h before).logged ≡ none)
unfolding main calculate_and_write_hashes collect write_as_plain_text
no_dirs_empty_file info_level parse_level v_level h before can no_dirs =
    ground (arith, can, no_dirs)
