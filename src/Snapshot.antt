-- ===== src/Snapshot.antt =====
-- internal/integritymonitor/snapshot.go: hashes of directories, written as a checksums file.
-- The scan of a directory (the worker pool over the walker) is a parameter: the files that it sends,
-- in the order in which they arrive.
pub mod RoundTrip
pub mod Output
pub mod OneDirectory
pub mod DottedRoot
pub mod Tool
pub mod Tests
use integrity_sum.Base.{
  ℕ, Bool, true, false, List, [], ◌∷◌, ◌++◌, map, Option, none, some, Bytes, codes, if◌then◌else◌,
  take,
}
use integrity_sum.Strings.Search.{trim_prefix}
use integrity_sum.Worker.{FileHash}
use integrity_sum.Checksums.{separator}

-- `v.Hash + separator + v.Path`
abbrev pub record_text : FileHash → Bytes
record_text v = v.hash ++ (separator ++ v.path)

pub data SnapshotError : Type 0 where
  create_failed write_failed : SnapshotError
  not_exist : Bytes → SnapshotError

pub data Stat : Type 0 where
  exists missing other_error : Stat

-- What the program meets outside: the configuration, and the answers of the operating system.
pub record Host : Type 0 where
  pub root_fs : Bytes
  pub dirs : List Bytes
  pub can_create : Bool
  pub stat : Bytes → Stat
  -- whether a write of the second text succeeds when the file holds the first
  pub accepts : Bytes → Bytes → Bool
  -- how many bytes of the second text a write that fails has put behind the first
  pub partly : Bytes → Bytes → ℕ
  -- whether `os.Remove` takes the output file away; its error is ignored
  pub can_remove : Bool
  -- what the worker pool sends for the directory
  pub scan : Bytes → List FileHash

module _ (accepts : Bytes → Bytes → Bool) (partly : Bytes → Bytes → ℕ) where
  -- What the file holds afterwards, and whether all was written.
  pub write_as_plain_text : Bytes → List FileHash → Bytes × Option SnapshotError
  write_as_plain_text file [] = (file, none)
  write_as_plain_text file (v ∷ vs) =
      let text = record_text v ++ b'\n' ∷ [] in
      let rest = write_as_plain_text (file ++ text) vs in
      if accepts file text then rest else (file ++ take (partly file text) text, some write_failed)

-- `v.Path = strings.TrimPrefix(v.Path, rootPath)`
abbrev pub strip : Bytes → FileHash → FileHash
strip root_path v = record v { path = trim_prefix v.path root_path }

-- The channel's items with the root taken off their paths.
unfoldable pub hash_dir : Host → Bytes → Bytes → List FileHash
hash_dir o root_path path_to_monitor = map (strip root_path) (o.scan (root_path ++ path_to_monitor))

-- The loop over the directories: all hashes, or the directory that does not exist.
pub collect : Host → Bytes → List Bytes → List FileHash → List FileHash × Option SnapshotError
collect o root_path [] hashes = (hashes, none)
collect o root_path (v ∷ vs) hashes =
    let rest = collect o root_path vs (hashes ++ hash_dir o root_path v) in
    elim (o.stat (root_path ++ v)) [
      | missing ↦ (hashes, some (not_exist (root_path ++ v)))
      | _ ↦ rest
    ]

abbrev pub root_path_of : Host → Bytes
root_path_of o = o.root_fs ++ b'/' ∷ []

-- The deferred function: an error removes the file, if it can be removed.
abbrev pub keep_or_remove :
    Bool → Bytes × Option SnapshotError → Option Bytes × Option SnapshotError
keep_or_remove can_remove (file, none) = (some file, none)
keep_or_remove can_remove (file, some e) = (if can_remove then none else some file, some e)

-- What was written to the file, and the error.
abbrev pub write_collected :
    Host → List FileHash × Option SnapshotError → Bytes × Option SnapshotError
write_collected o (hashes, none) = write_as_plain_text o.accepts o.partly [] hashes
write_collected o (hashes, some e) = ([], some e)

-- The output file before and after (`none`: there is none), and the error.
unfoldable pub calculate_and_write_hashes :
    Host → Option Bytes → Option Bytes × Option SnapshotError
unfolding write_as_plain_text hash_dir collect
calculate_and_write_hashes o before =
    if o.can_create
    then keep_or_remove o.can_remove (write_collected o (collect o (root_path_of o) o.dirs []))
    else (before, some create_failed)
