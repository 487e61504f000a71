-- ===== src/Snapshot/Tests.antt =====
-- The snapshot tool on a small file system.
use integrity_sum.Base.{
  ◌≡◌, ◌≢◌, refl, true, List, [], ◌∷◌, none, some, Bytes, codes, All, arith, same, if◌then◌else◌,
  ◌++◌, false,
}
use integrity_sum.Strings.Split.{split, join}
use integrity_sum.Strings.FilePath.{join_path}
use integrity_sum.Strings.FilePath.Names.{plain-IsName, HasNoUp, names_of, kept, path_of}
use integrity_sum.Walker.Files.{follow}
use integrity_sum.Walker.Paths.{below}
use integrity_sum.Walker.Dotted.{dotted}
use integrity_sum.Snapshot.{root_path_of, strip}
use integrity_sum.Snapshot.DottedRoot.{dotted_root_stays}
use integrity_sum.Strings.Search.{trim_prefix, has_prefix, contains}
use integrity_sum.Strings.Trim.{trim_space}
use integrity_sum.Strings.Lines.{drop_cr}
use integrity_sum.Worker.{FileHash}
use integrity_sum.Snapshot.{
  SnapshotError, create_failed, write_failed, not_exist, Stat, exists, missing, Host,
  calculate_and_write_hashes,
}
use integrity_sum.Snapshot.RoundTrip.{IsRecordable, file_text}
use integrity_sum.Snapshot.Output.{all_hashes, IsPresent, IsPrefix, calculate_outcome}

abbrev pub scanned_app : List FileHash
scanned_app =
    record { path = codes "fs/app/a b"; hash = codes "0f" }
    ∷ record { path = codes "fs/app/c"; hash = codes "9e" }
    ∷ []

-- Two directories with two files and none; the second one may be missing.
abbrev pub host : Stat → Host
host second = record {
  root_fs = codes "fs";
  dirs = codes "app" ∷ codes "bin" ∷ [];
  can_create = true;
  stat = λ d. if same d (codes "fs/bin") then second else exists;
  accepts = λ file text. true;
  partly = λ file text. 0;
  can_remove = true;
  scan = λ d. if same d (codes "fs/app") then scanned_app else [];
}

abbrev pub written : Bytes
written = codes "0f  app/a b\n9e  app/c\n"

pub snapshot_is_written : calculate_and_write_hashes (host exists) none ≡ (some written, none)
unfolding calculate_and_write_hashes trim_prefix has_prefix same
snapshot_is_written = refl

missing_directory :
    calculate_and_write_hashes (host missing) (some written)
    ≡ (none, some (not_exist (codes "fs/bin")))
unfolding calculate_and_write_hashes trim_prefix has_prefix same
missing_directory = refl

first_IsRecordable : IsRecordable (record { path = codes "app/a b"; hash = codes "0f" })
unfolding contains has_prefix trim_space drop_cr
first_IsRecordable = record {
  hash_hex = (refl, (refl, tt));
  path_single = refl;
  path_trimmed = refl;
  plain = record { no_newline = omega arith; no_cr = refl; fits = omega arith };
}

second_IsRecordable : IsRecordable (record { path = codes "app/c"; hash = codes "9e" })
unfolding contains has_prefix trim_space drop_cr
second_IsRecordable = record {
  hash_hex = (refl, (refl, tt));
  path_single = refl;
  path_trimmed = refl;
  plain = record { no_newline = omega arith; no_cr = refl; fits = omega arith };
}

pub All-IsRecordable : All IsRecordable (all_hashes (host exists) (host exists).dirs)
unfolding all_hashes trim_prefix has_prefix same
All-IsRecordable = (first_IsRecordable, (second_IsRecordable, tt))

-- A disk that is full behind two bytes of the second line, and a file that cannot be removed.
abbrev torn_host : Host
torn_host = record (host exists) {
  accepts = λ file text. same file [];
  partly = λ file text. 2;
  can_remove = false;
}

torn_snapshot :
    calculate_and_write_hashes torn_host none ≡ (some (codes "0f  app/a b\n9e"), some write_failed)
unfolding calculate_and_write_hashes trim_prefix has_prefix same
torn_snapshot = refl

calculate_outcome_example :
    ((calculate_and_write_hashes torn_host none).1 ≡ none
      → ((calculate_and_write_hashes torn_host none).0
          ≡ some (file_text (all_hashes torn_host torn_host.dirs)))
        × All (IsPresent torn_host) torn_host.dirs)
    × ((e : SnapshotError)
        → (calculate_and_write_hashes torn_host none).1 ≡ some e
        → e ≢ create_failed
        → (torn_host.can_remove ≡ true → (calculate_and_write_hashes torn_host none).0 ≡ none)
          × (torn_host.can_remove ≡ false
              → (left : Bytes) × ((calculate_and_write_hashes torn_host none).0 ≡ some left)
                × IsPrefix left (file_text (all_hashes torn_host torn_host.dirs))))
    × ((calculate_and_write_hashes torn_host none).1 ≡ some create_failed
        → (calculate_and_write_hashes torn_host none).0 ≡ none)
calculate_outcome_example = calculate_outcome torn_host none

-- The same with `./fs` for the root.
abbrev dotted_host : Host
dotted_host = record (host exists) { root_fs = codes "./fs" }

abbrev walked : FileHash
walked = record { path = codes "fs/app/c"; hash = codes "9e" }

walked_path : walked.path ≡ follow (root_path_of dotted_host ++ codes "app") (codes "c" ∷ [])
unfolding follow join_path split join same
walked_path = refl

app_names : names_of (codes "app") ≡ codes "app" ∷ []
unfolding split kept same
app_names = refl

app-HasNoUp : HasNoUp (codes "app")
unfolding split
app-HasNoUp = (λ x. ground arith, tt)

fs_form : dotted_host.root_fs ≡ dotted (path_of false (codes "fs" ∷ []))
unfolding join
fs_form = refl

dotted_root_stays_example :
    (strip (root_path_of dotted_host) walked).path
    ≡ below (codes "fs" ∷ codes "app" ∷ []) (codes "c" ∷ [])
dotted_root_stays_example =
    dotted_root_stays dotted_host walked (codes "fs") [] (codes "app") (codes "app" ∷ [])
      (codes "c") [] fs_form (plain-IsName b'f' (codes "s") (λ x. ground arith) (omega arith), tt)
      app-HasNoUp app_names (plain-IsName b'a' (codes "pp") (λ x. ground arith) (omega arith), tt)
      (plain-IsName b'c' [] (λ x. ground arith) (omega arith), tt) walked_path
