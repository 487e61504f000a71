-- ===== src/Checksums.antt =====
-- internal/data: the records of a checksums file, one to a line, and their reader.
pub mod Errors
mod Tests
use integrity_sum.Base.{ℕ, ◌≡◌, refl, List, [], ◌∷◌, ◌++◌, Bytes, codes, if◌then◌else◌}
use integrity_sum.Base.Result.{Result, ok, err, ◌>>=◌}
use integrity_sum.Strings.Split.{split}
use integrity_sum.Strings.Trim.{trim_space}
use integrity_sum.Strings.Lines.{scan_lines}

-- `ID` and `ReleaseId` are Go's `int`; nothing in the program sets them.
pub record HashDataOutput : Type 0 where
  pub id : ℕ
  pub hash : Bytes
  pub full_file_name : Bytes
  pub algorithm : Bytes
  pub name_pod : Bytes
  pub release_id : ℕ

pub data ReadError : Type 0 where
  empty_record : ReadError
  incorrect_record : Bytes → ReadError

-- The two spaces between the hash and the path.
abbrev pub separator : Bytes
separator = b' ' ∷ b' ' ∷ []

abbrev pub output : Bytes → Bytes → HashDataOutput
output h p = record {
  id = 0;
  hash = h;
  full_file_name = p;
  algorithm = [];
  name_pod = [];
  release_id = 0;
}

-- `len(parts) < 2`, and the record made of the first two parts.
abbrev from_parts : Bytes → List Bytes → Result ReadError HashDataOutput
from_parts rec [] = err (incorrect_record rec)
from_parts rec (p ∷ []) = err (incorrect_record rec)
from_parts rec (p ∷ q ∷ ps) = ok (output (trim_space p) (trim_space q))

unfoldable pub parse_record : Bytes → Result ReadError HashDataOutput
parse_record [] = err empty_record
parse_record (c ∷ s) = from_parts (c ∷ s) (split (c ∷ s) separator)

-- `for fileScanner.Scan()`, with the checksums so far.
get_loop : List Bytes → List HashDataOutput → Result ReadError (List HashDataOutput)
get_loop [] check_sums = ok check_sums
get_loop (l ∷ ls) check_sums = do sum ← parse_record l; get_loop ls (check_sums ++ sum ∷ [])

-- `Get` on a reader over the whole text. `fileScanner.Err()` is not consulted.
unfoldable pub get : Bytes → Result ReadError (List HashDataOutput)
unfolding get_loop
get r = get_loop (scan_lines r) []
