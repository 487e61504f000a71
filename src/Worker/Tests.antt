-- ===== src/Worker/Tests.antt =====
-- A worker on three files, one of which cannot be read.
use integrity_sum.Base.{
  ℕ, ◌≡◌, refl, Bool, false, List, [], ◌∷◌, Option, none, some, Bytes, codes, same, take,
  if◌then◌else◌,
}
use integrity_sum.Strings.Hex.{encode_to_string, hex_digit}
use integrity_sum.Hasher.{hash_file, hash_data}
use integrity_sum.Hasher.Tests.{counting, counting-IsHash}
use integrity_sum.Worker.{work}
use integrity_sum.Worker.Files.{hashes_of, content_hash, work_lem}

abbrev three_files : List Bytes
three_files = codes "a" ∷ codes "b" ∷ codes "c" ∷ []

-- The content of a file is its name, twice for `a`; `b` cannot be read.
abbrev read_file : Bytes → Option Bytes
read_file v =
    if same v (codes "b") then none else if same v (codes "a") then some (codes "aa") else some v

abbrev never : ℕ → Bool
never n = false

sends :
    work (hash_file counting none read_file) never 0 three_files (codes "old")
    ≡ record { path = codes "a"; hash = codes "02" }
      ∷ record { path = codes "c"; hash = codes "01" }
      ∷ []
unfolding work hash_file hash_data encode_to_string hex_digit same
sends = refl

work_lem_example :
    ((k : ℕ) × (work (hash_file counting none read_file) never 0 three_files (codes "old")
        ≡ hashes_of (content_hash counting read_file []) (take k three_files)))
    × (((i : ℕ) → never i ≡ false)
        → work (hash_file counting none read_file) never 0 three_files (codes "old")
          ≡ hashes_of (content_hash counting read_file []) three_files)
work_lem_example = work_lem counting counting-IsHash read_file [] never 0 three_files (codes "old")
