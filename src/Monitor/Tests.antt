-- ===== src/Monitor/Tests.antt =====
-- Comparisons of a few files, and the theorems about the verdicts at them.
use mathlib.Core.Bool.{false≢true}
use integrity_sum.Base.{
  ℕ, ◌≡◌, ◌≢◌, ◌↔◌, ◌⊎◌, inl, inr, refl, sym, ap, Bool, true, false, List, [], ◌∷◌, ◌++◌, Option,
  none, some, Bytes, codes, arith, same, length, if◌then◌else◌,
}
use integrity_sum.Base.Map.{Map, lookup, insert, delete}
use integrity_sum.Strings.Search.{trim_prefix, has_prefix}
use integrity_sum.Worker.{FileHash}
use integrity_sum.Checksums.{HashDataOutput, output}
use integrity_sum.Monitor.{
  IntegrityError, err_type_new_file, integrity, failed, compared, expected_map, compare_loop,
  IsRange, compare_records,
}
use integrity_sum.Monitor.Loop.{files}
use integrity_sum.Monitor.Verdicts.{
  recorded, Unchanged, Justified, passes_iff_Unchanged, compare_records-Justified,
}
use integrity_sum.Monitor.Arrival.{second_arrival_is_new_file}

-- `range` that visits the entries in the order of the model.
abbrev pub first_entry : Map Bytes → Option (Bytes × Bytes)
first_entry [] = none
first_entry (e ∷ m) = some e

first_lookup : (m : Map Bytes) (k v : Bytes) → first_entry m ≡ some (k, v) → lookup k m ≡ some v
unfolding lookup
first_lookup [] k v h = absurd (ground arith)
first_lookup ((j, w) ∷ m) k v h = ground (arith, integrity_sum.Base.same_iff j k)

pub first_entry-IsRange : IsRange first_entry
first_entry-IsRange = record { of_empty = refl; of_entry = λ k v m x. cc; entry = first_lookup }

abbrev pub never : ℕ → Bool
never n = false

abbrev root : Bytes
root = codes "/proc/7/root/"

abbrev file_a : FileHash
file_a = record { path = codes "/proc/7/root/etc/a"; hash = codes "0f" }

abbrev file_b : FileHash
file_b = record { path = codes "/proc/7/root/etc/b"; hash = codes "9e" }

abbrev records : List HashDataOutput
records = output (codes "0f") (codes "etc/a") ∷ output (codes "9e") (codes "etc/b") ∷ []

abbrev tampered : List HashDataOutput
tampered = output (codes "0f") (codes "etc/a") ∷ output (codes "77") (codes "etc/b") ∷ []

abbrev tampered_error : IntegrityError
tampered_error = record { kind = 1; path = codes "etc/b"; hash = codes "9e" }

unchanged_passes :
    compare_records first_entry never root (file_a ∷ file_b ∷ []) records ≡ compared 2
unfolding compare_records compare_loop expected_map lookup insert delete trim_prefix has_prefix same
unchanged_passes = refl

mismatch_fails :
    compare_records first_entry never root (file_a ∷ file_b ∷ []) tampered
    ≡ failed (integrity tampered_error)
unfolding compare_records compare_loop expected_map lookup insert delete trim_prefix has_prefix same
mismatch_fails = refl

deleted_fails :
    compare_records first_entry never root (file_b ∷ []) records
    ≡ failed (integrity (record { kind = 3; path = codes "etc/a"; hash = codes "0f" }))
unfolding compare_records compare_loop expected_map lookup insert delete trim_prefix has_prefix same
deleted_fails = refl

abbrev is_tampered : Option Bytes → Bool
is_tampered none = false
is_tampered (some h) = same h (codes "77")

not-Unchanged : ¬ Unchanged (files root (file_a ∷ file_b ∷ [])) tampered
unfolding files recorded lookup trim_prefix has_prefix same
not-Unchanged u = false≢true (sym (ap is_tampered (u.agree (codes "etc/b"))))

passes_iff_Unchanged_example :
    (compare_records first_entry never root (file_a ∷ file_b ∷ []) records ≡ compared 2)
    ↔ ((◌≡◌ {A = ℕ} 2 2) × Unchanged (files root (file_a ∷ file_b ∷ [])) records)
passes_iff_Unchanged_example =
    passes_iff_Unchanged first_entry first_entry-IsRange never root (file_a ∷ file_b ∷ []) records
      (λ n. refl) 2

compare_records-Justified_example :
    Justified (files root (file_a ∷ file_b ∷ [])) tampered tampered_error
compare_records-Justified_example =
    compare_records-Justified first_entry first_entry-IsRange never root (file_a ∷ file_b ∷ [])
      tampered tampered_error mismatch_fails

a_is_recorded : recorded (trim_prefix file_a.path root) records ≡ some file_a.hash
unfolding recorded trim_prefix has_prefix same
a_is_recorded = refl

second_arrival_is_new_file_example :
    compare_records first_entry never root (file_a ∷ file_a ∷ file_b ∷ []) records
    ≡ failed (
        integrity (record {
          kind = err_type_new_file;
          path = trim_prefix file_a.path root;
          hash = file_a.hash;
        }))
second_arrival_is_new_file_example =
    second_arrival_is_new_file first_entry first_entry-IsRange never (λ n. refl) root records file_a
      (file_b ∷ []) a_is_recorded
