-- ===== src/Hasher/Tests.antt =====
-- A hash that counts, and the registry with its names.
use integrity_sum.Base.{ℕ, ◌%◌, ◌≡◌, refl, [], ◌∷◌, ◌++◌, Bytes, codes, length, arith, same}
use integrity_sum.Base.Map.{lookup, insert, delete}
use integrity_sum.Strings.Lower.{to_lower, lower_byte}
use integrity_sum.Strings.Hex.{encode_to_string, hex_digit}
use integrity_sum.Hasher.{
  Hash, hash_data, Defaults, default_algs, register_alg, new_hasher_instance,
}
use integrity_sum.Hasher.Digest.{IsHash}

abbrev pub counting : Hash Bytes
counting = record {
  reset = λ s. [];
  write = λ content s. s ++ content;
  sum = λ s. (length s % 256) ∷ [];
}

pub counting-IsHash : IsHash counting
counting-IsHash = record { reset_forgets = λ s t. refl; sum_bytes = λ s. (omega arith, tt) }

counted : (hash_data counting (codes "eleven char") (codes "before")).0 ≡ codes "0b"
unfolding hash_data encode_to_string hex_digit
counted = refl

abbrev keep : Bytes → Bytes
keep s = s

abbrev numbered : Defaults ℕ
numbered = record { md5 = 1; sha1 = 2; sha224 = 3; sha256 = 4; sha384 = 5; sha512 = 6 }

upper_case : new_hasher_instance keep 4 (codes "SHA512") (default_algs keep numbered) ≡ 6
unfolding new_hasher_instance default_algs register_alg to_lower lower_byte lookup insert delete
    same
upper_case = refl

unknown_name : new_hasher_instance keep 4 (codes "crc32") (default_algs keep numbered) ≡ 4
unfolding new_hasher_instance default_algs register_alg to_lower lower_byte lookup insert delete
    same
unknown_name = refl
