-- ===== src/Hasher.antt =====
-- pkg/hasher/hasher.go: the registry of algorithms, and the hash of a file. An instance of an
-- algorithm is a parameter: its calls `Reset`, `Write` and `Sum(nil)` on a state of type `S`.
pub mod Registry
pub mod Digest
pub mod Tests
use integrity_sum.Base.{[], ◌∷◌, Option, none, some, Bytes, codes}
use integrity_sum.Base.Map.{Map, lookup, insert}
use integrity_sum.Strings.Lower.{to_lower}
use integrity_sum.Strings.Hex.{encode_to_string}

-- Go's `hash.Hash`; its `Write` returns no error.
pub record Hash (S : Type 0) : Type 0 where
  pub reset : S → S
  pub write : Bytes → S → S
  pub sum : S → Bytes

module _ {S : Type 0} (h : Hash S) where
  -- `io.Copy` from a `bytes.Reader`: one write of all bytes, and none if there are none.
  abbrev pub copy : Bytes → S → S
  copy [] s = s
  copy (c ∷ content) s = h.write (c ∷ content) s

  -- `HashData`: the text of the hash, and the instance afterwards.
  unfoldable pub hash_data : Bytes → S → Bytes × S
  hash_data content s = let t = copy content (h.reset s) in (encode_to_string (h.sum t), t)

  abbrev hash_read : Option Bytes → S → Option Bytes × S
  hash_read none s = (none, s)
  hash_read (some content) s = let r = hash_data content s in (some r.0, r.1)

  -- What an algorithm that hashes files itself, as bee2 does, gives for the file; else its content is
  -- read.
  abbrev hash_by : Option (Bytes → Option Bytes) → Option Bytes → Bytes → S → Option Bytes × S
  hash_by (some own_file_hasher) content name s = (own_file_hasher name, s)
  hash_by none content name s = hash_read content s

  -- `HashFile`: `none` is an error.
  unfoldable pub hash_file :
      Option (Bytes → Option Bytes) → (Bytes → Option Bytes) → Bytes → S → Option Bytes × S
  hash_file own read_file full_file_name s = hash_by own (read_file full_file_name) full_file_name s

-- The six functions of the standard library that `init` registers.
pub record Defaults (A : Type 0) : Type 0 where
  pub md5 : A
  pub sha1 : A
  pub sha224 : A
  pub sha256 : A
  pub sha384 : A
  pub sha512 : A

-- The registry maps a name in lower case to the function that makes an instance.
module _ {A : Type 0} (unicode_lower : Bytes → Bytes) where
  -- `RegisterAlg`
  unfoldable pub register_alg : Bytes → A → Map A → Map A
  register_alg alg_name f algs = insert (to_lower unicode_lower alg_name) f algs

  -- `init`
  unfoldable pub default_algs : Defaults A → Map A
  unfolding register_alg
  default_algs d = register_alg (codes "sha512") d.sha512 (
      register_alg (codes "sha384") d.sha384 (
        register_alg (codes "sha256") d.sha256 (
          register_alg (codes "sha224") d.sha224
            (register_alg (codes "sha1") d.sha1 (register_alg (codes "md5") d.md5 [])))))

  abbrev or_default : A → Option A → A
  or_default sha256 none = sha256
  or_default sha256 (some f) = f

  -- `newHasherInstance`: the function whose instance it returns.
  unfoldable pub new_hasher_instance : A → Bytes → Map A → A
  new_hasher_instance sha256 alg_name algs =
      or_default sha256 (lookup (to_lower unicode_lower alg_name) algs)
