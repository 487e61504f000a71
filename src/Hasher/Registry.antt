-- ===== src/Hasher/Registry.antt =====
-- Which algorithm a name selects.
use integrity_sum.Base.{◌≡◌, Bytes, same, if◌then◌else◌, arith}
use integrity_sum.Base.Map.{Map, lookup-insert}
use integrity_sum.Strings.Lower.{to_lower}
use integrity_sum.Hasher.{register_alg, new_hasher_instance}

module _ {A : Type 0} (unicode_lower : Bytes → Bytes) where
  -- A registration decides for every spelling of its name, over earlier ones; all other names select
  -- what they selected before.
  pub new_hasher_instance-register_alg :
      (sha256 f : A) (alg_name other : Bytes) (algs : Map A)
      → new_hasher_instance unicode_lower sha256 other (register_alg unicode_lower alg_name f algs)
        ≡ (if same (to_lower unicode_lower alg_name) (to_lower unicode_lower other)
            then f
            else new_hasher_instance unicode_lower sha256 other algs)
  unfolding new_hasher_instance register_alg
  new_hasher_instance-register_alg sha256 f alg_name other algs =
      ground (
        arith,
        lookup-insert (to_lower unicode_lower alg_name) (to_lower unicode_lower other) f algs,
      )
