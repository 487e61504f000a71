-- ===== src/ObjectName/Tests.antt =====
-- Object names of images.
use integrity_sum.Base.{◌≡◌, refl, false, [], ◌∷◌, ◌++◌, some, Bytes, codes, arith, same}
use integrity_sum.Base.Map.{Map, lookup}
use integrity_sum.Base.Result.{ok}
use integrity_sum.Strings.Search.{contains, has_prefix}
use integrity_sum.Strings.Split.{split, join}
use integrity_sum.Strings.Lower.{to_lower}
use integrity_sum.Strings.FilePath.{join_path}
use integrity_sum.Strings.FilePath.Ordinary.{IsOrdinaryPath}
use integrity_sum.Process.{check_sum_file}
use integrity_sum.ObjectName.{build_object_name}
use integrity_sum.ObjectName.Agreement.{check_sum_file-build_object_name}

abbrev keep : Bytes → Bytes
keep s = s

abbrev images : Map Bytes
images = (codes "nginx", codes "library/nginx:1.24") ∷ (codes "redis", codes "redis") ∷ []

name_of_image :
    build_object_name keep (codes "default") (codes "integrity:latest") (codes "SHA256")
    ≡ some (codes "default/integrity/latest.sha256")
unfolding build_object_name split join join_path same to_lower
name_of_image = refl

default_ordinary : IsOrdinaryPath (codes "default")
unfolding split
default_ordinary = ((λ e. ground arith, λ e. ground arith, λ e. ground arith), tt)

name_ordinary : IsOrdinaryPath (codes "library/nginx")
unfolding split
name_ordinary = (
  (λ e. ground arith, λ e. ground arith, λ e. ground arith),
  ((λ e. ground arith, λ e. ground arith, λ e. ground arith), tt),
)

tag_ordinary : IsOrdinaryPath (codes "1.24")
unfolding split
tag_ordinary = ((λ e. ground arith, λ e. ground arith, λ e. ground arith), tt)

tag_has_no_colon : contains (codes "1.24") (b':' ∷ []) ≡ false
unfolding contains has_prefix
tag_has_no_colon = refl

image_is_mapped :
    lookup (codes "nginx") images ≡ some (codes "library/nginx" ++ b':' ∷ codes "1.24")
unfolding lookup same
image_is_mapped = refl

redis_is_mapped : lookup (codes "redis") images ≡ some (codes "redis")
unfolding lookup same
redis_is_mapped = refl

redis_has_no_tag : contains (codes "redis") (b':' ∷ []) ≡ false
unfolding contains has_prefix
redis_has_no_tag = refl

check_sum_file-build_object_name_example :
    (f : Bytes) × (build_object_name keep
        (codes "default")
        (codes "library/nginx" ++ b':' ∷ codes "1.24")
        (codes "SHA256")
      ≡ some f)
    × (check_sum_file keep images (codes "default") (codes "nginx") (codes "SHA256") ≡ ok f)
check_sum_file-build_object_name_example =
    check_sum_file-build_object_name keep images (codes "nginx") (codes "default") (codes "SHA256")
      (codes "library/nginx") (codes "1.24") (omega arith) tag_has_no_colon default_ordinary
      name_ordinary tag_ordinary image_is_mapped
