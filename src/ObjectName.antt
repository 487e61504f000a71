-- ===== src/ObjectName.antt =====
-- `BuildObjectName` of pkg/minio/minio.go: the name under which the snapshot controller stores the
-- hashes of an image. The monitor loads them under the name that `CheckSumFile` makes.
pub mod Agreement
mod Tests
use integrity_sum.Base.{List, [], ◌∷◌, ◌++◌, Option, none, some, Bytes}
use integrity_sum.Strings.Split.{split}
use integrity_sum.Strings.Lower.{to_lower}
use integrity_sum.Strings.FilePath.{join_path}

-- `imageInfo[0]` and `imageInfo[1]`: `none` is the run-time panic of an index out of range.
abbrev pub object_name : (Bytes → Bytes) → Bytes → Bytes → List Bytes → Option Bytes
object_name unicode_lower namespace alg [] = none
object_name unicode_lower namespace alg (p ∷ []) = none
object_name unicode_lower namespace alg (p ∷ q ∷ ps) =
    some (join_path (namespace ∷ p ∷ q ∷ []) ++ (b'.' ∷ to_lower unicode_lower alg))

unfoldable pub build_object_name : (Bytes → Bytes) → Bytes → Bytes → Bytes → Option Bytes
build_object_name unicode_lower namespace image alg =
    object_name unicode_lower namespace alg (split image (b':' ∷ []))
