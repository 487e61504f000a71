-- ===== src/Storage.antt =====
-- pkg/minio/minio.go: the storage over a MinIO client, and its single instance. The client is a
-- parameter: its calls act on a world of type `W` and may return an error of type `E`.
pub mod Buckets
pub mod Instance
pub mod Store
pub mod Traces
pub mod Refinement
mod Tests
use integrity_sum.Base.{Bool, true, false, List, Option, none, some, Bytes}
use integrity_sum.Base.Result.{Result, ok, err}

pub record Client (W E : Type 0) : Type 0 where
  -- `PutObject`, `RemoveObject` and `MakeBucket` of a bucket and a name
  pub put_object : Bytes → Bytes → Bytes → W → Option E × W
  pub remove_object : Bytes → Bytes → W → Option E × W
  pub make_bucket : Bytes → W → Option E × W
  pub bucket_exists : Bytes → W → Result E Bool
  -- `GetObject`, `Stat` and `io.ReadAll`: each may fail
  pub get_object : Bytes → Bytes → W → Option E
  pub stat : Bytes → Bytes → W → Option E
  pub read_all : Bytes → Bytes → W → Result E Bytes

-- The messages that wrap the client's errors.
pub data StorageError (E : Type 0) : Type 0 where
  failed_upload failed_load failed_get_info failed_remove failed_create_bucket : E → StorageError E
  unwrapped : E → StorageError E

module _ {W E : Type 0} (client : Client W E) where
  abbrev pub wrap : (E → StorageError E) → Option E × W → Option (StorageError E) × W
  wrap f (none, w) = (none, w)
  wrap f (some e, w) = (some (f e), w)

  -- `Save`
  unfoldable pub save : Bytes → Bytes → Bytes → W → Option (StorageError E) × W
  save bucket_name object_name content w =
      wrap failed_upload (client.put_object bucket_name object_name content w)

  abbrev read : Result E Bytes → Result (StorageError E) Bytes
  read (ok content) = ok content
  read (err e) = err (unwrapped e)

  abbrev after_stat : Option E → Result E Bytes → Result (StorageError E) Bytes
  after_stat (some e) content = err (failed_get_info e)
  after_stat none content = read content

  abbrev pub after_get : Option E → Option E → Result E Bytes → Result (StorageError E) Bytes
  after_get (some e) info content = err (failed_load e)
  after_get none info content = after_stat info content

  -- `Load`
  unfoldable pub load : Bytes → Bytes → W → Result (StorageError E) Bytes
  load bucket_name object_name w =
      after_get (client.get_object bucket_name object_name w)
        (client.stat bucket_name object_name w) (client.read_all bucket_name object_name w)

  -- `Remove`
  unfoldable pub remove : Bytes → Bytes → W → Option (StorageError E) × W
  remove bucket_name obj_name w = wrap failed_remove (client.remove_object bucket_name obj_name w)

  abbrev pub create_unless : Result E Bool → Bytes → W → Option (StorageError E) × W
  create_unless (err e) bucket_name w = (some (failed_create_bucket e), w)
  create_unless (ok true) bucket_name w = (none, w)
  create_unless (ok false) bucket_name w =
      wrap failed_create_bucket (client.make_bucket bucket_name w)

  -- `CreateBucketIfNotExists`
  unfoldable pub create_bucket_if_not_exists : Bytes → W → Option (StorageError E) × W
  create_bucket_if_not_exists bucket_name w =
      create_unless (client.bucket_exists bucket_name w) bucket_name w
