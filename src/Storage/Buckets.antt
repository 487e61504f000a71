-- ===== src/Storage/Buckets.antt =====
-- `Save`, `Load`, `Remove` and `CreateBucketIfNotExists` of pkg/minio/minio.go in sequence.
use integrity_sum.Base.{◌≡◌, inl, inr, true, none, some, Bytes, arith, Option-cases}
use integrity_sum.Base.Result.{ok, err}
use integrity_sum.Storage.{
  Client, StorageError, failed_load, failed_get_info, save, load, remove,
  create_bucket_if_not_exists,
}

-- What the storage relies on: an object that was put can be read, one that was removed has no
-- information, and a bucket that was made exists.
pub record KeepsObjects {W E : Type 0} (client : Client W E) : Type 0 where
  pub got :
      (b n d : Bytes) (w : W)
      → (client.put_object b n d w).0 ≡ none
      → client.get_object b n (client.put_object b n d w).1 ≡ none
  pub known :
      (b n d : Bytes) (w : W)
      → (client.put_object b n d w).0 ≡ none
      → client.stat b n (client.put_object b n d w).1 ≡ none
  pub held :
      (b n d : Bytes) (w : W)
      → (client.put_object b n d w).0 ≡ none
      → client.read_all b n (client.put_object b n d w).1 ≡ ok d
  pub unknown :
      (b n : Bytes) (w : W)
      → (client.remove_object b n w).0 ≡ none
      → (e : E) × (client.stat b n (client.remove_object b n w).1 ≡ some e)
  pub made :
      (b : Bytes) (w : W)
      → (client.make_bucket b w).0 ≡ none
      → client.bucket_exists b (client.make_bucket b w).1 ≡ ok true

module _ {W E : Type 0} (client : Client W E) (keeps : KeepsObjects client) (bucket name : Bytes)
    (w : W) where
  -- What `Save` stored without an error, `Load` returns.
  pub load-save :
      (content : Bytes)
      → (save client bucket name content w).0 ≡ none
      → load client bucket name (save client bucket name content w).1 ≡ ok content
  unfolding load save
  load-save content saved = ground (
    arith,
    keeps.got bucket name content w,
    keeps.known bucket name content w,
    keeps.held bucket name content w,
  )

  -- What `Remove` took away without an error, `Load` does not return: it has an error.
  pub load-remove :
      (remove client bucket name w).0 ≡ none
      → (e : StorageError E) × (load client bucket name (remove client bucket name w).1 ≡ err e)
  unfolding load remove
  load-remove removed =
      let (e, missing) = keeps.unknown bucket name w (ground arith) in
      elim (Option-cases (client.get_object bucket name (client.remove_object bucket name w).1)) [
        | inl got ↦ (failed_get_info e, ground (arith, missing, got))
        | inr (f, failed) ↦ (failed_load f, ground (arith, failed))
      ]

  bucket_there :
      (create_bucket_if_not_exists client bucket w).0 ≡ none
      → client.bucket_exists bucket (create_bucket_if_not_exists client bucket w).1 ≡ ok true
  unfolding create_bucket_if_not_exists
  bucket_there created = ground (arith, keeps.made bucket w)

  create_again :
      (w' : W)
      → client.bucket_exists bucket w' ≡ ok true
      → create_bucket_if_not_exists client bucket w' ≡ (none, w')
  unfolding create_bucket_if_not_exists
  create_again w' there = rw there

  -- `CreateBucketIfNotExists` leaves the bucket in place, and called a second time it does nothing.
  pub create_bucket_twice :
      (create_bucket_if_not_exists client bucket w).0 ≡ none
      → (client.bucket_exists bucket (create_bucket_if_not_exists client bucket w).1 ≡ ok true)
        × (create_bucket_if_not_exists client bucket (create_bucket_if_not_exists client bucket w).1
            ≡ (none, (create_bucket_if_not_exists client bucket w).1))
  unfolding create_bucket_if_not_exists
  create_bucket_twice created = let there = bucket_there created in (there, create_again _ there)
