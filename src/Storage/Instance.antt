-- ===== src/Storage/Instance.antt =====
-- `NewStorage` and `Instance`: the client is made once. And `minIOStorage` of
-- snapshot-controller/controllers/snapshot_controller.go, which does its own set-up once.
use integrity_sum.Base.{
  ◌≡◌, refl, Bool, true, false, List, [], ◌∷◌, Option, none, some, Bytes, arith, if◌then◌else◌,
}
use integrity_sum.Base.Result.{Result, ok, err}

-- The package variables: whether `once` has run, and `instance` (`none` is the nil pointer).
pub record Package (S : Type 0) : Type 0 where
  pub once : Bool
  pub current : Option S

-- What a call returns, the instance and the error, and the variables afterwards.
pub record Made (S E : Type 0) : Type 0 where
  pub instance_made : Option S
  pub error : Option E
  pub package_after : Package S

-- `user` and `password` of the secret `minio` in the namespace `minio`.
pub record Secret : Type 0 where
  pub root_user : Bytes
  pub root_password : Bytes

-- The variables of the controller: `minioOnce`, `minioInitialized`, and those of the package.
pub record State (S : Type 0) : Type 0 where
  pub minio_once : Bool
  pub minio_initialized : Bool
  pub storage_package : Package S

-- `minio.Options`
pub record ClientOptions : Type 0 where
  pub access_key_id : Bytes
  pub secret_access_key : Bytes
  pub secure : Bool

pub data ClientError (E : Type 0) : Type 0 where
  failed_initiate_client : E → ClientError E

abbrev initiated : {S E : Type 0} → Result E S → Result (ClientError E) S
initiated (ok s) = ok s
initiated (err e) = err (failed_initiate_client e)

-- `NewMinIOClient`; `make` is `minio.New`, and the keys are what viper gives.
pub new_min_io_client :
    {S E : Type 0}
    → (Bytes → ClientOptions → Result E S)
    → Bytes
    → Bytes
    → Bytes
    → Result (ClientError E) S
new_min_io_client make access_key_id secret_access_key host = initiated (
    make host (record {
      access_key_id = access_key_id;
      secret_access_key = secret_access_key;
      secure = false;
    }))

module _ {S E : Type 0} where
  abbrev run_once : Result E S → Package S → Made S E
  run_once (ok s) p = record {
    instance_made = some s;
    error = none;
    package_after = record { once = true; current = some s };
  }
  run_once (err e) p = record {
    instance_made = p.current;
    error = some e;
    package_after = record { once = true; current = p.current };
  }

  -- `NewStorage`, where making a client now has the result that is given.
  unfoldable pub new_storage : Result E S → Package S → Made S E
  new_storage client p =
      if p.once
      then record { instance_made = p.current; error = none; package_after = p }
      else run_once client p

  -- The variables after a set-up that made the client, or did not.
  abbrev made_state : Made S E → Option E → State S
  made_state m none = record {
    minio_once = true;
    minio_initialized = true;
    storage_package = m.package_after;
  }
  made_state m (some e) = record {
    minio_once = true;
    minio_initialized = false;
    storage_package = m.package_after;
  }

  -- The function that `minioOnce` runs: the secret, if `Get` finds it, and the client made with it.
  abbrev set_up : Option Secret → (Secret → Result E S) → State S → State S
  set_up none client st = record {
    minio_once = true;
    minio_initialized = st.minio_initialized;
    storage_package = st.storage_package;
  }
  set_up (some secret) client st =
      let m = new_storage (client secret) st.storage_package in made_state m m.error

  -- The variables after a call of `minIOStorage`.
  unfoldable pub minio_storage : Option Secret → (Secret → Result E S) → State S → State S
  unfolding new_storage
  minio_storage secret client st = if st.minio_once then st else set_up secret client st

-- What the call returns: the instance, or the error that the client is not initialized.
unfoldable pub storage_of : {S : Type 0} → State S → Option (Option S)
storage_of st = if st.minio_initialized then some st.storage_package.current else none

-- The variables when the program starts.
abbrev pub fresh_package : {S : Type 0} → Package S
fresh_package = record { once = false; current = none }

abbrev pub fresh_state : {S : Type 0} → State S
fresh_state = record {
  minio_once = false;
  minio_initialized = false;
  storage_package = fresh_package;
}

module _ {S E : Type 0} where
  -- The second call of `NewStorage` returns what the first one made, with no error, whatever making a
  -- client would give by then; so after a first call that failed it returns no storage and no error.
  pub new_storage_twice :
      (first later : Result E S)
      → (new_storage later (new_storage first fresh_package).package_after ≡ record {
        instance_made = (new_storage first fresh_package).instance_made;
        error = none;
        package_after = (new_storage first fresh_package).package_after;
      })
        × ((e : E)
            → first ≡ err e
            → (new_storage later (new_storage first fresh_package).package_after).instance_made
              ≡ none)
  unfolding new_storage
  new_storage_twice (ok s) later = (refl, λ e h. absurd (ground arith))
  new_storage_twice (err f) later = (refl, λ e h. refl)

  -- Later calls of `minIOStorage`, each with the secret and the client as they are by then.
  unfoldable pub later_calls : List (Option Secret × (Secret → Result E S)) → State S → State S
  later_calls [] st = st
  later_calls ((secret, client) ∷ calls) st = later_calls calls (minio_storage secret client st)

  later_calls_settled :
      (calls : List (Option Secret × (Secret → Result E S))) (st : State S)
      → st.minio_once ≡ true
      → later_calls calls st ≡ st
  unfolding later_calls minio_storage
  later_calls_settled [] st h = refl
  later_calls_settled ((secret, client) ∷ calls) st h =
      ground (arith, later_calls_settled calls st h)

  settled :
      (secret : Option Secret) (client : Secret → Result E S)
      → (minio_storage secret client fresh_state).minio_once ≡ true
  unfolding minio_storage
  settled none client = refl
  settled (some secret) client = ground arith

  -- The first call decides: whatever later calls find, they leave the variables as the first call did.
  -- If it found no secret, or no client could be made with it, all later calls have the error, also
  -- when the secret is there by then; if it made a client, all later calls return it.
  pub first_call_decides :
      (secret : Option Secret) (client : Secret → Result E S)
      (calls : List (Option Secret × (Secret → Result E S)))
      → (secret ≡ none
          → storage_of (later_calls calls (minio_storage secret client fresh_state)) ≡ none)
        × ((k : Secret) (e : E)
            → secret ≡ some k
            → client k ≡ err e
            → storage_of (later_calls calls (minio_storage secret client fresh_state)) ≡ none)
        × ((k : Secret) (s : S)
            → secret ≡ some k
            → client k ≡ ok s
            → storage_of (later_calls calls (minio_storage secret client fresh_state))
              ≡ some (some s))
  unfolding minio_storage storage_of
  first_call_decides secret client calls =
      let same_state =
        later_calls_settled calls (minio_storage secret client fresh_state)
          (settled secret client) in
      (
        λ missing. ground (arith, same_state),
        λ k e there bad. ground (arith, same_state),
        λ k s there good. ground (arith, same_state),
      )
