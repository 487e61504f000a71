-- ===== src/Storage/Tests.antt =====
-- A store in memory.
use integrity_sum.Base.{
  ◌≡◌, ◌⊎◌, refl, Bool, true, false, List, [], ◌∷◌, Option, none, some, Bytes, codes, same, inl,
  inr, arith,
}
use integrity_sum.Base.Result.{Result, ok, err}
use integrity_sum.Storage.{Client, save, load, remove, create_bucket_if_not_exists}
use integrity_sum.Storage.Store.{
  Store, update, with_bucket, Call, save_call, load_call, remove_call, create_call, done, failed,
  content, Among, may_hold, Answered, IsAsked, IsCreated,
}
use integrity_sum.Storage.Refinement.{Tried, IsObjectStore, call, calls, calls_lem}
use integrity_sum.Storage.Instance.{
  Secret, fresh_state, minio_storage, storage_of, later_calls, first_call_decides,
}

abbrev presence : Option Bytes → Option Bytes
presence none = some (codes "The specified key does not exist")
presence (some d) = none

abbrev content_of : Option Bytes → Result Bytes Bytes
content_of none = err (codes "The specified key does not exist")
content_of (some d) = ok d

abbrev taken : Bool → (Store → Store) → Store → Option Bytes × Store
taken true f w = (none, f w)
taken false f w = (some (codes "The specified bucket does not exist"), w)

-- A bucket can be made once, and written and read when it is there; a removal is done without a reply.
abbrev client : Client Store Bytes
client = record {
  put_object = λ b n d w. taken (w.exists b) (update b n (some d)) w;
  remove_object = λ b n w. (some (codes "timeout"), update b n none w);
  make_bucket = λ b w. (none, with_bucket b w);
  bucket_exists = λ b w. ok (w.exists b);
  get_object = λ b n w. none;
  stat = λ b n w. presence (w.objects b n);
  read_all = λ b n w. content_of (w.objects b n);
}

content_of-eq-ok : (o : Option Bytes) (d : Bytes) → content_of o ≡ ok d → o ≡ some d
content_of-eq-ok none d e = absurd (ground arith)
content_of-eq-ok (some c) d e = ground arith

taken-Tried :
    (t : Bool) (f : Store → Store) (w : Store) → Tried w (f w) (taken t f w).0 (taken t f w).1
taken-Tried true f w = refl
taken-Tried false f w = inl refl

client-IsObjectStore : IsObjectStore client (λ w. w)
client-IsObjectStore = record {
  put = λ b n d w. taken-Tried (w.exists b) (update b n (some d)) w;
  gone = λ b n w. inr refl;
  made = λ b w. refl;
  known = λ b w x h. ground (arith, h);
  read = λ b n d w got info h. content_of-eq-ok (w.objects b n) d h;
}

abbrev operations : List Call
operations =
    save_call (codes "b") (codes "n") (codes "early")
    ∷ create_call (codes "b")
    ∷ create_call (codes "b")
    ∷ save_call (codes "b") (codes "n") (codes "text")
    ∷ load_call (codes "b") (codes "n")
    ∷ remove_call (codes "b") (codes "n")
    ∷ load_call (codes "b") (codes "n")
    ∷ []

abbrev empty : Store
empty = record { exists = λ b. false; objects = λ b n. none }

replies :
    (calls client operations empty).0
    ≡ failed ∷ done ∷ done ∷ done ∷ content (codes "text") ∷ failed ∷ failed ∷ []
unfolding calls call save load remove create_bucket_if_not_exists same
replies = refl

calls_lem_example :
    Answered (codes "b") (codes "n") (none ∷ []) operations (calls client operations empty).0
    × Among
        ((calls client operations empty).1.objects (codes "b") (codes "n"))
        (may_hold (codes "b") (codes "n") (none ∷ []) operations (calls client operations empty).0)
    × (IsCreated (codes "b") operations (calls client operations empty).0
        → (calls client operations empty).1.exists (codes "b") ≡ true)
    × ((calls client operations empty).1.exists (codes "b") ≡ true
        → (empty.exists (codes "b") ≡ true) ⊎ IsAsked (codes "b") operations)
calls_lem_example =
    calls_lem client (λ w. w) client-IsObjectStore operations empty (codes "b") (codes "n")

-- A client that could not be made, and one that could.
abbrev bad : Result Bytes Bytes
bad = err (codes "no host")

abbrev good : Result Bytes Bytes
good = ok (codes "client")

abbrev secret : Option Secret
secret = some (record { root_user = codes "u"; root_password = codes "p" })

first_call_decides_example :
    (◌≡◌ {A = Option Secret} none none
      → storage_of
          (later_calls ((secret, λ k. good) ∷ []) (minio_storage none (λ k. good) fresh_state))
        ≡ none)
    × ((k : Secret) (e : Bytes)
        → none ≡ some k
        → good ≡ err e
        → storage_of
            (later_calls ((secret, λ k. good) ∷ []) (minio_storage none (λ k. good) fresh_state))
          ≡ none)
    × ((k : Secret) (s : Bytes)
        → none ≡ some k
        → good ≡ ok s
        → storage_of
            (later_calls ((secret, λ k. good) ∷ []) (minio_storage none (λ k. good) fresh_state))
          ≡ some (some s))
first_call_decides_example = first_call_decides none (λ k. good) ((secret, λ k. good) ∷ [])
