-- ===== src/Storage/Refinement.antt =====
-- The storage of pkg/minio/minio.go over a MinIO client, against the store that it promises.
use integrity_sum.Base.{
  ◌≡◌, ◌⊎◌, refl, sym, ap, ◌∙◌, fun_ext, Bool, true, false, List, [], ◌∷◌, Option, none, some,
  Bytes, same, same_iff, Bool-cases, inl, inr,
}
use integrity_sum.Base.Result.{Result, ok, err}
use integrity_sum.Storage.{
  Client, StorageError, wrap, failed_upload, failed_remove, failed_create_bucket, after_get,
  create_unless, save, load, remove, create_bucket_if_not_exists,
}
use integrity_sum.Storage.Store.{
  Store, update, with_bucket, Call, save_call, load_call, remove_call, create_call, Reply, done,
  failed, content, applied, Serves, effect, after, Among, may_hold, Answered, IsAsked, IsCreated,
}
use integrity_sum.Storage.Traces.{
  Serves-Among, Serves-LoadsAmong, Serves-exists, created-exists, only-Serves,
}

-- A call of the client that is tried in a store and would lead to another: without an error it has its
-- effect; with an error it may have had it or not.
abbrev pub Tried : {E : Type 0} → Store → Store → Option E → Store → Type 0
Tried s t none u = u ≡ t
Tried s t (some e) u = (u ≡ s) ⊎ (u ≡ t)

-- What the storage relies on, where `store` is what the service holds in a world.
pub record IsObjectStore {W E : Type 0} (client : Client W E) (store : W → Store) : Type 0 where
  pub put :
      (b n d : Bytes) (w : W)
      → Tried
          (store w)
          (update b n (some d) (store w))
          (client.put_object b n d w).0
          (store (client.put_object b n d w).1)
  pub gone :
      (b n : Bytes) (w : W)
      → Tried
          (store w)
          (update b n none (store w))
          (client.remove_object b n w).0
          (store (client.remove_object b n w).1)
  pub made :
      (b : Bytes) (w : W)
      → Tried
          (store w)
          (with_bucket b (store w))
          (client.make_bucket b w).0
          (store (client.make_bucket b w).1)
  pub known :
      (b : Bytes) (w : W) (x : Bool) → client.bucket_exists b w ≡ ok x → (store w).exists b ≡ x
  pub read :
      (b n d : Bytes) (w : W)
      → client.get_object b n w ≡ none
      → client.stat b n w ≡ none
      → client.read_all b n w ≡ ok d
      → (store w).objects b n ≡ some d

abbrev of_error : {E : Type 0} → Option E → Reply
of_error none = done
of_error (some e) = failed

abbrev of_result : {E : Type 0} → Result E Bytes → Reply
of_result (err e) = failed
of_result (ok d) = content d

-- A bucket that is there is not made again.
with_bucket_known : (b : Bytes) (s : Store) → s.exists b ≡ true → s ≡ with_bucket b s
with_bucket_known b s h =
    ap (λ f. record s { exists = f })
      (fun_ext (λ b'. elim (Bool-cases (same b b')) [
        | inl e ↦ rw e (ap s.exists (sym ((same_iff b b').0 e)) ∙ h)
        | inr e ↦ rw e refl
      ]))

module _ {W E : Type 0} (client : Client W E) where
  -- One operation of the storage, and a sequence of them.
  unfoldable pub call : Call → W → Reply × W
  call (save_call b n d) w = let r = save client b n d w in (of_error r.0, r.1)
  call (load_call b n) w = (of_result (load client b n w), w)
  call (remove_call b n) w = let r = remove client b n w in (of_error r.0, r.1)
  call (create_call b) w = let r = create_bucket_if_not_exists client b w in (of_error r.0, r.1)

  unfoldable pub calls : List Call → W → List Reply × W
  calls [] w = ([], w)
  calls (c ∷ cs) w = let r = call c w in let rest = calls cs r.1 in (r.0 ∷ rest.0, rest.1)

  module _ (store : W → Store) (is_store : IsObjectStore client store) where
    -- A call of the client, wrapped.
    wrapped-Serves :
        (f : E → StorageError E) (r : Option E × W) (c : Call) (s : Store)
        → Tried s (applied c s) r.0 (store r.1)
        → Serves s c (of_error (wrap client f r).0) (store (wrap client f r).1)
    wrapped-Serves f (none, w) c s h = h
    wrapped-Serves f (some e, w) c s h = h

    load-Serves :
        (b n : Bytes) (w : W) (got info : Option E) (r : Result E Bytes)
        → (got ≡ none → info ≡ none → (d : Bytes) → r ≡ ok d → (store w).objects b n ≡ some d)
        → Serves (store w) (load_call b n) (of_result (after_get client got info r)) (store w)
    load-Serves b n w (some e) info r h = inl refl
    load-Serves b n w none (some e) r h = inl refl
    load-Serves b n w none none (err e) h = inl refl
    load-Serves b n w none none (ok d) h = (refl, h refl refl d refl)

    create-Serves :
        (b : Bytes) (w : W) (r : Result E Bool)
        → ((x : Bool) → r ≡ ok x → (store w).exists b ≡ x)
        → Serves
            (store w)
            (create_call b)
            (of_error (create_unless client r b w).0)
            (store (create_unless client r b w).1)
    create-Serves b w (err e) h = inl refl
    create-Serves b w (ok true) h = with_bucket_known b (store w) (h true refl)
    create-Serves b w (ok false) h =
        wrapped-Serves failed_create_bucket (client.make_bucket b w) (create_call b) (store w)
          (is_store.made b w)

    call-Serves : (c : Call) (w : W) → Serves (store w) c (call c w).0 (store (call c w).1)
    unfolding call save load remove create_bucket_if_not_exists
    call-Serves (save_call b n d) w =
        wrapped-Serves failed_upload (client.put_object b n d w) (save_call b n d) (store w)
          (is_store.put b n d w)
    call-Serves (remove_call b n) w =
        wrapped-Serves failed_remove (client.remove_object b n w) (remove_call b n) (store w)
          (is_store.gone b n w)
    call-Serves (load_call b n) w =
        load-Serves b n w (client.get_object b n w) (client.stat b n w) (client.read_all b n w)
          (λ got info d. is_store.read b n d w got info)
    call-Serves (create_call b) w =
        create-Serves b w (client.bucket_exists b w) (is_store.known b w)

    calls-Answered :
        (b n : Bytes) (cs : List Call) (w : W) (vs : List (Option Bytes))
        → Among ((store w).objects b n) vs
        → Answered b n vs cs (calls cs w).0
          × Among ((store (calls cs w).1).objects b n) (may_hold b n vs cs (calls cs w).0)
    unfolding calls
    calls-Answered b n [] w vs held = (tt, held)
    calls-Answered b n (c ∷ cs) w vs held =
        let served = call-Serves c w in
        let rest =
          calls-Answered b n cs (call c w).1 (after (effect b n c) (call c w).0 vs)
            (Serves-Among b n (store w) (store (call c w).1) c (call c w).0 vs served held) in
        (
          (
            Serves-LoadsAmong b n (store w) (store (call c w).1) c (call c w).0 vs served held,
            rest.0,
          ),
          rest.1,
        )

    exists-kept :
        (b : Bytes) (cs : List Call) (w : W)
        → (store w).exists b ≡ true
        → (store (calls cs w).1).exists b ≡ true
    unfolding calls
    exists-kept b [] w h = h
    exists-kept b (c ∷ cs) w h =
        exists-kept b cs (call c w).1
          (Serves-exists b (store w) (store (call c w).1) c (call c w).0 (call-Serves c w) h)

    created_kept :
        (b : Bytes) (cs : List Call) (w : W)
        → IsCreated b cs (calls cs w).0
        → (store (calls cs w).1).exists b ≡ true
    unfolding calls
    created_kept b [] w h = absurd h
    created_kept b (c ∷ cs) w (inl (is_create, is_done)) = exists-kept b cs (call c w).1 (
        created-exists b (store w) (store (call c w).1) c (call c w).0 (call-Serves c w) is_create
          is_done)
    created_kept b (c ∷ cs) w (inr h) = created_kept b cs (call c w).1 h

    only-IsAsked :
        (b : Bytes) (cs : List Call) (w : W)
        → (store (calls cs w).1).exists b ≡ true
        → ((store w).exists b ≡ true) ⊎ IsAsked b cs
    unfolding calls
    only-IsAsked b [] w h = inl h
    only-IsAsked b (c ∷ cs) w h = elim (only-IsAsked b cs (call c w).1 h) [
      | inr asked ↦ inr (inr asked)
      | inl there ↦
          elim (only-Serves b (store w) (store (call c w).1) c (call c w).0 (call-Serves c w)
            there) [ inl before ↦ inl before | inr is_create ↦ inr (inl is_create) ]
    ]

    -- Any sequence of `Save`, `Load`, `Remove` and `CreateBucketIfNotExists`, over a client whose calls
    -- have their effect if they succeed, and may have had it or not if they fail. Every `Load` of an
    -- object that succeeds gives what the replies allow at that time: what the last `Save` or `Remove`
    -- of it that succeeded has left (without one, what was there at first), or what one of those that
    -- failed after it would have left. What the object holds in the end is among these too. A bucket
    -- whose creation has once succeeded is there in the end, and a bucket that is there in the end was
    -- there at first or its creation was called for.
    pub calls_lem :
        (cs : List Call) (w : W) (b n : Bytes)
        → Answered b n ((store w).objects b n ∷ []) cs (calls cs w).0
          × Among
              ((store (calls cs w).1).objects b n)
              (may_hold b n ((store w).objects b n ∷ []) cs (calls cs w).0)
          × (IsCreated b cs (calls cs w).0 → (store (calls cs w).1).exists b ≡ true)
          × ((store (calls cs w).1).exists b ≡ true → ((store w).exists b ≡ true) ⊎ IsAsked b cs)
    calls_lem cs w b n =
        let (answered, held) = calls-Answered b n cs w ((store w).objects b n ∷ []) (inl refl) in
        (answered, held, created_kept b cs w, only-IsAsked b cs w)
