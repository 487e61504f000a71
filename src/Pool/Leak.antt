-- ===== src/Pool/Leak.antt =====
-- The pool of internal/worker/workers.go when nobody receives from `hashC` any more.
use integrity_sum.Base.{
  ℕ, suc, ◌+◌, ◌≤◌, ◌≡◌, ◌≢◌, ◌⊎◌, inl, inr, refl, ap, Bool, false, List, [], ◌∷◌, ◌++◌, Option,
  some, Bytes, All, length, ltb, ◌<◌, none, Option-cases, Bool-cases, length-append, arith,
}
use integrity_sum.Worker.{FileHash}
use integrity_sum.Worker.Files.{hashes_of}
use integrity_sum.Pool.Delivery.{length-idle_workers}
use integrity_sum.Pool.{
  Phase, idle, holding, returned, Pool, pool, idle_workers, started, Step, hashed, skipped, stopped,
  put, received, finished, Steps, here, step, IsReturned, IsOver, delivered,
}

-- A run in which nothing is received.
pub data Unread (hash_of : Bytes → Option Bytes) (ctx_done : Bool) (s : Pool) : Pool → Type 0 where
  since : Unread hash_of ctx_done s s
  next :
      {t u : Pool}
      → Unread hash_of ctx_done s t
      → Step hash_of ctx_done t u
      → delivered u ≡ delivered t
      → Unread hash_of ctx_done s u

-- A worker holds an item.
abbrev Holds : FileHash → List Phase → Type 0
Holds x [] = ⊥
Holds x (w ∷ ws) = (w ≡ holding x) ⊎ Holds x ws

-- A worker holds an item, and the buffer is full.
abbrev IsBlocked : FileHash → Pool → Type 0
IsBlocked x (pool vs ws r b) = (length ws ≤ length b) × Holds x ws

still-Holds :
    (x : FileHash) (ws us : List Phase) (w : Phase)
    → Holds x (ws ++ idle ∷ us)
    → Holds x (ws ++ w ∷ us)
still-Holds x [] us w (inl e) = absurd (ground arith)
still-Holds x [] us w (inr h) = inr h
still-Holds x (v ∷ ws) us w (inl e) = inl e
still-Holds x (v ∷ ws) us w (inr h) = inr (still-Holds x ws us w h)

same_length : (ws us : List Phase) (v w : Phase) → length (ws ++ v ∷ us) ≡ length (ws ++ w ∷ us)
same_length [] us v w = refl
same_length (a ∷ ws) us v w = ap suc (same_length ws us v w)

not-Returned : (x : FileHash) (ws : List Phase) → Holds x ws → ¬ All IsReturned ws
not-Returned x [] h a = h
not-Returned x (w ∷ ws) (inl e) (r, _) = ground (arith, e, r)
not-Returned x (w ∷ ws) (inr h) (_, a) = not-Returned x ws h a

longer : (r : List FileHash) (x : FileHash) → r ++ x ∷ [] ≢ r
longer r x e = omega (arith, length-append r (x ∷ []), ap length e)

module _ (hash_of : Bytes → Option Bytes) (ctx_done : Bool) (x : FileHash) where
  Step-IsBlocked :
      {s t : Pool}
      → Step hash_of ctx_done s t
      → delivered t ≡ delivered s
      → IsBlocked x s
      → IsBlocked x t
  Step-IsBlocked (hashed {v} {h} ws us e) q (full, held) = (
    omega (arith, same_length ws us idle (holding (record { path = v; hash = h }))),
    still-Holds x ws us _ held,
  )
  Step-IsBlocked (skipped ws us e) q (full, held) = (full, held)
  Step-IsBlocked (stopped ws us e) q (full, held) =
      (omega (arith, same_length ws us idle returned), still-Holds x ws us returned held)
  Step-IsBlocked (put y ws us room) q (full, held) = absurd (omega arith)
  Step-IsBlocked (received {x = y} {r = r}) q h = absurd (longer r y q)
  Step-IsBlocked (finished ws us) q (full, held) =
      (omega (arith, same_length ws us idle returned), still-Holds x ws us returned held)

  Unread-IsBlocked : {s t : Pool} → Unread hash_of ctx_done s t → IsBlocked x s → IsBlocked x t
  Unread-IsBlocked since h = h
  Unread-IsBlocked (next p q e) h = Step-IsBlocked q e (Unread-IsBlocked p h)

module _ (hash_of : Bytes → Option Bytes) where
  hashes_of_skipped :
      (v : Bytes) (vs : List Bytes)
      → hash_of v ≡ none
      → length (hashes_of hash_of (v ∷ vs)) ≡ length (hashes_of hash_of vs)
  unfolding hashes_of
  hashes_of_skipped v vs e = rw e refl

  hashes_of_hashed :
      (v : Bytes) (vs : List Bytes) (h : Bytes)
      → hash_of v ≡ some h
      → length (hashes_of hash_of (v ∷ vs)) ≡ suc (length (hashes_of hash_of vs))
  unfolding hashes_of
  hashes_of_hashed v vs h e = rw e refl

  -- The first worker alone takes the names: it passes over the files that cannot be hashed, the buffer
  -- takes the items of the others until it is full, and then the worker holds one more.
  filled :
      (s : Pool) (vs : List Bytes) (us : List Phase) (r b : List FileHash)
      → length b ≤ suc (length us)
      → suc (length us) < length b + length (hashes_of hash_of vs)
      → Steps hash_of false s (pool vs (idle ∷ us) r b)
      → (x : FileHash) × (rest : List Bytes) × (b' : List FileHash) × (suc (length us) ≤ length b')
        × Steps hash_of false s (pool rest (holding x ∷ us) r b')
  unfolding hashes_of
  filled s [] us r b room more run = absurd (omega arith)
  filled s (v ∷ vs) us r b room more run = elim (Option-cases (hash_of v)) [
    | inl e ↦
        filled s vs us r b room (omega (arith, hashes_of_skipped v vs e))
          (step run (skipped {v = v} [] us e))
    | inr (h, e) ↦
        let x : FileHash = record { path = v; hash = h } in
        let run' = step run (hashed {v = v} {h = h} [] us e) in
        elim (Bool-cases (ltb (length b) (suc (length us)))) [
          | inl lt ↦
              filled s vs us r (b ++ x ∷ []) (ground (arith, length-append b (x ∷ [])))
                (omega (arith, length-append b (x ∷ []), hashes_of_hashed v vs h e))
                (step run' (put x [] us (ground arith)))
          | inr full ↦ (x, vs, b, ground arith, run')
        ]
  ]

over-IsBlocked : (x : FileHash) (t : Pool) → IsOver t → ¬ IsBlocked x t
over-IsBlocked x (pool vs ws r b) (a, _) (_, held) = not-Returned x ws held a

-- If nobody receives from the channel, which is so when `compareHashes` has returned before it comes to
-- its loop, and more of the names can be hashed than there are workers, wherever they stand in the
-- list, then the pool can come to a state from which, whether or not the context is done, no run
-- without a receive ends: a worker waits for ever in its send, and so does the goroutine that waits
-- for the workers.
pub abandoned_pool_blocks :
    (hash_of : Bytes → Option Bytes) (n : ℕ) (names : List Bytes)
    → suc n < length (hashes_of hash_of names)
    → (s : Pool) × Steps hash_of false (started (suc n) names) s
      × (delivered s ≡ [])
      × ((ctx_done : Bool) (t : Pool) → Unread hash_of ctx_done s t → ¬ IsOver t)
abandoned_pool_blocks hash_of n names more =
    let (x, rest, b, full, run) =
      filled hash_of (started (suc n) names) names (idle_workers n) [] [] (omega arith)
        (omega (arith, length-idle_workers n)) here in
    (
      pool rest (holding x ∷ idle_workers n) [] b,
      run,
      refl,
      λ ctx_done t quiet is_over.
          over-IsBlocked x t is_over
            (Unread-IsBlocked hash_of ctx_done x quiet (omega (arith, full), inl refl)),
    )
