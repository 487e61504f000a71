-- ===== src/Pool/Progress.antt =====
-- Every run of the pool can come to its end while the reader receives.
use integrity_sum.Base.{
  ℕ, zero, suc, ◌+◌, ◌*◌, ◌≤◌, ◌<◌, ◌≡◌, ◌≢◌, refl, Bool, List, [], ◌∷◌, ◌++◌, Option, Bytes, All,
  ◌⊎◌, inl, inr, length, length-append, arith, Option-cases,
}
use integrity_sum.Worker.{FileHash}
use integrity_sum.Pool.{
  Phase, idle, holding, returned, Pool, pool, idle_workers, started, Step, hashed, skipped, stopped,
  put, received, finished, Steps, here, step, IsReturned, IsOver,
}

-- The first worker that has not returned, if there is one.
data Located : List Phase → Type 0 where
  nowhere : {ws : List Phase} → All IsReturned ws → Located ws
  at : (ws : List Phase) (w : Phase) (us : List Phase) → w ≢ returned → Located (ws ++ w ∷ us)

locate_next : (w : Phase) (ws : List Phase) → w ≡ returned → Located ws → Located (w ∷ ws)
locate_next w ws e (nowhere h) = nowhere (e, h)
locate_next w _ e (at ws v us h) = at (w ∷ ws) v us h

locate : (ws : List Phase) → Located ws
locate [] = nowhere tt
locate (idle ∷ ws) = at [] idle ws cc
locate (holding x ∷ ws) = at [] (holding x) ws cc
locate (returned ∷ ws) = locate_next returned ws refl (locate ws)

-- How much a worker still has to do, and a pool.
abbrev weight : List Phase → ℕ
weight [] = 0
weight (idle ∷ ws) = 1 + weight ws
weight (holding x ∷ ws) = 3 + weight ws
weight (returned ∷ ws) = weight ws

abbrev size : Pool → ℕ
size (pool vs ws r b) = 4 * length vs + weight ws + length b

weight-append : (ws us : List Phase) → weight (ws ++ us) ≡ weight ws + weight us
weight-append [] us = omega arith
weight-append (idle ∷ ws) us = omega (arith, weight-append ws us)
weight-append (holding x ∷ ws) us = omega (arith, weight-append ws us)
weight-append (returned ∷ ws) us = weight-append ws us

weight-idle_workers : (n : ℕ) → weight (idle_workers n) ≡ n
weight-idle_workers zero = refl
weight-idle_workers (suc n) = omega (arith, weight-idle_workers n)

module _ (hash_of : Bytes → Option Bytes) (ctx_done : Bool) where
  size-Step : {s t : Pool} → Step hash_of ctx_done s t → size t < size s
  size-Step (hashed {v = v} {h = h} ws us e) = omega (
    arith,
    weight-append ws (idle ∷ us),
    weight-append ws (holding (record { path = v; hash = h }) ∷ us),
  )
  size-Step (skipped ws us e) = omega arith
  size-Step (stopped ws us e) =
      omega (arith, weight-append ws (idle ∷ us), weight-append ws (returned ∷ us))
  size-Step (put x ws us {b = b} room) = omega (
    arith,
    weight-append ws (idle ∷ us),
    weight-append ws (holding x ∷ us),
    length-append b (x ∷ []),
  )
  size-Step received = omega arith
  size-Step (finished ws us) =
      omega (arith, weight-append ws (idle ∷ us), weight-append ws (returned ∷ us))

  taken :
      (v : Bytes) (vs : List Bytes) (ws us : List Phase) (r : List FileHash)
      → (t : Pool) × Step hash_of ctx_done (pool (v ∷ vs) (ws ++ idle ∷ us) r []) t
  taken v vs ws us r = elim (Option-cases (hash_of v)) [
    | inl e ↦ (_, skipped ws us e)
    | inr (h, e) ↦ (_, hashed ws us e)
  ]

  moves :
      (vs : List Bytes) (ws : List Phase) (w : Phase) (us : List Phase) (r : List FileHash)
      → w ≢ returned
      → (t : Pool) × Step hash_of ctx_done (pool vs (ws ++ w ∷ us) r []) t
  moves [] ws idle us r h = (_, finished ws us)
  moves (v ∷ vs) ws idle us r h = taken v vs ws us r
  moves vs ws (holding x) us r h =
      (_, put x ws us (omega (arith, length-append ws (holding x ∷ us))))
  moves vs ws returned us r h = absurd (h refl)

  moves_or_IsOver :
      (vs : List Bytes) (ws : List Phase) (r : List FileHash)
      → Located ws
      → IsOver (pool vs ws r []) ⊎ ((t : Pool) × Step hash_of ctx_done (pool vs ws r []) t)
  moves_or_IsOver vs ws r (nowhere h) = inl (h, refl)
  moves_or_IsOver vs _ r (at ws w us h) = inr (moves vs ws w us r h)

  -- The pool is over or can take a step.
  progress : (s : Pool) → IsOver s ⊎ ((t : Pool) × Step hash_of ctx_done s t)
  progress (pool vs ws r []) = moves_or_IsOver vs ws r (locate ws)
  progress (pool vs ws r (x ∷ b)) = inr (_, received)

  -- The number of steps of a run.
  unfoldable pub count : {s t : Pool} → Steps hash_of ctx_done s t → ℕ
  count here = 0
  count (step p q) = suc (count p)

  count_bound : {s t : Pool} (p : Steps hash_of ctx_done s t) → count p + size t ≤ size s
  unfolding count
  count_bound here = omega arith
  count_bound (step p q) = omega (arith, count_bound p, size-Step q)

  ends_within :
      (n : ℕ) (s t : Pool)
      → size t < n
      → Steps hash_of ctx_done s t
      → (u : Pool) × Steps hash_of ctx_done s u × IsOver u
  ends_within zero s t h p = absurd (omega arith)
  ends_within (suc n) s t h p = elim (progress t) [
    | inl is_over ↦ (t, p, is_over)
    | inr (u, q) ↦ ends_within n s u (omega (arith, size-Step q)) (step p q)
  ]

  size-started : (n : ℕ) (files : List Bytes) → size (started n files) ≡ 4 * length files + n
  size-started n files = omega (arith, weight-idle_workers n)

  -- No run is longer than four steps for a file and one for a worker, and every run can be carried on
  -- to one that is over: nothing blocks for ever, whether or not the context is done.
  pub pool_ends :
      (n : ℕ) (files : List Bytes) (s : Pool) (run : Steps hash_of ctx_done (started n files) s)
      → (count run ≤ 4 * length files + n) × ((t : Pool) × Steps hash_of ctx_done s t × IsOver t)
  pool_ends n files s run = (
    omega (arith, count_bound run, size-started n files),
    ends_within (suc (size s)) s s (omega arith) here,
  )
