-- ===== src/Pool.antt =====
-- internal/worker/workers.go: `WorkersPool`, its goroutines as steps of one state. A state holds the
-- names that are still to come on `fileNameC` until it is closed, the workers, and what was sent on
-- `hashC`: the items that the reader has received, and those in the buffer, which has a place for
-- each worker. The hash that a worker finds for a name is the parameter `hash_of`.
pub mod Accounts
pub mod Delivery
pub mod Progress
pub mod Leak
mod Tests
use integrity_sum.Base.{
  ℕ, zero, suc, ◌<◌, ◌≡◌, Bool, true, List, [], ◌∷◌, ◌++◌, Option, none, some, Bytes, All, length,
}
use integrity_sum.Worker.{FileHash, sent}

-- A worker waits for a name, waits to send, or has returned, and then its `wg.Done` was called.
pub data Phase : Type 0 where
  idle : Phase
  holding : FileHash → Phase
  returned : Phase

-- The names to come, the workers, the items received, and the buffer.
pub data Pool : Type 0 where
  pool : List Bytes → List Phase → List FileHash → List FileHash → Pool

abbrev pub idle_workers : ℕ → List Phase
idle_workers zero = []
idle_workers (suc n) = idle ∷ idle_workers n

-- The workers are started.
abbrev pub started : ℕ → List Bytes → Pool
started count_workers file_names = pool file_names (idle_workers count_workers) [] []

module _ (hash_of : Bytes → Option Bytes) (ctx_done : Bool) where
  pub data Step : Pool → Pool → Type 0 where
    -- `for v := range fileNameC`, and `HashFile` gives a hash
    hashed :
        {v h : Bytes} {vs : List Bytes} (ws us : List Phase) {r b : List FileHash}
        → hash_of v ≡ some h
        → Step
            (pool (v ∷ vs) (ws ++ idle ∷ us) r b)
            (pool vs (ws ++ holding (record { path = v; hash = h }) ∷ us) r b)
    -- `HashFile` has an error: `continue`
    skipped :
        {v : Bytes} {vs : List Bytes} (ws us : List Phase) {r b : List FileHash}
        → hash_of v ≡ none
        → Step (pool (v ∷ vs) (ws ++ idle ∷ us) r b) (pool vs (ws ++ idle ∷ us) r b)
    -- `case <-ctx.Done(): return`
    stopped :
        {v : Bytes} {vs : List Bytes} (ws us : List Phase) {r b : List FileHash}
        → ctx_done ≡ true
        → Step (pool (v ∷ vs) (ws ++ idle ∷ us) r b) (pool vs (ws ++ returned ∷ us) r b)
    -- `hashC <- FileHash{...}`, which waits for a place in the buffer
    put :
        (x : FileHash) {vs : List Bytes} (ws us : List Phase) {r b : List FileHash}
        → length b < length (ws ++ holding x ∷ us)
        → Step (pool vs (ws ++ holding x ∷ us) r b) (pool vs (ws ++ idle ∷ us) r (b ++ x ∷ []))
    -- The reader receives an item.
    received :
        {x : FileHash} {vs : List Bytes} {ws : List Phase} {r b : List FileHash}
        → Step (pool vs ws r (x ∷ b)) (pool vs ws (r ++ x ∷ []) b)
    -- `fileNameC` is closed and a worker returns.
    finished :
        (ws us : List Phase) {r b : List FileHash}
        → Step (pool [] (ws ++ idle ∷ us) r b) (pool [] (ws ++ returned ∷ us) r b)

  pub data Steps : Pool → Pool → Type 0 where
    here : {s : Pool} → Steps s s
    step : {s t u : Pool} → Steps s t → Step t u → Steps s u

-- `wg.Wait()` is over and `hashC` is closed exactly when all workers have returned.
abbrev pub IsReturned : Phase → Type 0
IsReturned w = w ≡ returned

-- The reader's loop over `hashC` is over: the channel is closed and nothing is in the buffer.
abbrev pub IsOver : Pool → Type 0
IsOver (pool vs ws r b) = All IsReturned ws × (b ≡ [])

abbrev pub delivered : Pool → List FileHash
delivered (pool vs ws r b) = r
