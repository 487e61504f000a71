-- ===== src/Worker.antt =====
-- internal/worker/workers.go: what a worker sends for the files that it takes from its channel. The
-- channel of file names is the list of the names that this worker receives before it is closed.
pub mod Files
mod Tests
use integrity_sum.Base.{ℕ, suc, Bool, List, [], ◌∷◌, Option, none, some, Bytes, if◌then◌else◌}

pub record FileHash : Type 0 where
  pub path : Bytes
  pub hash : Bytes

-- What is sent for a file: nothing if it could not be hashed.
abbrev pub sent : Bytes → Option Bytes → List FileHash → List FileHash
sent v none rest = rest
sent v (some h) rest = record { path = v; hash = h } ∷ rest

module _ {S : Type 0} (hash_file : Bytes → S → Option Bytes × S) (ctx_done : ℕ → Bool) where
  -- The loop of the function that `NewWorker` returns, with its hasher in the state `h`; `ctx_done n`
  -- says that the context is done when the name with number n has been received.
  unfoldable pub work : ℕ → List Bytes → S → List FileHash
  work n [] h = []
  work n (v ∷ vs) h =
      let r = hash_file v h in
      let rest = work (suc n) vs r.1 in if ctx_done n then [] else sent v r.0 rest
