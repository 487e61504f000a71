-- ===== src/Graceful.antt =====
-- internal/utils/graceful/graceful.go: `Execute`, which runs a function under a context that a signal
-- ends, as steps of its goroutine, of the function, and of the process's signals.
pub mod Shutdown
mod Tests
use integrity_sum.Base.{ℕ, suc, Bool, true, false}

-- The goroutine waits for a signal or has ended.
pub data Watcher : Type 0 where
  watching ended : Watcher

-- The function runs, or it has returned and the deferred calls have stopped and closed `sig`.
pub data Called : Type 0 where
  running returned : Called

pub record Execution : Type 0 where
  -- the signals that came so far, while they were taken
  pub arrived : ℕ
  -- whether the one place of `sig` is full
  pub pending : Bool
  -- whether the context is cancelled
  pub cancelled : Bool
  pub watcher : Watcher
  pub caller : Called

abbrev pub execution : ℕ → Bool → Bool → Watcher → Called → Execution
execution n p c w f = record { arrived = n; pending = p; cancelled = c; watcher = w; caller = f }

abbrev pub executing : Execution
executing = execution 0 false false watching running

pub data Step : Execution → Execution → Type 0 where
  -- A signal is put into `sig`, or dropped if that is full.
  signal :
      (n : ℕ) (p c : Bool) (w : Watcher)
      → Step (execution n p c w running) (execution (suc n) true c w running)
  -- `case s, ok := <-sig; ok`: the context is cancelled, also where `sig` was closed behind the signal.
  cancels :
      (n : ℕ) (c : Bool) (f : Called)
      → Step (execution n true c watching f) (execution n false true ended f)
  -- The channel is closed and empty.
  gives_up :
      (n : ℕ) (c : Bool)
      → Step (execution n false c watching returned) (execution n false c ended returned)
  -- The function returns.
  returns :
      (n : ℕ) (p c : Bool) (w : Watcher)
      → Step (execution n p c w running) (execution n p c w returned)

pub data Steps (s : Execution) : Execution → Type 0 where
  here : Steps s s
  step : {t u : Execution} → Steps s t → Step t u → Steps s u
