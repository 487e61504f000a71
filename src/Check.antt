-- ===== src/Check.antt =====
-- `CheckIntegrity` of internal/integritymonitor/integritymonitor.go: its select, and the goroutine of
-- `compareHashes` that it starts, as steps of one state. What the goroutine finds, unless the context
-- is done before, is the parameter `found`.
pub mod Races
mod Tests
use integrity_sum.Base.{ℕ, ◌≡◌, Bool, true, false}
use integrity_sum.Monitor.{CheckError, Verdict, failed, compared}

-- What `CheckIntegrity` returns: the context's error, nil with the number of hashes that it logs, or
-- the error of the check.
pub data Answer : Type 0 where
  cancelled : Answer
  passed : ℕ → Answer
  found_error : CheckError → Answer

-- `CheckIntegrity` waits in its select or has returned, and then `errC` is closed.
pub data Caller : Type 0 where
  waiting : Caller
  returned : Answer → Caller

-- The goroutine compares, waits to send what it found, has ended and closed `doneC`, or panicked.
pub data Comparer : Type 0 where
  comparing sending ended panicked : Comparer

-- Whether the context that both watch was cancelled from outside, and the two.
pub data Check : Type 0 where
  check : Bool → Caller → Comparer → Check

abbrev pub begun : Check
begun = check false waiting comparing

module _ (may_cancel : Bool) (found : Verdict) where
  pub data Step : Check → Check → Type 0 where
    cancel :
        (c : Bool) (m : Caller) (g : Comparer)
        → may_cancel ≡ true
        → Step (check c m g) (check true m g)
    -- The goroutine comes to one of its sends.
    finds : (c : Bool) (m : Caller) → Step (check c m comparing) (check c m sending)
    -- `case <-ctx.Done(): return` in the goroutine
    gives_up : (m : Caller) → Step (check true m comparing) (check true m ended)
    -- the same, after the deferred `cancel` of `CheckIntegrity`
    given_up :
        (c : Bool) (a : Answer) → Step (check c (returned a) comparing) (check c (returned a) ended)
    -- `case <-ctx.Done()` of the select
    sees_done : (g : Comparer) → Step (check true waiting g) (check true (returned cancelled) g)
    -- `case countHashes := <-comparedHashesChan`: a number that is sent
    takes_count :
        (c : Bool) (n : ℕ)
        → found ≡ compared n
        → Step (check c waiting sending) (check c (returned (passed n)) ended)
    -- the same, of a closed channel
    takes_closed : (c : Bool) → Step (check c waiting ended) (check c (returned (passed 0)) ended)
    -- `case err := <-errC`
    takes_error :
        (c : Bool) (e : CheckError)
        → found ≡ failed e
        → Step (check c waiting sending) (check c (returned (found_error e)) ended)
    -- A send on a closed channel panics.
    sends_late :
        (c : Bool) (a : Answer) (e : CheckError)
        → found ≡ failed e
        → Step (check c (returned a) sending) (check c (returned a) panicked)

  pub data Steps (s : Check) : Check → Type 0 where
    here : Steps s s
    step : {t u : Check} → Steps s t → Step t u → Steps s u
