-- ===== src/Graceful/Tests.antt =====
-- A signal that comes while the function runs, which then returns.
use integrity_sum.Base.{◌<◌, ◌≡◌, ◌⊎◌, true, false}
use integrity_sum.Graceful.{
  watching, ended, returned, Execution, execution, executing, Step, signal, cancels, returns, Steps,
  here, step,
}
use integrity_sum.Graceful.Shutdown.{shutdown}

abbrev interrupted : Execution
interrupted = execution 1 true false watching returned

run : Steps executing interrupted
run = step (step here (signal 0 false false watching)) (returns 1 true false watching)

-- The goroutine then cancels the context, though nobody waits for that any more.
late : Step interrupted (execution 1 false true ended returned)
late = cancels 1 false returned

shutdown_example :
    (interrupted.cancelled ≡ true → 0 < interrupted.arrived)
    × (0 < interrupted.arrived
        → (interrupted.cancelled ≡ true)
          ⊎ ((t : Execution) × Step interrupted t × (t.cancelled ≡ true)))
    × (interrupted.caller ≡ returned
        → (interrupted.watcher ≡ ended)
          ⊎ ((t : Execution) × Step interrupted t × (t.watcher ≡ ended)))
shutdown_example = shutdown interrupted run
