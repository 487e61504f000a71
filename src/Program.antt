-- ===== src/Program.antt =====
-- cmd/k8s-integrity-sum/main.go: the start of the monitor and its loop over the ticks. The heartbeat
-- goroutine, which only sends alerts, runs beside the loop (`Alerts.Heartbeat`).
pub mod Loop
pub mod Start
pub mod Quiet
pub mod Tests
use integrity_sum.Base.{
  ℕ, zero, suc, map, Bool, true, false, List, [], ◌∷◌, ◌++◌, Option, none, some, Bytes, codes,
  if◌then◌else◌,
}
use integrity_sum.Base.Map.{Map}
use integrity_sum.Base.Result.{Result, ok, err}
use integrity_sum.Alerts.{Sender}
use integrity_sum.K8s.{
  KubeData, DeploymentData, Deployment, Surroundings, Init, initialized, panicked, not_set,
  init_kube_data, connect, get_data_from_deployment,
}
use integrity_sum.Process.{ProcessError, process_paths}
use integrity_sum.Check.{Answer, cancelled, passed, found_error}
use integrity_sum.Response.{integrity_check_failed}
use integrity_sum.Options.{OptsError, parse_monitoring_opts}
use integrity_sum.Health.{Files}
use integrity_sum.Health
use integrity_sum.Senders.{Flags, Network, AlertError, app_id, registered}

-- A process and its directories, as the loop over the map visits them.
abbrev pub Visit : Type 0
Visit = Bytes × List Bytes

-- Go's `range` over a map visits each entry once, in an order that the runtime takes anew for each
-- loop: each number says how many of the entries behind come first.
abbrev pub visit_after : ℕ → Visit → List Visit → List Visit
visit_after zero v vs = v ∷ vs
visit_after (suc k) v [] = v ∷ []
visit_after (suc k) v (w ∷ vs) = w ∷ visit_after k v vs

unfoldable pub range_order : List ℕ → Map (List Bytes) → List Visit
range_order ks [] = []
range_order [] (v ∷ vs) = v ∷ vs
range_order (k ∷ ks) (v ∷ vs) = visit_after k v (range_order ks vs)

-- The visits of the ticks, for the order of each tick.
abbrev pub ticks_of : List (List ℕ) → Map (List Bytes) → List (List Visit)
ticks_of orders opts_map = map (λ ks. range_order ks opts_map) orders

-- `return ctx.Err()`, or the wait for the next tick.
pub data LoopEnd : Type 0 where
  context_error waiting : LoopEnd

abbrev pub after_tick : {W : Type 0} → LoopEnd × W → (W → LoopEnd × W) → LoopEnd × W
after_tick (context_error, w) next = (context_error, w)
after_tick (waiting, w) next = next w

module _ {W : Type 0} (ctx_done : W → Bool) (check : Bytes → List Bytes → W → W) where
  -- The loop over the processes at one tick; an error of a check is logged.
  unfoldable pub run_tick : List Visit → W → LoopEnd × W
  run_tick [] w = (waiting, w)
  run_tick ((proc, paths) ∷ visits) w =
      let rest = run_tick visits (check proc paths w) in
      if ctx_done w then (context_error, w) else rest

  -- `runCheckIntegrity`: for each tick, the order in which Go visits the map.
  unfoldable pub run_check_integrity : List (List Visit) → W → LoopEnd × W
  run_check_integrity [] w = (waiting, w)
  run_check_integrity (tick ∷ ticks) w =
      after_tick (run_tick tick w) (λ w'. run_check_integrity ticks w')

-- `log.Fatal` and its like, which end the program at once.
pub data Fatal : Type 0 where
  health_failed storage_failed target_not_set connect_failed deployment_failed : Fatal
  options_failed : Fatal

-- How the start can fail: the program exits, or it panics and the deferred calls are made.
pub data Halt : Type 0 where
  exits : Fatal → Halt
  panics : Halt

-- How far `main` has come: it was ended, it has returned since the context is done, or it waits for a
-- tick behind those that are given.
pub data End : Type 0 where
  halted : Halt → End
  returned awaiting_tick : End

-- What the program meets outside.
pub record Outside (W E Seconds : Type 0) : Type 0 where
  pub flags : Flags
  pub monitoring_options : Bytes
  pub unescape : Bytes → Option Bytes
  pub surroundings : Surroundings
  pub network : Network W E Seconds
  pub files : Files W E
  pub new_storage : W → Option E × W
  pub in_cluster_config : W → Option E × W
  pub new_for_config : W → Option E × W
  pub get_deployment : W → Bytes → Bytes → Option Deployment
  pub delete_pod : Bytes → Bytes → W → Option (AlertError E) × W
  pub pidof : Bytes → W → Option Bytes
  -- what the select of a check on these paths takes
  pub answer : Bytes → List Bytes → W → Answer × W
  -- the orders in which the ticks, one after the other, visit the map
  pub orders : List (List ℕ)
  pub ctx_done : W → Bool

-- `fmt.Sprintf("/tmp/%s", common.AppId)`
abbrev pub health_file : Bytes
health_file = codes "/tmp/" ++ app_id

module _ {W E Seconds : Type 0} (o : Outside W E Seconds) where
  -- The end of a check: an error that the comparison sent is dealt with, and all are logged.
  abbrev pub react : KubeData → DeploymentData → Bytes → Answer → W → W
  react k d proc cancelled w = w
  react k d proc (passed n) w = w
  react k d proc (found_error e) w =
      integrity_check_failed (registered o.network o.flags d) o.delete_pod k (o.network.now w) e d
        proc w

  abbrev on_paths : KubeData → DeploymentData → Bytes → Result ProcessError (List Bytes) → W → W
  on_paths k d proc (err e) w = w
  on_paths k d proc (ok paths) w = let r = o.answer proc paths w in react k d proc r.0 r.1

  -- `CheckIntegrity`, as the loop sees it
  unfoldable pub check_integrity : KubeData → DeploymentData → Bytes → List Bytes → W → W
  check_integrity k d proc dirs w = on_paths k d proc (process_paths (o.pidof proc w) dirs) w

  -- What the loop needs.
  pub record Started : Type 0 where
    pub kube_data : KubeData
    pub deployment_data : DeploymentData
    pub opts_map : Map (List Bytes)

  abbrev parsed :
      KubeData → DeploymentData → Result OptsError (Map (List Bytes)) → W → Result Halt Started × W
  parsed k d (err e) w = (err (exits options_failed), w)
  parsed k d (ok opts) w = (ok (record { kube_data = k; deployment_data = d; opts_map = opts }), w)

  abbrev after_deployment : KubeData → Option DeploymentData → W → Result Halt Started × W
  after_deployment k none w = (err (exits deployment_failed), w)
  after_deployment k (some d) w =
      parsed k d (parse_monitoring_opts o.unescape o.monitoring_options) w

  abbrev after_connect : KubeData → Option E × W → Result Halt Started × W
  after_connect k (some e, w) = (err (exits connect_failed), w)
  after_connect k (none, w) = after_deployment k (get_data_from_deployment (o.get_deployment w) k) w

  abbrev after_init : Init → W → Result Halt Started × W
  after_init panicked w = (err panics, w)
  after_init not_set w = (err (exits target_not_set), w)
  after_init (initialized k) w = after_connect k (connect o.in_cluster_config o.new_for_config w)

  abbrev after_storage : Option E × W → Result Halt Started × W
  after_storage (some e, w) = (err (exits storage_failed), w)
  after_storage (none, w) = after_init (init_kube_data o.surroundings) w

  abbrev after_health : Option E × W → Result Halt Started × W
  after_health (some e, w) = (err (exits health_failed), w)
  after_health (none, w) = after_storage (o.new_storage w)

  unfoldable pub start : W → Result Halt Started × W
  start w = after_health (Health.set o.files health_file w)

  -- The deferred call is made when the loop returns, and not while it waits.
  abbrev pub after_loop : LoopEnd × W → End × W
  after_loop (context_error, w) = (returned, (Health.reset o.files health_file w).1)
  after_loop (waiting, w) = (awaiting_tick, w)

  abbrev and_run : Result Halt Started × W → End × W
  and_run (err (exits f), w) = (halted (exits f), w)
  and_run (err panics, w) = (halted panics, (Health.reset o.files health_file w).1)
  and_run (ok s, w) = after_loop (
      run_check_integrity o.ctx_done (check_integrity s.kube_data s.deployment_data)
        (ticks_of o.orders s.opts_map) w)

  -- `main`
  unfoldable pub main : W → End × W
  unfolding start
  main w = and_run (start w)
