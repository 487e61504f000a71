-- ===== src/Program/Quiet.antt =====
-- The monitor whose checks find nothing wrong: it neither alerts nor restarts.
use integrity_sum.Base.{◌≡◌, ◌≢◌, refl, sym, ap, ◌∙◌, fun_ext, List, Option, Bytes}
use integrity_sum.Base.Result.{Result, ok, err}
use integrity_sum.K8s.{KubeData, DeploymentData}
use integrity_sum.Process.{ProcessError, process_paths}
use integrity_sum.Check.{Answer, cancelled, passed, found_error}
use integrity_sum.Monitor.{CheckError}
use integrity_sum.Senders.{Network, AlertError}
use integrity_sum.Program.{
  Outside, after_loop, ticks_of, Started, on_paths, react, check_integrity, run_check_integrity,
  main,
}
use integrity_sum.Program.Start.{IsReady, start-eq-ok}

module _ {W E Seconds : Type 0} (o : Outside W E Seconds) where
  -- The same, with other senders and another way to delete a pod.
  abbrev pub with_effects :
      Network W E Seconds → (Bytes → Bytes → W → Option (AlertError E) × W) → Outside W E Seconds
  with_effects network delete_pod = record o { network = network; delete_pod = delete_pod }

  main-eq :
      (w before_loop : W) (s : Started o)
      → IsReady o w s before_loop
      → main o w
        ≡ after_loop o (
            run_check_integrity o.ctx_done
              (check_integrity o s.kube_data s.deployment_data)
              (ticks_of o.orders s.opts_map)
              before_loop)
  unfolding main
  main-eq w before_loop s r = rw (start-eq-ok o w before_loop s r) refl

module _ {W E Seconds : Type 0} (o : Outside W E Seconds) (network : Network W E Seconds)
    (delete_pod : Bytes → Bytes → W → Option (AlertError E) × W) where
  abbrev other : Outside W E Seconds
  other = with_effects o network delete_pod

  react-quiet :
      (k : KubeData) (d : DeploymentData) (proc : Bytes) (a : Answer) (w : W)
      → ((e : CheckError) → a ≢ found_error e)
      → react o k d proc a w ≡ react other k d proc a w
  react-quiet k d proc cancelled w quiet = refl
  react-quiet k d proc (passed n) w quiet = refl
  react-quiet k d proc (found_error e) w quiet = absurd (quiet e refl)

  module _
      (quiet : (proc : Bytes) (paths : List Bytes) (w : W) (e : CheckError)
        → (o.answer proc paths w).0 ≢ found_error e) where
    on_paths-quiet :
        (k : KubeData) (d : DeploymentData) (proc : Bytes) (p : Result ProcessError (List Bytes))
        (w : W)
        → on_paths o k d proc p w ≡ on_paths other k d proc p w
    on_paths-quiet k d proc (err e) w = refl
    on_paths-quiet k d proc (ok paths) w =
        react-quiet k d proc (o.answer proc paths w).0 _ (quiet proc paths w)

    check_integrity-quiet :
        (k : KubeData) (d : DeploymentData) → check_integrity o k d ≡ check_integrity other k d
    unfolding check_integrity
    check_integrity-quiet k d = fun_ext (λ proc.
        fun_ext
          (λ dirs. fun_ext (λ w. on_paths-quiet k d proc (process_paths (o.pidof proc w) dirs) w)))

    -- If the start succeeds and no check answers an error, then over all ticks, whatever senders are
    -- registered and however pods are deleted, the program does the same and ends in the same world:
    -- it sends no alert for a check and restarts no pod.
    pub passing_monitor_is_quiet :
        (w before_loop : W) (s : Started o) → IsReady o w s before_loop → main o w ≡ main other w
    passing_monitor_is_quiet w before_loop s r =
        main-eq o w before_loop s r
        ∙ ap
            (λ check.
              after_loop o
                (run_check_integrity o.ctx_done check (ticks_of o.orders s.opts_map) before_loop))
            (check_integrity-quiet s.kube_data s.deployment_data)
        ∙ sym (
            main-eq other w before_loop
              (record {
                kube_data = s.kube_data;
                deployment_data = s.deployment_data;
                opts_map = s.opts_map;
              })
              (record {
                with_health = r.with_health;
                with_storage = r.with_storage;
                health = r.health;
                storage = r.storage;
                target = r.target;
                connected = r.connected;
                deployment = r.deployment;
                options = r.options;
              }))
