-- ===== src/Program/Start.antt =====
-- The start of the monitor: when it comes to its loop, and what an early end leaves behind.
use mathlib.Core.List.{Permᴰ}
use mathlib.Core.List.Permᴰ
use integrity_sum.Base.{
  ℕ, zero, suc, ◌≡◌, ◌≢◌, ◌⊎◌, inl, inr, refl, ap, Bool, true, List, [], ◌∷◌, Bytes, All, length,
  none, some, arith,
}
use integrity_sum.Base.Map.{Map}
use integrity_sum.Base.Result.{ok}
use integrity_sum.K8s.{connect, initialized, init_kube_data, get_data_from_deployment}
use integrity_sum.Options.{parse_monitoring_opts}
use integrity_sum.Health
use integrity_sum.Program.{
  LoopEnd, context_error, waiting, Fatal, health_failed, exits, halted, End, returned,
  awaiting_tick, Outside, health_file, Started, Visit, visit_after, range_order, ticks_of,
  after_loop, run_check_integrity, check_integrity, start, main,
}
use integrity_sum.Program.Loop.{all_visits, Run, run_check_integrity-Run}

visit_after-Permᴰ : (k : ℕ) (v : Visit) (vs : List Visit) → Permᴰ (v ∷ vs) (visit_after k v vs)
visit_after-Permᴰ zero v vs = Permᴰ.refl (v ∷ vs)
visit_after-Permᴰ (suc k) v [] = Permᴰ.refl (v ∷ [])
visit_after-Permᴰ (suc k) v (w ∷ vs) =
    Permᴰ.trans (Permᴰ.swap refl refl) (Permᴰ.cons refl (visit_after-Permᴰ k v vs))

-- An order visits every entry once.
range_order-Permᴰ : (ks : List ℕ) (m : Map (List Bytes)) → Permᴰ m (range_order ks m)
unfolding range_order
range_order-Permᴰ ks [] = Permᴰ.nil
range_order-Permᴰ [] (v ∷ vs) = Permᴰ.refl (v ∷ vs)
range_order-Permᴰ (k ∷ ks) (v ∷ vs) =
    Permᴰ.trans (Permᴰ.cons refl (range_order-Permᴰ ks vs))
      (visit_after-Permᴰ k v (range_order ks vs))

ticks_of-Permᴰ : (orders : List (List ℕ)) (m : Map (List Bytes)) → All (Permᴰ m) (ticks_of orders m)
ticks_of-Permᴰ [] m = tt
ticks_of-Permᴰ (ks ∷ orders) m = (range_order-Permᴰ ks m, ticks_of-Permᴰ orders m)

length-ticks_of :
    (orders : List (List ℕ)) (m : Map (List Bytes)) → length (ticks_of orders m) ≡ length orders
length-ticks_of [] m = refl
length-ticks_of (ks ∷ orders) m = ap suc (length-ticks_of orders m)

module _ {W E Seconds : Type 0} (o : Outside W E Seconds) where
  -- All that the start needs is there; the world is then `before_loop`.
  pub record IsReady (w : W) (s : Started o) (before_loop : W) : Type 0 where
    pub with_health : W
    pub with_storage : W
    pub health : Health.set o.files health_file w ≡ (none, with_health)
    pub storage : o.new_storage with_health ≡ (none, with_storage)
    pub target : init_kube_data o.surroundings ≡ initialized s.kube_data
    pub connected : connect o.in_cluster_config o.new_for_config with_storage ≡ (none, before_loop)
    pub deployment :
        get_data_from_deployment (o.get_deployment before_loop) s.kube_data ≡ some s.deployment_data
    pub options : parse_monitoring_opts o.unescape o.monitoring_options ≡ ok s.opts_map

  pub start-eq-ok : (w w' : W) (s : Started o) → IsReady w s w' → start o w ≡ (ok s, w')
  unfolding start
  start-eq-ok w w' s r =
      rw (r.health, r.storage, r.target, r.connected, r.deployment, r.options) refl

  after_loop-returned :
      (r : LoopEnd × W)
      → r.0 ≡ context_error
      → after_loop o r ≡ (returned, (Health.reset o.files health_file r.1).1)
  after_loop-returned (context_error, w) e = refl
  after_loop-returned (waiting, w) e = absurd (ground arith)

  after_loop-waiting : (r : LoopEnd × W) → r.0 ≡ waiting → after_loop o r ≡ (awaiting_tick, r.1)
  after_loop-waiting (context_error, w) e = absurd (ground arith)
  after_loop-waiting (waiting, w) e = refl

  -- How far `main` has come on the visits of the ticks: it waits behind all of them, the health file
  -- Behind the visits of all ticks `main` waits, in the world that the checks left; where the context
  -- was done when a further check would start, it has returned and made its deferred call.
  abbrev pub CameTo : LoopEnd → W → End × W → Type 0
  CameTo end w' r =
      ((end ≡ waiting) × (r ≡ (awaiting_tick, w')))
      ⊎ ((end ≡ context_error) × (r ≡ (returned, (Health.reset o.files health_file w').1)))

  main-CameTo :
      (w before_loop : W) (s : Started o) (ticks : List (List Visit))
      → ticks_of o.orders s.opts_map ≡ ticks
      → start o w ≡ (ok s, before_loop)
      → Run o.ctx_done
          (check_integrity o s.kube_data s.deployment_data)
          (all_visits ticks)
          before_loop
          (run_check_integrity o.ctx_done
            (check_integrity o s.kube_data s.deployment_data)
            ticks
            before_loop).0
          (run_check_integrity o.ctx_done
            (check_integrity o s.kube_data s.deployment_data)
            ticks
            before_loop).1
      → CameTo
          (run_check_integrity o.ctx_done
            (check_integrity o s.kube_data s.deployment_data)
            ticks
            before_loop).0
          (run_check_integrity o.ctx_done
            (check_integrity o s.kube_data s.deployment_data)
            ticks
            before_loop).1
          (main o w)
  unfolding main
  main-CameTo w before_loop s ticks visited started run =
      let loop =
        run_check_integrity o.ctx_done (check_integrity o s.kube_data s.deployment_data) ticks
          before_loop in
      elim run.ended [
        | inl (e, all) ↦ inl (e, rw (started, visited) (after_loop-waiting loop e))
        | inr (e, more, done) ↦ inr (e, rw (started, visited) (after_loop-returned loop e))
      ]

  -- If the health file can be created, the storage and the cluster can be reached, the pod's name has a
  -- deployment, which is there, and the options are in order, then `main` comes to its loop. There
  -- each tick visits every process of the options once, in some order; as `Run` says, the processes
  -- visited are checked in turn, each with the context live, until a check would start with the
  -- context done. Then `main` has returned and its last call is to take the health file away; if no
  -- check would, all visits of all ticks are made, and `main` waits for the next tick, in the world that
  -- the checks left.
  pub main-runs :
      (w before_loop : W) (s : Started o)
      → IsReady w s before_loop
      → (ticks : List (List Visit)) × (length ticks ≡ length o.orders)
        × All (Permᴰ s.opts_map) ticks
        × ((end : LoopEnd) × (w' : W) × Run o.ctx_done
              (check_integrity o s.kube_data s.deployment_data)
              (all_visits ticks)
              before_loop
              end
              w'
            × CameTo end w' (main o w))
  main-runs w before_loop s r =
      let ticks = ticks_of o.orders s.opts_map in
      let run =
        run_check_integrity-Run o.ctx_done (check_integrity o s.kube_data s.deployment_data) ticks
          before_loop in
      (
        ticks,
        length-ticks_of o.orders s.opts_map,
        ticks_of-Permᴰ o.orders s.opts_map,
        (_, _, run, main-CameTo w before_loop s ticks refl (start-eq-ok w before_loop s r) run),
      )

  -- Whether the health file is there, through the calls of the start.
  pub record Tracks (healthy : W → Bool) : Type 0 where
    pub created :
        (w : W)
        → (Health.set o.files health_file w).0 ≡ none
        → healthy (Health.set o.files health_file w).1 ≡ true
    pub storage_keeps : (w : W) → healthy (o.new_storage w).1 ≡ healthy w
    pub connect_keeps :
        (w : W) → healthy (connect o.in_cluster_config o.new_for_config w).1 ≡ healthy w

  -- A start that ends in a fatal error leaves the health file, unless that could not be created:
  -- `log.Fatal` makes no deferred call, and the file is not taken away. The calls to the storage and
  -- to the cluster leave the file alone.
  pub fatal_leaves_health :
      (healthy : W → Bool) (w : W) (f : Fatal)
      → Tracks healthy
      → (main o w).0 ≡ halted (exits f)
      → f ≢ health_failed
      → healthy (main o w).1 ≡ true
  unfolding main start
  fatal_leaves_health healthy w f t h ne =
      let w1 = (Health.set o.files health_file w).1 in
      let w2 = (o.new_storage w1).1 in
      ground (arith, t.created w, t.storage_keeps w1, t.connect_keeps w2)
