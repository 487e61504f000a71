-- ===== src/Controller.antt =====
-- snapshot-controller/main.go: the start of the controller. The calls of controller-runtime act on a
-- world of type `W`.
use integrity_sum.Base.{ℕ, ◌≡◌, refl, Bool, false, [], ◌∷◌, Option, none, some, Bytes, codes}
use integrity_sum.Configs.{text, switch, number, FlagSet}

-- The flags of the program, with their defaults.
abbrev pub flags : FlagSet
flags =
    (codes "metrics-bind-address", text (codes ":8080"))
    ∷ (codes "health-probe-bind-address", text (codes ":8081"))
    ∷ (codes "leader-elect", switch false)
    ∷ (codes "minio-host", text (codes "minio.minio.svc.cluster.local:9000"))
    ∷ (codes "v", number 0)
    ∷ []

-- The values of the flags.
pub record Values : Type 0 where
  pub metrics_addr : Bytes
  pub enable_leader_election : Bool
  pub probe_addr : Bytes
  pub minio_host : Bytes
  pub verbose_level : ℕ

-- `ctrl.Options`
pub record ManagerOptions : Type 0 where
  pub metrics_bind_address : Bytes
  pub port : ℕ
  pub health_probe_bind_address : Bytes
  pub leader_election : Bool
  pub leader_election_id : Bytes

abbrev pub options_of : Values → ManagerOptions
options_of v = record {
  metrics_bind_address = v.metrics_addr;
  port = 9443;
  health_probe_bind_address = v.probe_addr;
  leader_election = v.enable_leader_election;
  leader_election_id = codes "8c851b39.integrity";
}

pub record ManagerCalls (W E : Type 0) : Type 0 where
  pub set : Bytes → Bytes → W → W
  pub new_manager : ManagerOptions → W → Option E × W
  -- `SetupWithManager`, which registers the reconciler for `Snapshot` objects
  pub setup_with_manager : ℕ → W → Option E × W
  pub add_healthz_check : Bytes → W → Option E × W
  pub add_readyz_check : Bytes → W → Option E × W
  -- `mgr.Start`, which returns when the manager has ended
  pub start : W → Option E × W

-- `os.Exit(1)`, or the end of `main`
pub data MainEnd : Type 0 where
  exit_1 ended : MainEnd

module _ {W E : Type 0} (c : ManagerCalls W E) where
  abbrev or_exit : Option E × W → (W → MainEnd × W) → MainEnd × W
  or_exit (some e, w) next = (exit_1, w)
  or_exit (none, w) next = next w

  -- `main`, behind the flags
  unfoldable pub main : Values → W → MainEnd × W
  main v w =
      or_exit (c.new_manager (options_of v) (c.set (codes "minio-host") v.minio_host w)) (λ w.
        or_exit (c.setup_with_manager v.verbose_level w) (λ w.
          or_exit (c.add_healthz_check (codes "healthz") w) (λ w.
            or_exit (c.add_readyz_check (codes "readyz") w)
              (λ w. or_exit (c.start w) (λ w. (ended, w))))))

  -- The worlds behind the calls, each of which succeeds.
  pub record IsUp (v : Values) (w w' : W) : Type 0 where
    pub with_manager : W
    pub with_controller : W
    pub with_health : W
    pub with_ready : W
    pub created :
        c.new_manager (options_of v) (c.set (codes "minio-host") v.minio_host w)
        ≡ (none, with_manager)
    pub set_up : c.setup_with_manager v.verbose_level with_manager ≡ (none, with_controller)
    pub healthy : c.add_healthz_check (codes "healthz") with_controller ≡ (none, with_health)
    pub ready : c.add_readyz_check (codes "readyz") with_health ≡ (none, with_ready)
    pub ran : c.start with_ready ≡ (none, w')

  -- The program comes to its end, and then with no status of its own, if the manager was made with the
  -- options of the flags, the reconciler and the two checks were registered with it, and it ran and
  -- stopped without an error.
  main-ends : (v : Values) (w w' : W) → IsUp v w w' → main v w ≡ (ended, w')
  unfolding main
  main-ends v w w' up = rw (up.created, up.set_up, up.healthy, up.ready, up.ran) refl

  -- A call that fails ends it with status 1, and no later call is made.
  main_fails_early :
      (v : Values) (w w1 : W) (e : E)
      → c.new_manager (options_of v) (c.set (codes "minio-host") v.minio_host w) ≡ (some e, w1)
      → main v w ≡ (exit_1, w1)
  unfolding main
  main_fails_early v w w1 e failed = rw failed refl
