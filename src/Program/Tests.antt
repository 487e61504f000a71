-- ===== src/Program/Tests.antt =====
-- A monitor that starts, checks once, and sees that it is shut down; and one without a storage.
use mathlib.Core.List.{Permᴰ}
use integrity_sum.Base.{
  ◌≡◌, refl, Bool, true, false, List, [], ◌∷◌, ◌++◌, Option, none, some, Bytes, codes, arith, same,
  All, length,
}
use integrity_sum.Base.Map.{lookup, insert, delete}
use integrity_sum.Base.Result.{ok}
use integrity_sum.Strings.Split.{split, join}
use integrity_sum.Strings.Trim.{trim_space}
use integrity_sum.Strings.Cutset.{trim}
use integrity_sum.Strings.Quote.{unquote}
use integrity_sum.Strings.Decimal.{pos}
use integrity_sum.K8s.{
  connect, KubeData, target_name_of, init_kube_data, get_data_from_deployment, last_image,
}
use integrity_sum.Check.{passed}
use integrity_sum.Splunk.{Http}
use integrity_sum.Options.{paths_of, parse_process, parse_processes, parse_monitoring_opts}
use integrity_sum.Health
use integrity_sum.Health.{Files}
use integrity_sum.Program.{
  LoopEnd, storage_failed, exits, halted, Visit, Outside, Started, check_integrity, main,
}
use integrity_sum.Program.Loop.{all_visits, Run}
use integrity_sum.Senders.{Network, AlertError}
use integrity_sum.Program.Quiet.{with_effects, passing_monitor_is_quiet}
use integrity_sum.Program.Start.{IsReady, CameTo, main-runs, Tracks, fatal_leaves_health}

-- Whether the health file is there, and the processes checked so far.
pub record World : Type 0 where
  pub healthy : Bool
  pub checked : List Bytes

abbrev silent : Http World Bytes Bytes
silent = record {
  seconds = λ t. t;
  marshal = λ e. ok [];
  new_request = λ uri text. none;
  post = λ uri auth text w. (ok (record { status_code = 200; body = ok [] }), w);
}

abbrev after_first : List Bytes → Bool
after_first [] = false
after_first (p ∷ ps) = true

abbrev outside : Option Bytes → Outside World Bytes Bytes
outside storage = record {
  flags = record {
    splunk_enabled = false;
    splunk_url = [];
    splunk_token = [];
    splunk_insecure_skip_verify = false;
    syslog_enabled = false;
    syslog_host = codes "localhost";
    syslog_port = pos 514;
    syslog_proto = codes "tcp";
  };
  monitoring_options = codes "nginx=/etc redis=/bin";
  unescape = λ s. none;
  surroundings = record {
    namespace_bytes = codes "ns";
    pod_name = codes "app-1-2";
    deployment_type = [];
    pod_namespace = codes "ns";
  };
  network = record {
    http = λ skip. silent;
    host_name = codes "app-1-2";
    program = codes "integritySum";
    process_image = [];
    pod_namespace = codes "ns";
    cluster_name = codes "local";
    now = λ w. codes "now";
    pid = 1;
    dial = λ proto address w. none;
    written = λ text w. w;
  };
  files = record {
    create = λ f w. (none, record w { healthy = true });
    close = λ f w. (none, w);
    remove = λ f w. (none, record w { healthy = false });
  };
  new_storage = λ w. (storage, w);
  in_cluster_config = λ w. (none, w);
  new_for_config = λ w. (none, w);
  get_deployment = λ w ns n.
      some (record { creation_timestamp = []; images = codes "app:1" ∷ []; annotations = [] });
  delete_pod = λ ns n w. (none, w);
  pidof = λ p w. some (codes "17");
  answer = λ p paths w. (passed 2, record w { checked = w.checked ++ p ∷ [] });
  orders = [] ∷ (1 ∷ []) ∷ [];
  ctx_done = λ w. after_first w.checked;
}

abbrev pub fresh : World
fresh = record { healthy = false; checked = [] }

abbrev with_file : World
with_file = record { healthy = true; checked = [] }

abbrev pub monitor : Outside World Bytes Bytes
monitor = outside none

abbrev pub kube : KubeData
kube = record {
  namespace = codes "ns";
  target_name = codes "app";
  target_type = [];
  pod_name = codes "app-1-2";
  pod_namespace = codes "ns";
}

abbrev pub monitor_started : Started monitor
monitor_started = record {
  kube_data = kube;
  deployment_data = record {
    image = codes "app:1";
    name_pod = codes "app-1-2";
    timestamp = [];
    name_deployment = codes "app";
    release_name = [];
    name_space = codes "ns";
  };
  opts_map = (codes "redis", codes "/bin" ∷ []) ∷ (codes "nginx", codes "/etc" ∷ []) ∷ [];
}

ready : IsReady monitor fresh monitor_started with_file
unfolding init_kube_data target_name_of get_data_from_deployment last_image lookup
    parse_monitoring_opts parse_processes parse_process paths_of split join trim trim_space unquote
    insert delete same Health.set connect
ready = record {
  with_health = with_file;
  with_storage = with_file;
  health = refl;
  storage = refl;
  target = refl;
  connected = refl;
  deployment = refl;
  options = refl;
}

main-runs_example :
    (ticks : List (List Visit)) × (length ticks ≡ length monitor.orders)
    × All (Permᴰ monitor_started.opts_map) ticks
    × ((end : LoopEnd) × (w' : World) × Run monitor.ctx_done
          (check_integrity monitor monitor_started.kube_data monitor_started.deployment_data)
          (all_visits ticks)
          with_file
          end
          w'
        × CameTo monitor end w' (main monitor fresh))
main-runs_example = main-runs monitor fresh with_file monitor_started ready

-- Without a storage the program exits, and the file stays.
abbrev unstored : Outside World Bytes Bytes
unstored = outside (some (codes "refused"))

exits_early : (main unstored fresh).0 ≡ halted (exits storage_failed)
unfolding main Health.set
exits_early = refl

unstored-Tracks : Tracks unstored (λ w. w.healthy)
unfolding Health.set connect
unstored-Tracks = record {
  created = λ w h. refl;
  storage_keeps = λ w. refl;
  connect_keeps = λ w. refl;
}

fatal_leaves_health_example : (main unstored fresh).1.healthy ≡ true
fatal_leaves_health_example =
    fatal_leaves_health unstored (λ w. w.healthy) fresh storage_failed unstored-Tracks exits_early
      (λ e. ground arith)

-- The same monitor with another network, and a way to delete pods that shows.
abbrev elsewhere : Network World Bytes Bytes
elsewhere = record monitor.network { host_name = codes "elsewhere" }

abbrev delete_all : Bytes → Bytes → World → Option (AlertError Bytes) × World
delete_all ns n w = (none, fresh)

passing_monitor_is_quiet_example :
    main monitor fresh ≡ main (with_effects monitor elsewhere delete_all) fresh
passing_monitor_is_quiet_example =
    passing_monitor_is_quiet monitor elsewhere delete_all (λ proc paths w e x. ground (arith, x))
      fresh with_file monitor_started ready
