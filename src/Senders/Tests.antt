-- ===== src/Senders/Tests.antt =====
-- A collector that refuses and a syslog server that takes everything.
use integrity_sum.Base.{true, List, [], ◌∷◌, Option, none, some, Bytes, codes}
use integrity_sum.Base.Result.{ok}
use integrity_sum.Strings.Decimal.{pos}
use integrity_sum.Alerts.{Alert}
use integrity_sum.K8s.{DeploymentData}
use integrity_sum.Splunk.{Http}
use integrity_sum.Senders.{Flags, Network}

abbrev refusing : Http (List Bytes) Bytes Bytes
refusing = record {
  seconds = λ t. t;
  marshal = λ e. ok e.event.path;
  new_request = λ uri text. none;
  post = λ uri auth text w. (ok (record { status_code = 503; body = ok (codes "busy") }), text ∷ w);
}

abbrev kept : Option Bytes → List Bytes → List Bytes
kept none w = w
kept (some text) w = text ∷ w

abbrev pub network : Network (List Bytes) Bytes Bytes
network = record {
  http = λ skip. refusing;
  host_name = codes "app-1-2";
  program = codes "integritySum";
  process_image = [];
  pod_namespace = codes "ns";
  cluster_name = codes "local";
  now = λ w. codes "now";
  pid = 1;
  dial = λ proto address w. some (λ text. true);
  written = kept;
}

abbrev pub both_enabled : Flags
both_enabled = record {
  splunk_enabled = true;
  splunk_url = codes "http://splunk";
  splunk_token = codes "secret";
  splunk_insecure_skip_verify = true;
  syslog_enabled = true;
  syslog_host = codes "localhost";
  syslog_port = pos 514;
  syslog_proto = codes "tcp";
}

abbrev deployment : DeploymentData
deployment = record {
  image = codes "app:1";
  name_pod = codes "app-1-2";
  timestamp = [];
  name_deployment = codes "app";
  release_name = [];
  name_space = codes "ns";
}

abbrev alert : Alert
alert = record {
  time = codes "now";
  message = codes "Restart pod p";
  reason = codes "new file found";
  path = codes "app/x";
  process_name = codes "nginx";
}
