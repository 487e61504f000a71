-- ===== src/Senders.antt =====
-- The senders that `main` of cmd/k8s-integrity-sum/main.go registers, by the flags, and what
-- they do with an alert.
pub mod Registered
mod Tests
use integrity_sum.Base.{
  ℕ, Bool, true, false, ◌&&◌, List, [], ◌∷◌, ◌++◌, Option, none, some, Bytes, codes, if◌then◌else◌,
}
use integrity_sum.Base.Map.{Map}
use integrity_sum.Strings.Decimal.{ℤ, format_int}
use integrity_sum.Alerts.{Alert, Sender, register}
use integrity_sum.K8s.{DeploymentData}
use integrity_sum.Splunk.{Http, send_event}
use integrity_sum.Syslog.{SyslogClient, default_priority, new_client, Context, send_record}
use integrity_sum.Splunk
use integrity_sum.Syslog

-- The flags and variables for alerts.
pub record Flags : Type 0 where
  pub splunk_enabled : Bool
  pub splunk_url : Bytes
  pub splunk_token : Bytes
  pub splunk_insecure_skip_verify : Bool
  pub syslog_enabled : Bool
  pub syslog_host : Bytes
  pub syslog_port : ℤ
  pub syslog_proto : Bytes

-- `AppId`
abbrev pub app_id : Bytes
app_id = codes "integrity-monitor"

-- The two kinds of senders.
pub data Client : Type 0 where
  splunk : Bytes → Bytes → Bool → Client
  syslog : SyslogClient → Client

pub data AlertError (E : Type 0) : Type 0 where
  splunk_error : Splunk.SendError E → AlertError E
  syslog_error : Syslog.SendError → AlertError E

-- What the senders meet outside.
pub record Network (W E Seconds : Type 0) : Type 0 where
  -- the HTTP client, which verifies certificates or skips that
  pub http : Bool → Http W E Seconds
  -- what a syslog record shows
  pub host_name : Bytes
  pub program : Bytes
  pub process_image : Map Bytes
  pub pod_namespace : Bytes
  pub cluster_name : Bytes
  pub now : W → Bytes
  pub pid : ℕ
  -- the connection, if there is one: whether it takes a record; and the world after the record
  pub dial : Bytes → Bytes → W → Option (Bytes → Bool)
  pub written : Option Bytes → W → W

abbrev pub as_alert_error : {E F : Type 0} → (E → F) → Option E → Option F
as_alert_error f none = none
as_alert_error f (some e) = some (f e)

-- `len(splunkUrl) > 0 && len(splunkToken) > 0`
abbrev pub both_given : Bytes → Bytes → Bool
both_given [] token = false
both_given (c ∷ url) [] = false
both_given (c ∷ url) (t ∷ token) = true

module _ {W E Seconds : Type 0} (o : Network W E Seconds) where
  abbrev pub context_of : SyslogClient → W → Context
  context_of c w = record {
    host_name = o.host_name;
    process_image = o.process_image;
    pod_namespace = o.pod_namespace;
    cluster_name = o.cluster_name;
    priority = c.priority;
    now = o.now w;
    hostname = c.hostname;
    tag = c.tag;
    pid = o.pid;
  }

  abbrev pub sender_of : Client → Sender W (AlertError E)
  sender_of (splunk uri token skip) alert w =
      let r = send_event (o.http skip) uri token alert w in (as_alert_error splunk_error r.0, r.1)
  sender_of (syslog c) alert w =
      let r = send_record (context_of c w) (o.dial c.net_type c.address w) alert in
      (as_alert_error syslog_error r.0, o.written r.1 w)

  abbrev with_splunk : Flags → List (Sender W (AlertError E)) → List (Sender W (AlertError E))
  with_splunk f registry =
      if f.splunk_enabled && both_given f.splunk_url f.splunk_token
      then register (sender_of (splunk f.splunk_url f.splunk_token f.splunk_insecure_skip_verify))
          registry
      else registry

  -- The client that is made for a deployment.
  abbrev pub syslog_client : Flags → DeploymentData → SyslogClient
  syslog_client f d =
      new_client o.host_name o.program f.syslog_proto
        (f.syslog_host ++ (b':' ∷ format_int f.syslog_port)) default_priority
        (d.name_deployment ++ (b'.' ∷ d.name_space)) app_id

  abbrev with_syslog :
      Flags → DeploymentData → List (Sender W (AlertError E)) → List (Sender W (AlertError E))
  with_syslog f d registry =
      if f.syslog_enabled
      then register (sender_of (syslog (syslog_client f d))) registry
      else registry

  unfoldable pub registered : Flags → DeploymentData → List (Sender W (AlertError E))
  registered f d = with_syslog f d (with_splunk f [])
