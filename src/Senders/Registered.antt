-- ===== src/Senders/Registered.antt =====
-- The senders that `main` registers, at an alert.
use integrity_sum.Base.{◌&&◌, Option, none, if◌then◌else◌}
use integrity_sum.Alerts.{Alert}
use integrity_sum.K8s.{DeploymentData}
use integrity_sum.Splunk.{send_event}
use integrity_sum.Syslog.{send_record}
use integrity_sum.Senders.{
  Flags, Network, AlertError, both_given, context_of, syslog_client, as_alert_error, splunk_error,
  syslog_error,
}

module _ {W E Seconds : Type 0} (o : Network W E Seconds) (f : Flags) (d : DeploymentData) where
  -- What posting the alert to Splunk does, if that is enabled and configured.
  abbrev pub splunk_part : Alert → W → Option (AlertError E) × W
  splunk_part alert w =
      let r =
        send_event (o.http f.splunk_insecure_skip_verify) f.splunk_url f.splunk_token alert w in
      if f.splunk_enabled && both_given f.splunk_url f.splunk_token
      then (as_alert_error splunk_error r.0, r.1)
      else (none, w)

  -- What writing the record of the alert to syslog does, if that is enabled.
  abbrev pub syslog_part : Alert → W → Option (AlertError E) × W
  syslog_part alert w =
      let c = syslog_client o f d in
      let r = send_record (context_of o c w) (o.dial c.net_type c.address w) alert in
      if f.syslog_enabled then (as_alert_error syslog_error r.0, o.written r.1 w) else (none, w)
