-- ===== src/Response.antt =====
-- `integrityCheckFailed` of internal/integritymonitor/integritymonitor.go: what the monitor does about
-- an error of a check. The world `W` is what the alert senders and the Kubernetes API act on.
pub mod Restart
mod Tests
use integrity_sum.Base.{List, ◌++◌, Option, Bytes, codes}
use integrity_sum.Alerts.{Alert, Sender, new_alert, send}
use integrity_sum.K8s.{KubeData, DeploymentData, restart_pod}
use integrity_sum.Monitor.{
  IntegrityError, CheckError, process_path_failed, sum_file_failed, load_failed, hash_data_failed,
  integrity, error_text,
}

module _ {W E : Type 0} (registry : List (Sender W E))
    (delete_pod : Bytes → Bytes → W → Option E × W) (k : KubeData) where
  -- The alert for an integrity error, at the time `now`.
  pub alert_for : Bytes → DeploymentData → Bytes → IntegrityError → Alert
  alert_for now d proc_name e =
      new_alert now (codes "Restart pod " ++ d.name_pod) (error_text e) e.path proc_name

  -- `errors.As(err, &integrityError)` holds of integrity errors alone; the errors of `alerts.Send`
  -- and of `RestartPod` are logged or dropped.
  unfoldable pub integrity_check_failed : Bytes → CheckError → DeploymentData → Bytes → W → W
  integrity_check_failed now (integrity e) d proc_name w =
      let sent = send registry (alert_for now d proc_name e) w in
      (restart_pod delete_pod k sent.1).1
  integrity_check_failed now (process_path_failed e) d proc_name w = w
  integrity_check_failed now (sum_file_failed e) d proc_name w = w
  integrity_check_failed now load_failed d proc_name w = w
  integrity_check_failed now (hash_data_failed e) d proc_name w = w
