-- ===== src/Response/Restart.antt =====
-- The pod is restarted for an integrity error and for no other, after every sender has been called.
use integrity_sum.Base.{◌≡◌, ◌≢◌, refl, ap, List, Option, Bytes}
use integrity_sum.Alerts.{Sender}
use integrity_sum.Alerts.Delivery.{after, send_reaches_all}
use integrity_sum.K8s.{KubeData, DeploymentData, restart_pod}
use integrity_sum.Monitor.{
  IntegrityError, CheckError, process_path_failed, sum_file_failed, load_failed, hash_data_failed,
  integrity,
}
use integrity_sum.Response.{alert_for, integrity_check_failed}

module _ {W E : Type 0} (registry : List (Sender W E))
    (delete_pod : Bytes → Bytes → W → Option E × W) (k : KubeData) (now : Bytes)
    (d : DeploymentData) (proc_name : Bytes) (w : W) where
  -- For an integrity error the world afterwards is that of one deletion of the monitor's own pod, after
  -- all senders were called with the alert in turn, whether or not they failed. For any other error of
  -- a check nothing happens.
  pub restarts_for_integrity_errors :
      ((e : IntegrityError)
        → integrity_check_failed registry delete_pod k now (integrity e) d proc_name w
          ≡ (delete_pod k.pod_namespace k.pod_name
              (after registry (alert_for registry delete_pod k now d proc_name e) w)).1)
      × ((err : CheckError)
          → ((e : IntegrityError) → err ≢ integrity e)
          → integrity_check_failed registry delete_pod k now err d proc_name w ≡ w)
  unfolding integrity_check_failed restart_pod
  restarts_for_integrity_errors = (
    λ e.
        ap (λ (r : Option (List E) × W). (delete_pod k.pod_namespace k.pod_name r.1).1)
          (send_reaches_all registry (alert_for registry delete_pod k now d proc_name e) w),
    other,
  )
    where
      other :
          (err : CheckError)
          → ((e : IntegrityError) → err ≢ integrity e)
          → integrity_check_failed registry delete_pod k now err d proc_name w ≡ w
      other (integrity e) h = absurd (h e refl)
      other (process_path_failed e) h = refl
      other (sum_file_failed e) h = refl
      other load_failed h = refl
      other (hash_data_failed e) h = refl
