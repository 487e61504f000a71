-- ===== src/Pipeline/Tests/Changed.antt =====
-- A file of the process has changed since the snapshot.
use integrity_sum.Base.{
  ◌≡◌, ◌≢◌, refl, false, List, [], ◌∷◌, Option, none, some, Bytes, codes, same, arith,
  if◌then◌else◌,
}
use integrity_sum.Base.Map.{lookup, insert, delete}
use integrity_sum.Strings.Search.{trim_prefix, has_prefix, contains}
use integrity_sum.Strings.Split.{split}
use integrity_sum.Strings.Trim.{trim_space}
use integrity_sum.Strings.Lower.{to_lower}
use integrity_sum.Strings.Lines.{scan_lines}
use integrity_sum.Strings.Decimal.{atoi, format_int, format_nat}
use integrity_sum.Worker.{FileHash}
use integrity_sum.Worker.Files.{hashes_of}
use integrity_sum.Checksums.{get, parse_record}
use integrity_sum.Process.{get_pid, process_path, get_process_path, check_sum_file}
use integrity_sum.Snapshot.{exists}
use integrity_sum.Snapshot.Output.{all_hashes}
use integrity_sum.Snapshot.Tests.{host, written, snapshot_is_written, All-IsRecordable}
use integrity_sum.Monitor.{
  IntegrityError, err_type_file_mismatch, failed, integrity, compare_hashes, prepare,
  compare_records, compare_loop, expected_map,
}
use integrity_sum.Monitor.Loop.{files}
use integrity_sum.Monitor.Tests.{first_entry, first_entry-IsRange, never}
use integrity_sum.Pool.{returned, pool, started, hashed, put, received, finished, Steps, here, step}
use integrity_sum.Check.{found_error, waiting, sending, ended, check, begun, finds, takes_error}
use integrity_sum.Check
use integrity_sum.Alerts.Delivery.{after}
use integrity_sum.Response.{alert_for}
use integrity_sum.Senders.{registered}
use integrity_sum.Program.{react}
use integrity_sum.Program.Tests.{monitor, monitor_started, fresh, kube}
use integrity_sum.Pipeline.Alarm.{change_restarts_pod}
use integrity_sum.Pipeline.Tests.{nginx, nginx_root, nginx_file, distinct, found_c, found_a_b}

abbrev changed_hash : Bytes → Option Bytes
changed_hash v = if same v found_c then some (codes "ff") else some (codes "0f")

abbrev result : List FileHash
result =
    record { path = found_a_b; hash = codes "0f" }
    ∷ record { path = found_c; hash = codes "ff" }
    ∷ []

scanned :
    Steps changed_hash false
      (started 1 (found_a_b ∷ found_c ∷ []))
      (pool [] (returned ∷ []) result [])
unfolding same
scanned =
    step
      (step
        (step
          (step
            (step
              (step (step here (hashed {v = found_a_b} {h = codes "0f"} [] [] refl))
                (put (record { path = found_a_b; hash = codes "0f" }) [] [] (omega arith)))
              received)
            (hashed {v = found_c} {h = codes "ff"} [] [] refl))
          (put (record { path = found_c; hash = codes "ff" }) [] [] (omega arith)))
        received)
      (finished [] [])

differs :
    lookup
      (codes "app/c")
      (files (codes "/proc/17/root/") (hashes_of changed_hash (found_a_b ∷ found_c ∷ [])))
    ≢ lookup (codes "app/c") (files [] (all_hashes (host exists) (host exists).dirs))
unfolding lookup files hashes_of all_hashes trim_prefix has_prefix same
differs e = ground (arith, e)

abbrev mismatch_of_c : IntegrityError
mismatch_of_c = record { kind = err_type_file_mismatch; path = codes "app/c"; hash = codes "ff" }

found_by_check :
    compare_hashes first_entry never nginx result (codes "nginx") (codes "SHA256")
    ≡ failed (integrity mismatch_of_c)
unfolding compare_hashes prepare compare_records get_process_path get_pid process_path
    check_sum_file get split trim_space atoi format_int format_nat to_lower lookup insert delete
    same trim_prefix has_prefix contains scan_lines parse_record compare_loop expected_map
found_by_check = refl

checked :
    Check.Steps false
      (compare_hashes first_entry never nginx result (codes "nginx") (codes "SHA256"))
      begun
      (check false (Check.returned (found_error (integrity mismatch_of_c))) ended)
checked =
    Check.step (Check.step Check.here (finds false waiting))
      (takes_error false (integrity mismatch_of_c) found_by_check)

change_restarts_pod_example :
    (e : IntegrityError) × (found_error (integrity mismatch_of_c) ≡ found_error (integrity e))
    × (react monitor kube monitor_started.deployment_data
          (codes "nginx")
          (found_error (integrity mismatch_of_c))
          fresh
        ≡ (monitor.delete_pod kube.pod_namespace kube.pod_name (
            after
              (registered monitor.network monitor.flags monitor_started.deployment_data)
              (alert_for
                (registered monitor.network monitor.flags monitor_started.deployment_data)
                monitor.delete_pod
                kube
                (monitor.network.now fresh)
                monitor_started.deployment_data
                (codes "nginx")
                e)
              fresh)).1)
change_restarts_pod_example =
    change_restarts_pod first_entry first_entry-IsRange never (λ n. refl) monitor kube
      monitor_started.deployment_data fresh (host exists) none written nginx (codes "nginx")
      (codes "SHA256") (codes "/proc/17/root/") (codes "default/nginx/1.24.sha256") (codes "app/c")
      changed_hash 0 (found_a_b ∷ found_c ∷ []) (pool [] (returned ∷ []) result []) false
      (found_error (integrity mismatch_of_c)) ended snapshot_is_written All-IsRecordable distinct
      nginx_root nginx_file refl scanned ((refl, tt), refl) differs checked
