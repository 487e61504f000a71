-- ===== src/Pipeline/Tests/Pools.antt =====
-- A pool with no workers, and a scan that meets its timeout.
use integrity_sum.Base.{◌≡◌, refl, [], ◌∷◌, map, none, some, true, codes, Bytes, Option, false}
use integrity_sum.Snapshot.{exists}
use integrity_sum.Checksums.{output}
use integrity_sum.Monitor.{
  IntegrityError, err_type_file_deleted, integrity, failed, compare_records,
}
use integrity_sum.Monitor.Verdicts.{recorded}
use integrity_sum.Pipeline.NoWorkers.{no_workers_report_deleted}
use integrity_sum.Monitor.Tests.{first_entry, first_entry-IsRange, never}
use integrity_sum.Worker.Files.{hashes_of}
use integrity_sum.Pipeline.Timeout.{timeout_truncates_snapshot}
use integrity_sum.Snapshot.RoundTrip.{file_text}
use integrity_sum.Snapshot.{Host, strip, calculate_and_write_hashes}
use integrity_sum.Pool.{Pool, IsOver, delivered, started, Steps, here}
use integrity_sum.Pipeline.Tests.{file_hash}

-- The start of the pool with no workers, and one record.
no_workers_report_deleted_example :
    (e : IntegrityError) × (compare_records first_entry never
        (codes "/proc/17/root/")
        []
        (output (codes "0f") (codes "etc/a") ∷ [])
      ≡ failed (integrity e))
    × (e.kind ≡ err_type_file_deleted)
    × (recorded e.path (output (codes "0f") (codes "etc/a") ∷ []) ≡ some e.hash)
no_workers_report_deleted_example =
    no_workers_report_deleted first_entry first_entry-IsRange file_hash false never
      (codes "/proc/17/root/etc/a" ∷ []) (started 0 (codes "/proc/17/root/etc/a" ∷ []))
      (codes "/proc/17/root/") (output (codes "0f") (codes "etc/a")) [] here

-- A scan of two files that has its timeout behind the first one.
abbrev hash_all : Bytes → Option Bytes
hash_all v = some (codes "0f")

abbrev short_host : Host
short_host = record {
  root_fs = codes "fs";
  dirs = codes "app" ∷ [];
  can_create = true;
  stat = λ d. exists;
  accepts = λ file text. true;
  partly = λ file text. 0;
  can_remove = true;
  scan = λ d. hashes_of hash_all (codes "fs/app/a" ∷ []);
}

timeout_truncates_snapshot_example :
    (s : Pool) × (t : Pool) × Steps hash_all false
      (started 2 (codes "fs/app/a" ∷ codes "fs/app/b" ∷ []))
      s
    × Steps hash_all true s t
    × IsOver t
    × (delivered t ≡ hashes_of hash_all (codes "fs/app/a" ∷ []))
    × (calculate_and_write_hashes short_host none ≡ (
      some (file_text (map (strip (codes "fs/")) (hashes_of hash_all (codes "fs/app/a" ∷ [])))),
      none,
    ))
timeout_truncates_snapshot_example =
    timeout_truncates_snapshot hash_all 1 (codes "fs/app/a" ∷ []) (codes "fs/app/b" ∷ []) short_host
      none (codes "app") refl refl refl (λ file text. refl) refl
