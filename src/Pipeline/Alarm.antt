-- ===== src/Pipeline/Alarm.antt =====
-- A change of the files, from the walk to the restart of the pod.
use mathlib.Core.List.{Permᴰ}
use integrity_sum.Base.{
  ℕ, suc, ◌≡◌, ◌≢◌, sym, ap, ◌∙◌, Bool, false, List, [], Option, none, some, Bytes, All,
}
use integrity_sum.Base.Map.{Map, lookup}
use integrity_sum.Base.Result.{ok}
use integrity_sum.Worker.{FileHash}
use integrity_sum.Worker.Files.{hashes_of}
use integrity_sum.Process.{get_process_path, check_sum_file}
use integrity_sum.Snapshot.{Host, calculate_and_write_hashes}
use integrity_sum.Snapshot.RoundTrip.{IsRecordable, outputs}
use integrity_sum.Snapshot.Output.{all_hashes, snapshot_is_read_back}
use integrity_sum.Monitor.{IntegrityError, integrity, failed, IsRange, Sources, compare_hashes}
use integrity_sum.Monitor.Loop.{files}
use integrity_sum.Monitor.Verdicts.{Unchanged, changes_are_reported}
use integrity_sum.Monitor.Arrival.{SameFiles-perm}
use integrity_sum.Pool.{Pool, started, Steps, IsOver, delivered}
use integrity_sum.Pool.Delivery.{pool_delivers_all}
use integrity_sum.Check.{Answer, found_error, returned, Comparer, check, begun}
use integrity_sum.Check
use integrity_sum.Check.Races.{answer_to, check_answers}
use integrity_sum.K8s.{KubeData, DeploymentData}
use integrity_sum.Alerts.Delivery.{after}
use integrity_sum.Response.{alert_for}
use integrity_sum.Response.Restart.{restarts_for_integrity_errors}
use integrity_sum.Senders.{registered}
use integrity_sum.Program.{Outside, react}
use integrity_sum.Pipeline.{IsDistinct, recorded-outputs, prepare-eq-ok}

module _ (range : Map Bytes → Option (Bytes × Bytes)) (is_range : IsRange range)
    (ctx_done : ℕ → Bool) (running : (n : ℕ) → ctx_done n ≡ false) where
  -- Some path has another hash in the scan than in the snapshot, or is in one of them only.
  not-Unchanged :
      (vs delivered_vs scanned : List FileHash) (proc_dirs q : Bytes)
      → IsDistinct vs
      → Permᴰ delivered_vs scanned
      → lookup q (files proc_dirs scanned) ≢ lookup q (files [] vs)
      → ¬ Unchanged (files proc_dirs delivered_vs) (outputs vs)
  not-Unchanged vs delivered_vs scanned proc_dirs q distinct p differs u =
      let s = SameFiles-perm proc_dirs p u.distinct in
      differs (sym (s.agree q) ∙ (sym (u.agree q) ∙ recorded-outputs q vs distinct))

  change_is_found :
      (h : Host) (before : Option Bytes) (text : Bytes) (o : Sources)
      (proc_name alg proc_dirs cs_file q : Bytes) (hash_of : Bytes → Option Bytes) (n : ℕ)
      (names : List Bytes) (t : Pool)
      → calculate_and_write_hashes h before ≡ (some text, none)
      → All IsRecordable (all_hashes h h.dirs)
      → IsDistinct (all_hashes h h.dirs)
      → get_process_path o.pidof [] ≡ ok proc_dirs
      → check_sum_file o.unicode_lower o.process_image o.pod_namespace proc_name alg ≡ ok cs_file
      → o.load cs_file ≡ some text
      → Steps hash_of false (started (suc n) names) t
      → IsOver t
      → lookup q (files proc_dirs (hashes_of hash_of names))
        ≢ lookup q (files [] (all_hashes h h.dirs))
      → (e : IntegrityError) × (compare_hashes range ctx_done o (delivered t) proc_name alg
          ≡ failed (integrity e))
  unfolding compare_hashes
  change_is_found h before text o proc_name alg proc_dirs cs_file q hash_of n names t wrote
        recordable distinct pid name load run is_over differs =
      let vs = all_hashes h h.dirs in
      let ready =
        prepare-eq-ok o proc_name alg proc_dirs cs_file text (outputs vs) pid name load
          (snapshot_is_read_back h before text wrote recordable) in
      rw ready (
        changes_are_reported range is_range ctx_done proc_dirs (delivered t) (outputs vs) running (
          not-Unchanged vs (delivered t) (hashes_of hash_of names) proc_dirs q distinct
            (pool_delivers_all hash_of n names t run is_over) differs))

  -- A change ends in a restart. If some path has another hash in the files that the walk of the process
  -- finds than in the snapshot, or is in one of them only, then every run of `CheckIntegrity` that is
  -- not cancelled, on what any finished run of the pool, with at least one worker and a live context,
  -- delivered, answers an integrity error; and for that the monitor sends its alert to all registered senders in turn and then deletes its own pod.
  -- The snapshot tool ended without an error, the object store returns its file, and the snapshot's
  -- files are recordable and have different paths.
  pub change_restarts_pod :
      {W E Seconds : Type 0} (x : Outside W E Seconds) (k : KubeData) (d : DeploymentData) (w : W)
      (h : Host) (before : Option Bytes) (text : Bytes) (o : Sources)
      (proc_name alg proc_dirs cs_file q : Bytes) (hash_of : Bytes → Option Bytes) (n : ℕ)
      (names : List Bytes) (t : Pool) (c : Bool) (a : Answer) (g : Comparer)
      → calculate_and_write_hashes h before ≡ (some text, none)
      → All IsRecordable (all_hashes h h.dirs)
      → IsDistinct (all_hashes h h.dirs)
      → get_process_path o.pidof [] ≡ ok proc_dirs
      → check_sum_file o.unicode_lower o.process_image o.pod_namespace proc_name alg ≡ ok cs_file
      → o.load cs_file ≡ some text
      → Steps hash_of false (started (suc n) names) t
      → IsOver t
      → lookup q (files proc_dirs (hashes_of hash_of names))
        ≢ lookup q (files [] (all_hashes h h.dirs))
      → Check.Steps false
          (compare_hashes range ctx_done o (delivered t) proc_name alg)
          begun
          (check c (returned a) g)
      → (e : IntegrityError) × (a ≡ found_error (integrity e))
        × (react x k d proc_name a w
            ≡ (x.delete_pod k.pod_namespace k.pod_name (
                after
                  (registered x.network x.flags d)
                  (alert_for
                    (registered x.network x.flags d)
                    x.delete_pod
                    k
                    (x.network.now w)
                    d
                    proc_name
                    e)
                  w)).1)
  change_restarts_pod x k d w h before text o proc_name alg proc_dirs cs_file q hash_of n names t c
        a g wrote recordable distinct pid name load run is_over differs checked =
      let (e, found) =
        change_is_found h before text o proc_name alg proc_dirs cs_file q hash_of n names t wrote
          recordable distinct pid name load run is_over differs in
      let answer : a ≡ found_error (integrity e) =
        ((check_answers (compare_hashes range ctx_done o (delivered t) proc_name alg)).0 c a g
          checked).0
        ∙ ap answer_to found in
      (
        e,
        answer,
        ap (λ y. react x k d proc_name y w) answer
            ∙ (restarts_for_integrity_errors (registered x.network x.flags d) x.delete_pod k
                  (x.network.now w) d proc_name w).0
                e,
      )
