-- ===== src/Reconciler/System/Tests.antt =====
-- Runs of the system at the cluster in memory.
use integrity_sum.Base.{false, ◌≡◌, refl, true, inl, inr, [], none, some, Bytes, codes, arith, same}
use integrity_sum.Base.Map.{insert, lookup, insert}
use integrity_sum.Reconciler.System.{idle, Change, Event, Steps, here, step, created, acts}
use integrity_sum.ObjectName.{build_object_name}
use integrity_sum.Strings.Split.{split, join}
use integrity_sum.Strings.Lower.{to_lower}
use integrity_sum.Strings.FilePath.{join_path}
use integrity_sum.Reconciler.Tests.{tagged, tagged_name}
use integrity_sum.Reconciler.System.Statuses.{status_is_right}
use integrity_sum.Reconciler.System.Owned.{Tended, adds, Owner}
use integrity_sum.Reconciler.System.Orphans.{no_orphans}
use integrity_sum.Reconciler.System.Heals.{reconcile_heals}
use integrity_sum.Reconciler.System.Runs.{Steps-append, reconcile_runs}
use integrity_sum.Reconciler.{
  Snapshot, finished, needs_upload, reconcile, upload_if_needed, upload_snapshot,
}
use integrity_sum.Reconciler.System.Memory.{
  World, stored, object, calls, world, calls-IsApi, at-own, at-away,
}

abbrev empty : World
empty = world none []

abbrev with_tagged : World
with_tagged = world (some tagged) []

added : Change calls stored object tagged.namespace tagged.name (some tagged) empty with_tagged
added = record {
  objects = λ m. refl;
  own = at-own tagged;
  others = λ j m. elim (at-away j m tagged) [ inl same_key ↦ inl same_key | inr away ↦ inr away ];
}

creation : Steps calls stored object (Event calls stored object) idle empty idle with_tagged
creation =
    step here (acts (created tagged refl refl (λ k n t o e. absurd (ground (arith, e))) added))

reconcile_runs_example :
    Steps calls stored object
      (Event calls stored object)
      idle
      with_tagged
      idle
      (reconcile calls true (codes "default") (codes "s") with_tagged).1
reconcile_runs_example =
    reconcile_runs calls stored object (Event calls stored object) calls-IsApi true
      (codes "default") (codes "s") with_tagged

status_is_right_example :
    (d : Bytes) × (some (codes "MGY=") ≡ some d)
    × (object
          (codes "default/nginx/1.md5")
          (reconcile calls true (codes "default") (codes "s") with_tagged).1
        ≡ some d)
unfolding same reconcile upload_if_needed upload_snapshot build_object_name split join join_path
    to_lower
status_is_right_example =
    status_is_right calls stored object calls-IsApi empty
      (reconcile calls true (codes "default") (codes "s") with_tagged).1 idle (codes "default")
      (codes "s")
      (record tagged { status = record { is_uploaded = true; control_hash = codes "MGY=" } })
      (codes "default/nginx/1.md5") (λ k n. refl)
      (Steps-append calls stored object (Event calls stored object) creation (
        reconcile_runs calls stored object (Event calls stored object) calls-IsApi true
          (codes "default") (codes "s") with_tagged))
      refl refl refl tagged_name

no_orphans_example :
    Owner calls stored object
      (codes "default/nginx/1.md5")
      (reconcile calls true (codes "default") (codes "s") with_tagged).1
unfolding same reconcile upload_if_needed upload_snapshot build_object_name split join join_path
    to_lower lookup insert
no_orphans_example =
    no_orphans calls stored object calls-IsApi empty
      (reconcile calls true (codes "default") (codes "s") with_tagged).1 idle
      (codes "default/nginx/1.md5") (codes "MGY=") (λ k n. refl) (λ o. refl)
      (Steps-append calls stored object (Tended calls stored object)
        (step here (acts (adds tagged refl (inl refl) added)))
        (reconcile_runs calls stored object (Tended calls stored object) calls-IsApi true
          (codes "default") (codes "s") with_tagged))
      refl

abbrev tagged_done : Snapshot
tagged_done = record tagged { status = record { is_uploaded = true; control_hash = codes "MGY=" } }

reconcile_heals_example :
    ((reconcile calls true (codes "default") (codes "s") with_tagged).0 ≡ finished)
    × (object
          (codes "default/nginx/1.md5")
          (reconcile calls true (codes "default") (codes "s") with_tagged).1
        ≡ some (codes "MGY="))
    × (tagged_done.spec ≡ tagged.spec)
    × (needs_upload calls tagged_done ≡ false)
    × (reconcile calls true
          (codes "default")
          (codes "s")
          (reconcile calls true (codes "default") (codes "s") with_tagged).1
        ≡ (finished, (reconcile calls true (codes "default") (codes "s") with_tagged).1))
unfolding same reconcile upload_if_needed upload_snapshot build_object_name split join join_path
    to_lower
reconcile_heals_example =
    reconcile_heals calls stored object calls-IsApi empty with_tagged idle tagged tagged_done
      (codes "default/nginx/1.md5") (codes "MGY=") (λ k n. refl) creation (refl, refl) refl
      tagged_name refl refl refl (refl, refl)
