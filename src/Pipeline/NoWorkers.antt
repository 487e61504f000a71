-- ===== src/Pipeline/NoWorkers.antt =====
-- The pool of internal/worker/workers.go with no workers, and what the monitor makes of it.
use integrity_sum.Base.{
  ℕ, ◌≡◌, ◌≢◌, refl, sym, ◌∙◌, inl, inr, Bool, List, [], ◌∷◌, ◌++◌, Option, none, some, Bytes,
  arith, same_refl, Option-cases,
}
use integrity_sum.Base.Map.{Map, lookup}
use integrity_sum.Checksums.{HashDataOutput}
use integrity_sum.Pool.{
  Pool, pool, Phase, idle, holding, Step, hashed, skipped, stopped, put, received, finished, Steps,
  here, step, started, delivered,
}
use integrity_sum.Monitor.{
  IntegrityError, err_type_file_deleted, integrity, failed, expected_map, IsRange, compare_records,
  compare_loop,
}
use integrity_sum.Monitor.Verdicts.{recorded, lookup-expected}

-- No worker, nothing received, and nothing in the buffer.
abbrev IsDead : Pool → Type 0
IsDead (pool vs ws r b) = (ws ≡ []) × (r ≡ []) × (b ≡ [])

not-nil : (ws us : List Phase) (w : Phase) → ws ++ w ∷ us ≡ [] → ⊥
not-nil [] us w e = ground (arith, e)
not-nil (v ∷ ws) us w e = ground (arith, e)

module _ (hash_of : Bytes → Option Bytes) (pool_done : Bool) where
  Step-IsDead : {s t : Pool} → Step hash_of pool_done s t → IsDead s → IsDead t
  Step-IsDead (hashed ws us e) (none_left, _, _) = absurd (not-nil ws us idle none_left)
  Step-IsDead (skipped ws us e) (none_left, _, _) = absurd (not-nil ws us idle none_left)
  Step-IsDead (stopped ws us e) (none_left, _, _) = absurd (not-nil ws us idle none_left)
  Step-IsDead (put x ws us room) (none_left, _, _) = absurd (not-nil ws us (holding x) none_left)
  Step-IsDead received (_, _, e) = absurd (ground (arith, e))
  Step-IsDead (finished ws us) (none_left, _, _) = absurd (not-nil ws us idle none_left)

  Steps-IsDead : {s t : Pool} → Steps hash_of pool_done s t → IsDead s → IsDead t
  Steps-IsDead here d = d
  Steps-IsDead (step run st) d = Step-IsDead st (Steps-IsDead run d)

IsDead-delivered : (s : Pool) → IsDead s → delivered s ≡ []
IsDead-delivered (pool vs ws r b) (_, e, _) = e

recorded_head :
    (r : HashDataOutput) (rs : List HashDataOutput)
    → (h : Bytes) × (recorded r.full_file_name (r ∷ rs) ≡ some h)
unfolding recorded
recorded_head r rs = elim (Option-cases (recorded r.full_file_name rs)) [
  | inl e ↦ (r.hash, rw (e, same_refl r.full_file_name) refl)
  | inr (h, e) ↦ (h, rw e refl)
]

module _ (range : Map Bytes → Option (Bytes × Bytes)) (is_range : IsRange range) where
  range-none : (m : Map Bytes) (k h : Bytes) → lookup k m ≡ some h → range m ≢ none
  unfolding lookup
  range-none [] k h e none_first = ground (arith, e)
  range-none ((j, v) ∷ m) k h e none_first = is_range.of_entry j v m none_first

  -- With no worker, whatever files there are and however long the check waits for them, the pool
  -- delivers nothing, and if the snapshot has a record, the check reports a recorded file as deleted.
  pub no_workers_report_deleted :
      (hash_of : Bytes → Option Bytes) (pool_done : Bool) (ctx_done : ℕ → Bool) (vs : List Bytes)
      (s : Pool) (proc_dirs : Bytes) (r : HashDataOutput) (rs : List HashDataOutput)
      → Steps hash_of pool_done (started 0 vs) s
      → (e : IntegrityError) × (compare_records range ctx_done proc_dirs (delivered s) (r ∷ rs)
          ≡ failed (integrity e))
        × (e.kind ≡ err_type_file_deleted)
        × (recorded e.path (r ∷ rs) ≡ some e.hash)
  unfolding compare_records compare_loop recorded
  no_workers_report_deleted hash_of pool_done ctx_done vs s proc_dirs r rs run =
      let nothing = IsDead-delivered s (Steps-IsDead hash_of pool_done run (refl, refl, refl)) in
      elim (Option-cases (range (expected_map (r ∷ rs) []))) [
        | inl none_first ↦
            (let (h, e) = recorded_head r rs in
              absurd (
                range-none (expected_map (r ∷ rs) []) r.full_file_name h
                  (lookup-expected r.full_file_name (r ∷ rs) ∙ e) none_first))
        | inr ((p, h), first) ↦ (
          record { kind = err_type_file_deleted; path = p; hash = h },
          (rw (nothing, first) refl),
          refl,
          sym (lookup-expected p (r ∷ rs)) ∙ is_range.entry (expected_map (r ∷ rs) []) p h first,
        )
      ]
