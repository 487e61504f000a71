-- ===== src/Pipeline/Timeout.antt =====
-- A scan of the snapshot tool that meets its timeout (`scan-dir-timeout` of `HashDir` in
-- internal/integritymonitor/snapshot.go): the worker pool stops early.
use integrity_sum.Base.{
  ℕ, zero, suc, ◌≡◌, refl, sym, ap, subst, ◌∙◌, inl, inr, true, false, List, [], ◌∷◌, ◌++◌, Option,
  none, some, Bytes, All, arith, append_assoc, append-nil, map, Option-cases,
}
use integrity_sum.Worker.{FileHash}
use integrity_sum.Worker.Files.{hashes_of}
use integrity_sum.Pool.{
  Pool, pool, Phase, idle, returned, idle_workers, hashed, skipped, stopped, put, received,
  finished, Steps, here, step, started, IsReturned, IsOver, delivered,
}
use integrity_sum.Snapshot.{exists, Host, root_path_of, strip, calculate_and_write_hashes}
use integrity_sum.Snapshot.RoundTrip.{file_text}
use integrity_sum.Snapshot.OneDirectory.{one_dir_written}

module _ (hash_of : Bytes → Option Bytes) (s : Pool) where
  -- The first worker hashes these files, and the reader takes each item at once.
  served :
      (vs rest : List Bytes) (us : List Phase) (r : List FileHash)
      → Steps hash_of false s (pool (vs ++ rest) (idle ∷ us) r [])
      → Steps hash_of false s (pool rest (idle ∷ us) (r ++ hashes_of hash_of vs) [])
  unfolding hashes_of
  served [] rest us r run =
      subst (λ r. Steps hash_of false s (pool rest (idle ∷ us) r [])) (sym (append-nil r)) run
  served (v ∷ vs) rest us r run = elim (Option-cases (hash_of v)) [
    | inl e ↦ rw e (served vs rest us r (step run (skipped {v = v} [] us e)))
    | inr (h, e) ↦
        (let x : FileHash = record { path = v; hash = h } in
          let again = served vs rest us (r ++ x ∷ []) (
            step (step (step run (hashed {v = v} {h = h} [] us e)) (put x [] us (omega arith)))
              received) in
          rw e (
            subst (λ r. Steps hash_of false s (pool rest (idle ∷ us) r []))
              (append_assoc r (x ∷ []) (hashes_of hash_of vs)) again))
  ]

-- Workers that have returned.
abbrev gone : ℕ → List Phase
gone zero = []
gone (suc n) = returned ∷ gone n

gone_more : (n : ℕ) (us : List Phase) → gone n ++ returned ∷ us ≡ gone (suc n) ++ us
gone_more zero us = refl
gone_more (suc n) us = ap (λ ws. returned ∷ ws) (gone_more n us)

gone-Returned : (n : ℕ) → All IsReturned (gone n)
gone-Returned zero = tt
gone-Returned (suc n) = (refl, gone-Returned n)

module _ (hash_of : Bytes → Option Bytes) (s : Pool) (r : List FileHash) where
  -- The context is done: each worker takes a name and returns, or returns at the end of the names.
  all_return :
      (n k : ℕ) (vs : List Bytes)
      → Steps hash_of true s (pool vs (gone k ++ idle_workers n) r [])
      → (t : Pool) × Steps hash_of true s t × IsOver t × (delivered t ≡ r)
  all_return zero k vs run = (
    pool vs (gone k) r [],
    subst (λ ws. Steps hash_of true s (pool vs ws r [])) (append-nil (gone k)) run,
    (gone-Returned k, refl),
    refl,
  )
  all_return (suc n) k [] run = all_return n (suc k) [] (
      subst (λ ws. Steps hash_of true s (pool [] ws r [])) (gone_more k (idle_workers n))
        (step run (finished (gone k) (idle_workers n))))
  all_return (suc n) k (v ∷ vs) run = all_return n (suc k) vs (
      subst (λ ws. Steps hash_of true s (pool vs ws r [])) (gone_more k (idle_workers n))
        (step run (stopped {v = v} (gone k) (idle_workers n) refl)))

-- A scan of one directory that meets its timeout: whatever part of the directory's files comes first
-- and has been hashed before, the pool can end there, and then the snapshot tool writes the records of
-- that part alone and reports no error, if the file can be made and written.
pub timeout_truncates_snapshot :
    (hash_of : Bytes → Option Bytes) (n : ℕ) (first rest : List Bytes) (h : Host)
    (before : Option Bytes) (dir : Bytes)
    → h.dirs ≡ dir ∷ []
    → h.stat (root_path_of h ++ dir) ≡ exists
    → h.can_create ≡ true
    → ((file text : Bytes) → h.accepts file text ≡ true)
    → h.scan (root_path_of h ++ dir) ≡ hashes_of hash_of first
    → (s : Pool) × (t : Pool) × Steps hash_of false (started (suc n) (first ++ rest)) s
      × Steps hash_of true s t
      × IsOver t
      × (delivered t ≡ h.scan (root_path_of h ++ dir))
      × (calculate_and_write_hashes h before
          ≡ (some (file_text (map (strip (root_path_of h)) (hashes_of hash_of first))), none))
timeout_truncates_snapshot hash_of n first rest h before dir one there can accepts scan =
    let s = pool rest (idle ∷ idle_workers n) (hashes_of hash_of first) [] in
    let run =
      served hash_of (started (suc n) (first ++ rest)) first rest (idle_workers n) [] here in
    let (t, stops, over, got) =
      all_return hash_of s (hashes_of hash_of first) (suc n) 0 rest here in
    (
      s,
      t,
      run,
      stops,
      over,
      got ∙ sym scan,
      one_dir_written h accepts before dir one there can
          ∙ ap (λ f. (some (file_text (map (strip (root_path_of h)) f)), none)) scan,
    )
