-- ===== src/Monitor/Verdicts.antt =====
-- What the verdict of a comparison says about the files and the records.
use integrity_sum.Base.{
  ℕ, ◌≡◌, ◌≢◌, ◌⊎◌, ◌↔◌, inl, inr, refl, sym, subst, ◌∙◌, Bool, false, List, [], ◌∷◌, Option, none,
  some, Bytes, same, if◌then◌else◌, length, arith, Option-cases,
}
use integrity_sum.Base.Map.{Map, lookup, insert, lookup-insert}
use integrity_sum.Worker.{FileHash}
use integrity_sum.Checksums.{HashDataOutput}
use integrity_sum.Monitor.{
  IntegrityError, err_type_file_mismatch, err_type_new_file, err_type_file_deleted, integrity,
  failed, compared, expected_map, LoopEnd, mismatch, new_file, drained, cancelled, compare_loop,
  report_deleted, verdict, IsRange, compare_records,
}
use integrity_sum.Monitor.Loop.{
  files, Distinct, or_else, Entry, Drained, drained_sound, mismatch_sound, new_file_sound,
  drained_complete, not-cancelled,
}

-- The hash that the records give for a path: that of the last record with the path.
unfoldable pub recorded : Bytes → List HashDataOutput → Option Bytes
recorded q [] = none
recorded q (r ∷ rs) =
    or_else (recorded q rs) (if same r.full_file_name q then some r.hash else none)

-- The files are the records: no path came twice, and each path has the recorded hash or neither.
pub record Unchanged (fs : Map Bytes) (rs : List HashDataOutput) : Type 0 where
  pub distinct : Distinct fs
  pub agree : (q : Bytes) → recorded q rs ≡ lookup q fs

-- What an integrity error claims of the files and the records.
pub data Justified (fs : Map Bytes) (rs : List HashDataOutput) (e : IntegrityError) : Type 0 where
  of_mismatch :
      (k : Bytes)
      → e.kind ≡ err_type_file_mismatch
      → Entry fs e.path e.hash
      → recorded e.path rs ≡ some k
      → k ≢ e.hash
      → Justified fs rs e
  of_new_file :
      e.kind ≡ err_type_new_file
      → (x : Entry fs e.path e.hash)
      → ((recorded e.path rs ≡ none) ⊎ (lookup e.path x.before ≢ none))
      → Justified fs rs e
  of_deleted :
      e.kind ≡ err_type_file_deleted
      → recorded e.path rs ≡ some e.hash
      → lookup e.path fs ≡ none
      → Justified fs rs e

lookup-expected_map :
    (q : Bytes) (rs : List HashDataOutput) (m : Map Bytes)
    → lookup q (expected_map rs m) ≡ or_else (recorded q rs) (lookup q m)
unfolding expected_map recorded
lookup-expected_map q [] m = refl
lookup-expected_map q (r ∷ rs) m = ground (
  arith,
  lookup-expected_map q rs (insert r.full_file_name r.hash m),
  lookup-insert r.full_file_name q r.hash m,
)

pub lookup-expected :
    (q : Bytes) (rs : List HashDataOutput) → lookup q (expected_map rs []) ≡ recorded q rs
unfolding lookup
lookup-expected q rs = ground (arith, lookup-expected_map q rs [])

reported :
    (o : Option (Bytes × Bytes)) (c n : ℕ) → report_deleted o c ≡ compared n → (o ≡ none) × (n ≡ c)
reported none c n h = (refl, ground arith)
reported (some (p, k)) c n h = absurd (ground arith)

deleted_entry :
    (o : Option (Bytes × Bytes)) (c : ℕ) (e : IntegrityError)
    → report_deleted o c ≡ failed (integrity e)
    → (o ≡ some (e.path, e.hash)) × (e.kind ≡ err_type_file_deleted)
deleted_entry none c e h = absurd (ground arith)
deleted_entry (some (p, k)) c e h = ground arith

Unchanged-Drained :
    (fs : Map Bytes) (rs : List HashDataOutput)
    → Drained fs (expected_map rs []) []
    → Unchanged fs rs
unfolding lookup
Unchanged-Drained fs rs d = record {
  distinct = d.distinct;
  agree = λ q. ground (arith, lookup-expected q rs, d.matched q);
}

-- What is left in the map was not scanned.
unscanned :
    (fs e m : Map Bytes) → Drained fs e m → (q h : Bytes) → lookup q m ≡ some h → lookup q fs ≡ none
unscanned fs e m d q h left = elim (Option-cases (lookup q fs)) [
  | inl unseen ↦ unseen
  | inr (k, seen) ↦ absurd (ground (arith, d.gone q k seen))
]

module _ (range : Map Bytes → Option (Bytes × Bytes)) (is_range : IsRange range)
    (ctx_done : ℕ → Bool) (proc_dirs : Bytes) (vs : List FileHash) (rs : List HashDataOutput) where
  abbrev end : LoopEnd
  end = compare_loop ctx_done 0 proc_dirs vs (expected_map rs [])

  passes_from :
      (l : LoopEnd) (n : ℕ)
      → end ≡ l
      → verdict range (length rs) l ≡ compared n
      → (n ≡ length rs) × Unchanged (files proc_dirs vs) rs
  passes_from (mismatch p h) n el x = absurd (ground arith)
  passes_from (new_file p h) n el x = absurd (ground arith)
  passes_from cancelled n el x = absurd (ground arith)
  passes_from (drained []) n el x = (
    (reported (range []) (length rs) n x).1,
    Unchanged-Drained (files proc_dirs vs) rs
        (drained_sound ctx_done proc_dirs 0 vs (expected_map rs []) [] el),
  )
  passes_from (drained ((k, v) ∷ m)) n el x =
      absurd (is_range.of_entry k v m (reported (range ((k, v) ∷ m)) (length rs) n x).0)

  -- With the context live throughout, the check passes exactly when the files are the records, each
  -- file once; the number it then sends is that of the records.
  pub passes_iff_Unchanged :
      ((n : ℕ) → ctx_done n ≡ false)
      → (n : ℕ)
      → (compare_records range ctx_done proc_dirs vs rs ≡ compared n)
        ↔ ((n ≡ length rs) × Unchanged (files proc_dirs vs) rs)
  unfolding compare_records
  passes_iff_Unchanged running n = (
    passes_from end n refl,
    λ (count, u).
        let drains =
          drained_complete ctx_done proc_dirs running 0 vs (expected_map rs []) u.distinct
            (λ q. lookup-expected q rs ∙ u.agree q) in
        rw (drains, is_range.of_empty, count),
  )

  Justified-from :
      (l : LoopEnd) (e : IntegrityError)
      → end ≡ l
      → verdict range (length rs) l ≡ failed (integrity e)
      → Justified (files proc_dirs vs) rs e
  Justified-from (mismatch p h) e el y =
      let (entry, k, found, ne) =
        mismatch_sound ctx_done proc_dirs 0 vs (expected_map rs []) p h el in
      subst (Justified (files proc_dirs vs) rs)
        {x = record { kind = err_type_file_mismatch; path = p; hash = h }} (ground arith)
        (Justified.of_mismatch k refl entry (sym (lookup-expected p rs) ∙ found) ne)
  Justified-from (new_file p h) e el y =
      let (entry, why) = new_file_sound ctx_done proc_dirs 0 vs (expected_map rs []) p h el in
      subst (Justified (files proc_dirs vs) rs)
        {x = record { kind = err_type_new_file; path = p; hash = h }} (ground arith)
        (Justified.of_new_file refl entry (ground (arith, why, lookup-expected p rs)))
  Justified-from cancelled e el y = absurd (ground arith)
  Justified-from (drained m) e el y =
      let d = drained_sound ctx_done proc_dirs 0 vs (expected_map rs []) m el in
      let (first, kind) = deleted_entry (range m) (length rs) e y in
      let left = is_range.entry m e.path e.hash first in
      let unseen = unscanned (files proc_dirs vs) (expected_map rs []) m d e.path e.hash left in
      Justified.of_deleted kind
        (ground (arith, unseen, lookup-expected e.path rs, d.matched e.path)) unseen

  -- What an integrity error says, also if the context is cancelled while the loop runs. A file
  -- mismatch: the file arrived with the hash of the error, and the records give its path another one.
  -- A new file: the file arrived with the hash of the error, and the records do not have its path, or
  -- a file of this path had arrived before. A deleted file: the records give the path the hash of the
  -- error, and no file of this path arrived.
  pub compare_records-Justified :
      (e : IntegrityError)
      → compare_records range ctx_done proc_dirs vs rs ≡ failed (integrity e)
      → Justified (files proc_dirs vs) rs e
  unfolding compare_records
  compare_records-Justified e x = Justified-from end e refl x

  reported_from :
      (l : LoopEnd)
      → end ≡ l
      → l ≢ cancelled
      → ¬ Unchanged (files proc_dirs vs) rs
      → (e : IntegrityError) × (verdict range (length rs) l ≡ failed (integrity e))
  reported_from (mismatch p h) el live changed = (_, refl)
  reported_from (new_file p h) el live changed = (_, refl)
  reported_from cancelled el live changed = absurd (live refl)
  reported_from (drained m) el live changed = elim (Option-cases (range m)) [
    | inl empty ↦ absurd (changed (passes_from (drained m) (length rs) el (rw empty)).1)
    | inr ((p, h), first) ↦ (record { kind = err_type_file_deleted; path = p; hash = h }, rw first)
  ]

  -- With the context live throughout, every change of the files is reported by an integrity error.
  pub changes_are_reported :
      ((n : ℕ) → ctx_done n ≡ false)
      → ¬ Unchanged (files proc_dirs vs) rs
      → (e : IntegrityError) × (compare_records range ctx_done proc_dirs vs rs
          ≡ failed (integrity e))
  unfolding compare_records
  changes_are_reported running =
      reported_from end refl (not-cancelled ctx_done proc_dirs running 0 vs (expected_map rs []))
