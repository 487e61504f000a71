-- ===== src/Monitor/Arrival.antt =====
-- Whether a check passes does not depend on the order in which the worker pool delivers the files, and
-- a file that is delivered twice is an alarm.
use mathlib.Core.List.{Permᴰ}
use integrity_sum.Base.{
  ℕ, ◌≡◌, refl, sym, ◌∙◌, Bool, false, List, [], ◌∷◌, Option, some, Bytes, same_iff, same_refl,
  arith,
}
use integrity_sum.Base.Map.{Map, lookup, lookup-delete}
use integrity_sum.Strings.Search.{trim_prefix}
use integrity_sum.Worker.{FileHash}
use integrity_sum.Checksums.{HashDataOutput}
use integrity_sum.Monitor.{
  failed, compared, integrity, err_type_new_file, IsRange, compare_records, compare_loop,
  expected_map,
}
use integrity_sum.Monitor.Loop.{files, Distinct}
use integrity_sum.Monitor.Verdicts.{recorded, lookup-expected, passes_iff_Unchanged}

module _ (proc_dirs : Bytes) where
  pub record SameFiles (vs ws : List FileHash) : Type 0 where
    pub distinct : Distinct (files proc_dirs ws)
    pub agree : (q : Bytes) → lookup q (files proc_dirs vs) ≡ lookup q (files proc_dirs ws)

  -- A permutation of distinct files keeps them distinct, and each path's hash.
  pub SameFiles-perm :
      {vs ws : List FileHash} → Permᴰ vs ws → Distinct (files proc_dirs vs) → SameFiles vs ws
  unfolding files lookup
  SameFiles-perm Permᴰ.nil d = record { distinct = tt; agree = λ q. refl }
  SameFiles-perm (Permᴰ.cons {a = a} e p) (fresh, d) = rw (← e) (
      let s = SameFiles-perm p d in
      record {
        distinct = (sym (s.agree (trim_prefix a.path proc_dirs)) ∙ fresh, s.distinct);
        agree = λ q. ground (arith, s.agree q);
      })
  SameFiles-perm (Permᴰ.swap {a = a} {b = b} e f) (fa, (fb, d)) =
      rw (← e, ← f)
        (let p = trim_prefix a.path proc_dirs in
          let q = trim_prefix b.path proc_dirs in
          record {
            distinct = (ground (arith, same_iff p q, same_iff q p), (ground arith, d));
            agree = λ k. ground (arith, same_iff p q, same_iff q p, same_iff p k, same_iff q k);
          })
  SameFiles-perm (Permᴰ.trans p r) d =
      let s = SameFiles-perm p d in
      let t = SameFiles-perm r s.distinct in
      record { distinct = t.distinct; agree = λ q. s.agree q ∙ t.agree q }

module _ (range : Map Bytes → Option (Bytes × Bytes)) (is_range : IsRange range)
    (ctx_done : ℕ → Bool) (running : (n : ℕ) → ctx_done n ≡ false) (proc_dirs : Bytes)
    (rs : List HashDataOutput) where
  -- If the check passes, it passes whatever the order in which the same files arrive.
  pub passes_in_any_order :
      (vs ws : List FileHash) (n : ℕ)
      → Permᴰ vs ws
      → compare_records range ctx_done proc_dirs vs rs ≡ compared n
      → compare_records range ctx_done proc_dirs ws rs ≡ compared n
  passes_in_any_order vs ws n p passed =
      let (count, u) =
        (passes_iff_Unchanged range is_range ctx_done proc_dirs vs rs running n).0 passed in
      let s = SameFiles-perm proc_dirs p u.distinct in
      (passes_iff_Unchanged range is_range ctx_done proc_dirs ws rs running n).1
        (count, record { distinct = s.distinct; agree = λ q. u.agree q ∙ s.agree q })

  -- If the first file to arrive is as recorded and arrives a second time at once, as a file under two
  -- monitored directories can, then it is reported as a new file.
  pub second_arrival_is_new_file :
      (v : FileHash) (vs : List FileHash)
      → recorded (trim_prefix v.path proc_dirs) rs ≡ some v.hash
      → compare_records range ctx_done proc_dirs (v ∷ v ∷ vs) rs
        ≡ failed (
            integrity (record {
              kind = err_type_new_file;
              path = trim_prefix v.path proc_dirs;
              hash = v.hash;
            }))
  unfolding compare_records compare_loop
  second_arrival_is_new_file v vs found =
      let p = trim_prefix v.path proc_dirs in
      rw (
        running 0,
        running 1,
        lookup-expected p rs,
        found,
        same_refl v.hash,
        lookup-delete p p (expected_map rs []),
        same_refl p,
      )
