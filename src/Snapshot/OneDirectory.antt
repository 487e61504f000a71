-- ===== src/Snapshot/OneDirectory.antt =====
-- The snapshot tool on one directory, with a disk that takes every text.
use integrity_sum.Base.{
  ◌≡◌, refl, ap, ◌∙◌, map, true, if◌then◌else◌, List, [], ◌∷◌, ◌++◌, Option, none, some, Bytes,
  arith,
}
use integrity_sum.Worker.{FileHash}
use integrity_sum.Snapshot.{
  create_failed, Host, record_text, write_collected, keep_or_remove, write_as_plain_text, hash_dir,
  strip, exists, collect, root_path_of, calculate_and_write_hashes,
}
use integrity_sum.Snapshot.Output.{write_all}
use integrity_sum.Snapshot.RoundTrip.{file_text}

-- One directory that is there, and a file that takes every text.
module _ (o : Host) (accepts : (file text : Bytes) → o.accepts file text ≡ true) where
  write_accepted :
      (file : Bytes) (vs : List FileHash)
      → (write_as_plain_text o.accepts o.partly file vs).1 ≡ none
  unfolding write_as_plain_text
  write_accepted file [] = refl
  write_accepted file (v ∷ vs) =
      let text = record_text v ++ b'\n' ∷ [] in
      ground (arith, accepts file text, write_accepted (file ++ text) vs)

  written_hashes :
      (hashes : List FileHash) → write_collected o (hashes, none) ≡ (file_text hashes, none)
  written_hashes hashes = ground (
    arith,
    write_accepted [] hashes,
    write_all o.accepts o.partly [] hashes (write_accepted [] hashes),
  )

  collect_one :
      (dir : Bytes)
      → o.stat (root_path_of o ++ dir) ≡ exists
      → collect o (root_path_of o) (dir ∷ []) []
        ≡ (map (strip (root_path_of o)) (o.scan (root_path_of o ++ dir)), none)
  unfolding collect hash_dir
  collect_one dir there = rw (collect, there) refl

  pub one_dir_written :
      (before : Option Bytes) (dir : Bytes)
      → o.dirs ≡ dir ∷ []
      → o.stat (root_path_of o ++ dir) ≡ exists
      → o.can_create ≡ true
      → calculate_and_write_hashes o before
        ≡ (some (file_text (map (strip (root_path_of o)) (o.scan (root_path_of o ++ dir)))), none)
  unfolding calculate_and_write_hashes
  one_dir_written before dir one there can =
      ap
        (λ b.
          if b
          then keep_or_remove o.can_remove
              (write_collected o (collect o (root_path_of o) o.dirs []))
          else (before, some create_failed))
        can
      ∙ ap
          (λ dirs.
            keep_or_remove o.can_remove (write_collected o (collect o (root_path_of o) dirs [])))
          one
      ∙ ap (λ r. keep_or_remove o.can_remove (write_collected o r)) (collect_one dir there)
      ∙ ap (keep_or_remove o.can_remove)
          (written_hashes (map (strip (root_path_of o)) (o.scan (root_path_of o ++ dir))))
