-- ===== src/Snapshot/Output.antt =====
-- What the snapshot tool leaves on disk, on every path through it.
use integrity_sum.Base.{
  ◌≡◌, ◌≢◌, ◌⊎◌, inl, inr, subst, take, drop, take-append-drop, Bool-cases, ℕ, false, refl, ap, sym,
  ◌∙◌, true, Bool, List, [], ◌∷◌, ◌++◌, Option, none, some, Bytes, All, arith, append_assoc,
  append-nil,
}
use integrity_sum.Base.Result.{ok}
use integrity_sum.Worker.{FileHash}
use integrity_sum.Checksums.{get}
use integrity_sum.Snapshot.{
  SnapshotError, create_failed, write_failed, missing, Host, record_text, write_collected,
  write_as_plain_text, hash_dir, collect, root_path_of, calculate_and_write_hashes,
}
use integrity_sum.Snapshot.RoundTrip.{IsRecordable, file_text, outputs, get-file_text}

-- The hashes of all directories, in the order of the command line.
unfoldable pub all_hashes : Host → List Bytes → List FileHash
unfolding hash_dir
all_hashes o [] = []
all_hashes o (v ∷ vs) = hash_dir o (root_path_of o) v ++ all_hashes o vs

abbrev pub IsPresent : Host → Bytes → Type 0
IsPresent o v = o.stat (root_path_of o ++ v) ≢ missing

module _ (accepts : Bytes → Bytes → Bool) (partly : Bytes → Bytes → ℕ) where
  -- Where every text is accepted, all were written behind `file`.
  pub write_all :
      (file : Bytes) (vs : List FileHash)
      → (write_as_plain_text accepts partly file vs).1 ≡ none
      → (write_as_plain_text accepts partly file vs).0 ≡ file ++ file_text vs
  unfolding write_as_plain_text file_text
  write_all file [] h = sym (append-nil file)
  write_all file (v ∷ vs) h =
      let text = record_text v ++ b'\n' ∷ [] in
      ground (
        arith,
        write_all (file ++ text) vs,
        append_assoc file text (file_text vs),
        append_assoc (record_text v) (b'\n' ∷ []) (file_text vs),
      )

  write_error :
      (file : Bytes) (vs : List FileHash) (e : SnapshotError)
      → (write_as_plain_text accepts partly file vs).1 ≡ some e
      → e ≡ write_failed
  unfolding write_as_plain_text
  write_error file [] e h = cc
  write_error file (v ∷ vs) e h =
      ground (arith, write_error (file ++ (record_text v ++ b'\n' ∷ [])) vs e)

module _ (o : Host) where
  collect_all :
      (dirs : List Bytes) (hashes : List FileHash)
      → (collect o (root_path_of o) dirs hashes).1 ≡ none
      → (collect o (root_path_of o) dirs hashes).0 ≡ hashes ++ all_hashes o dirs
  unfolding collect all_hashes
  collect_all [] hashes h = sym (append-nil hashes)
  collect_all (v ∷ vs) hashes h =
      let new = hash_dir o (root_path_of o) v in
      ground (arith, collect_all vs (hashes ++ new), append_assoc hashes new (all_hashes o vs))

  collect-IsPresent :
      (dirs : List Bytes) (hashes : List FileHash)
      → (collect o (root_path_of o) dirs hashes).1 ≡ none
      → All (IsPresent o) dirs
  unfolding collect
  collect-IsPresent [] hashes h = tt
  collect-IsPresent (v ∷ vs) hashes h =
      let new = hash_dir o (root_path_of o) v in
      (λ e. ground arith, collect-IsPresent vs (hashes ++ new) (ground arith))

  collect_error :
      (dirs : List Bytes) (hashes : List FileHash) (e : SnapshotError)
      → (collect o (root_path_of o) dirs hashes).1 ≡ some e
      → e ≢ create_failed
  unfolding collect
  collect_error [] hashes e h = cc
  collect_error (v ∷ vs) hashes e h =
      ground (arith, collect_error vs (hashes ++ hash_dir o (root_path_of o) v) e)

-- What is written after the loop, for each result of the loop.
collected_ok :
    (o : Host) (hashes : List FileHash) (e : Option SnapshotError)
    → (write_collected o (hashes, e)).1 ≡ none
    → (e ≡ none) × ((write_collected o (hashes, e)).0 ≡ file_text hashes)
collected_ok o hashes none h = (refl, ground (arith, write_all o.accepts o.partly [] hashes))
collected_ok o hashes (some e) h = absurd (ground arith)

collected_error :
    (o : Host) (hashes : List FileHash) (e : Option SnapshotError) (e' : SnapshotError)
    → (write_collected o (hashes, e)).1 ≡ some e'
    → (e ≡ some e') ⊎ (e' ≡ write_failed)
collected_error o hashes none e' h = inr (write_error o.accepts o.partly [] hashes e' h)
collected_error o hashes (some e) e' h = inl h

-- A first part of a text.
abbrev pub IsPrefix : Bytes → Bytes → Type 0
IsPrefix left text = (tail : Bytes) × (left ++ tail ≡ text)

module _ (accepts : Bytes → Bytes → Bool) (partly : Bytes → Bytes → ℕ) where
  -- Whatever the outcome, no more than a first part of the text was put behind `file`.
  write-IsPrefix :
      (file : Bytes) (vs : List FileHash)
      → IsPrefix (write_as_plain_text accepts partly file vs).0 (file ++ file_text vs)
  unfolding write_as_plain_text file_text
  write-IsPrefix file [] = ([], refl)
  write-IsPrefix file (v ∷ vs) =
      let text = record_text v ++ b'\n' ∷ [] in
      let whole : text ++ file_text vs ≡ record_text v ++ b'\n' ∷ file_text vs =
        append_assoc (record_text v) (b'\n' ∷ []) (file_text vs) in
      elim (Bool-cases (accepts file text)) [
        | inl e ↦ rw e (
            let (tail, h) = write-IsPrefix (file ++ text) vs in
            (tail, h ∙ (append_assoc file text (file_text vs) ∙ ap (λ t. file ++ t) whole)))
        | inr e ↦ rw e (
            let n = partly file text in
            (
              drop n text ++ file_text vs,
              append_assoc file (take n text) (drop n text ++ file_text vs)
                  ∙ ap (λ t. file ++ t)
                      (sym (append_assoc (take n text) (drop n text) (file_text vs))
                        ∙ (ap (λ t. t ++ file_text vs) (take-append-drop n text) ∙ whole)),
            ))
      ]

-- What is written at all is a first part of the text of all hashes.
written-IsPrefix :
    (o : Host) (hashes : List FileHash) (e : Option SnapshotError)
    → (e ≡ none → hashes ≡ all_hashes o o.dirs)
    → IsPrefix (write_collected o (hashes, e)).0 (file_text (all_hashes o o.dirs))
written-IsPrefix o hashes none all =
    subst (λ hs. IsPrefix (write_as_plain_text o.accepts o.partly [] hashes).0 (file_text hs))
      (all refl) (write-IsPrefix o.accepts o.partly [] hashes)
written-IsPrefix o hashes (some e) all = (file_text (all_hashes o o.dirs), refl)

-- The snapshot tool on every path through it. Without an error every directory is there and the file
-- holds one line for each file of each directory, in order. With an error other than that the file
-- cannot be created, there is no file if it can be removed; if not, since the error of the removal is
-- ignored, the file stays with a first part of that text. If it cannot be created, nothing changes.
pub calculate_outcome :
    (o : Host) (before : Option Bytes)
    → ((calculate_and_write_hashes o before).1 ≡ none
        → ((calculate_and_write_hashes o before).0 ≡ some (file_text (all_hashes o o.dirs)))
          × All (IsPresent o) o.dirs)
      × ((e : SnapshotError)
          → (calculate_and_write_hashes o before).1 ≡ some e
          → e ≢ create_failed
          → (o.can_remove ≡ true → (calculate_and_write_hashes o before).0 ≡ none)
            × (o.can_remove ≡ false
                → (left : Bytes) × ((calculate_and_write_hashes o before).0 ≡ some left)
                  × IsPrefix left (file_text (all_hashes o o.dirs))))
      × ((calculate_and_write_hashes o before).1 ≡ some create_failed
          → (calculate_and_write_hashes o before).0 ≡ before)
unfolding calculate_and_write_hashes
calculate_outcome o before =
    let r = collect o (root_path_of o) o.dirs [] in
    let written = write_collected o r in
    (
      λ h.
          let (all, text) = collected_ok o r.0 r.1 (ground arith) in
          (ground (arith, text, collect_all o o.dirs [] all), collect-IsPresent o o.dirs [] all),
      λ e h ne. (
        λ removable. ground arith,
        λ stays. (written.0, ground arith, written-IsPrefix o r.0 r.1 (collect_all o o.dirs [])),
      ),
      λ h.
          ground (
            arith,
            collected_error o r.0 r.1 create_failed,
            collect_error o o.dirs [] create_failed,
          ),
    )

-- The snapshot that a successful run leaves is read back by the monitor's reader: the hash and the
-- path of each file, in order, if every file is recordable.
pub snapshot_is_read_back :
    (o : Host) (before : Option Bytes) (text : Bytes)
    → calculate_and_write_hashes o before ≡ (some text, none)
    → All IsRecordable (all_hashes o o.dirs)
    → get text ≡ ok (outputs (all_hashes o o.dirs))
snapshot_is_read_back o before text h recordable =
    let (out, _) = (calculate_outcome o before).0 (ap (λ r. r.1) h) in
    rw (← file_of out) (get-file_text (all_hashes o o.dirs) recordable)
  where
    file_of :
        (calculate_and_write_hashes o before).0 ≡ some (file_text (all_hashes o o.dirs))
        → file_text (all_hashes o o.dirs) ≡ text
    file_of out = cc (h, out)
