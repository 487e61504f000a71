-- ===== src/Worker/Files.antt =====
-- A worker's one hasher serves all its files.
use integrity_sum.Base.{
  ℕ, suc, ◌≡◌, refl, ap, Bool, false, List, [], ◌∷◌, ◌++◌, Option, none, some, Bytes, All, take,
  arith, Bool-cases, Option-cases, inl, inr,
}
use integrity_sum.Strings.Hex.{IsHexDigit}
use integrity_sum.Hasher.{Hash, hash_data, hash_file}
use integrity_sum.Hasher.Digest.{IsHash, hash_data-IsHexDigit, hash_data_any_start}
use integrity_sum.Worker.{FileHash, sent, work}

abbrev pub item : Bytes → Option Bytes → List FileHash
item v none = []
item v (some h) = record { path = v; hash = h } ∷ []

-- For each file that can be hashed, in order, its path and its hash.
unfoldable pub hashes_of : (Bytes → Option Bytes) → List Bytes → List FileHash
hashes_of hash_of [] = []
hashes_of hash_of (v ∷ vs) = item v (hash_of v) ++ hashes_of hash_of vs

sent-item :
    (v : Bytes) (o : Option Bytes) {xs ys : List FileHash} → xs ≡ ys → sent v o xs ≡ item v o ++ ys
sent-item v none e = e
sent-item v (some h) e = ap (λ r. record { path = v; hash = h } ∷ r) e

module _ {S : Type 0} (h : Hash S) (read_file : Bytes → Option Bytes) (start : S) where
  abbrev hash_read : Option Bytes → Option Bytes
  hash_read none = none
  hash_read (some content) = some (hash_data h content start).0

  -- The hash of the content of a file by a new instance, if the file can be read.
  abbrev pub content_hash : Bytes → Option Bytes
  content_hash v = hash_read (read_file v)

module _ {S : Type 0} (h : Hash S) (is_hash : IsHash h) (read_file : Bytes → Option Bytes)
    (start : S) where
  hash_file_any_start :
      (v : Bytes) (s : S) → (hash_file h none read_file v s).0 ≡ content_hash h read_file start v
  unfolding hash_file
  hash_file_any_start v s = elim (Option-cases (read_file v)) [
    | inl e ↦ rw e refl
    | inr (c, e) ↦ rw e (ap some (hash_data_any_start h is_hash c s start))
  ]

  -- A worker sends the hashes of the files that it receives, for a first part of them that is all of
  -- them if the context stays live: a file gets the hash that it would get from a new instance,
  -- whatever the worker hashed before, and a file that cannot be read is passed over.
  pub work_lem :
      (ctx_done : ℕ → Bool) (n : ℕ) (vs : List Bytes) (s : S)
      → ((k : ℕ) × (work (hash_file h none read_file) ctx_done n vs s
            ≡ hashes_of (content_hash h read_file start) (take k vs)))
        × (((i : ℕ) → ctx_done i ≡ false)
            → work (hash_file h none read_file) ctx_done n vs s
              ≡ hashes_of (content_hash h read_file start) vs)
  unfolding work hashes_of
  work_lem ctx_done n [] s = ((0, refl), λ live. refl)
  work_lem ctx_done n (v ∷ vs) s =
      let ih = work_lem ctx_done (suc n) vs (hash_file h none read_file v s).1 in
      let head = hash_file_any_start v s in
      (
        elim (Bool-cases (ctx_done n)) [
          | inl e ↦ (0, ground (arith, e))
          | inr e ↦
              (suc ih.0.0, rw (e, head) (sent-item v (content_hash h read_file start v) ih.0.1))
        ],
        λ live. rw (live n, head) (sent-item v (content_hash h read_file start v) (ih.1 live)),
      )

  -- The hash of every file that is hashed is lower-case hexadecimal.
  pub hashes_of-IsHexDigit :
      (vs : List Bytes)
      → All (λ v. All IsHexDigit v.hash) (hashes_of (content_hash h read_file start) vs)
  unfolding hashes_of
  hashes_of-IsHexDigit [] = tt
  hashes_of-IsHexDigit (v ∷ vs) = elim (Option-cases (read_file v)) [
    | inl e ↦ rw e (hashes_of-IsHexDigit vs)
    | inr (c, e) ↦ rw e (hash_data-IsHexDigit h is_hash c start, hashes_of-IsHexDigit vs)
  ]
