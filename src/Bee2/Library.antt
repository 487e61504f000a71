-- ===== src/Bee2/Library.antt =====
-- The calls of the C library bee2, on the octets of a state, and what its documentation says of them.
use integrity_sum.Base.{ℕ, ◌≡◌, List, [], ◌∷◌, ◌++◌, Bytes, length}

pub record Bee2Lib : Type 0 where
  -- the state after `bashHashStart` with a level, in memory that held the second argument
  pub bash_start : ℕ → Bytes → Bytes
  -- the state after the octets were hashed
  pub bash_step_h : Bytes → Bytes → Bytes
  -- the first octets of the hash
  pub bash_step_g : ℕ → Bytes → Bytes
  pub belt_start : Bytes → Bytes
  pub belt_step_h : Bytes → Bytes → Bytes
  pub belt_step_g : Bytes → Bytes

abbrev pub concat : List Bytes → Bytes
concat [] = []
concat (p ∷ ps) = p ++ concat ps

-- One call of `bashHashStepH` for each piece.
abbrev pub steps : Bee2Lib → List Bytes → Bytes → Bytes
steps lib [] state = state
steps lib (p ∷ ps) state = steps lib ps (lib.bash_step_h p state)

-- The hash by one start, one step over all content and one end.
abbrev pub bash_hash : Bee2Lib → ℕ → ℕ → Bytes → Bytes → Bytes
bash_hash lib level hash_len state content =
    lib.bash_step_g hash_len (lib.bash_step_h content (lib.bash_start level state))

pub record IsBash (lib : Bee2Lib) : Type 0 where
  -- A state keeps its size.
  pub length-start : (l : ℕ) (s : Bytes) → length (lib.bash_start l s) ≡ length s
  pub length-step_h : (b s : Bytes) → length (lib.bash_step_h b s) ≡ length s
  -- As many octets of the hash are given as are asked for.
  pub length-step_g : (n : ℕ) (s : Bytes) → length (lib.bash_step_g n s) ≡ n
  -- The hash is that of the pieces one after the other, wherever they are cut, and whatever the
  -- memory held before the start.
  pub stream :
      (l n : ℕ) (s t : Bytes) (ps : List Bytes)
      → length s ≡ length t
      → lib.bash_step_g n (steps lib ps (lib.bash_start l s)) ≡ bash_hash lib l n t (concat ps)
