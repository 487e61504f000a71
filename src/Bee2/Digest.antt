-- ===== src/Bee2/Digest.antt =====
-- `Reset`, `Write` and `Sum` of internal/ffi/bee2/bee2.go in sequence.
use integrity_sum.Base.{
  ℕ, zero, suc, ◌/◌, ◌≤◌, ◌≡◌, refl, sym, ap, ap₂, ◌∙◌, List, [], ◌∷◌, ◌++◌, Bytes, length, take,
  take_all, drop_all, append-nil, arith, some,
}
use integrity_sum.Strings.Decimal.{pos}
use integrity_sum.Bee2.Cgo.{half, eighth, c_ulong, c_int}
use integrity_sum.Bee2.Library.{Bee2Lib, IsBash, concat, steps, bash_hash}
use integrity_sum.Bee2.{
  Bee2, hid_default, hash_size_default, block_size, zeros, copied, new, write, sum, summed, reset,
}
use integrity_sum.Bee2.Blocks.{
  IsSized, copied_full, length-copied, Wrote, Wrote-nil, Wrote-append, write_lem,
}
use integrity_sum.Bee2.Bounds.{asked, octets, hash_c, after_step_g, bash_hash_step_g_fits}

pub length-zeros : (n : ℕ) → length (zeros n) ≡ n
length-zeros zero = refl
length-zeros (suc n) = ap suc (length-zeros n)

-- An instance with the default sizes, as `New` without options makes it and all calls keep it.
pub record IsDefault (a : Bee2) : Type 0 where
  pub hid_lem : a.hid ≡ pos hid_default
  pub hash_size_same : a.hash_size ≡ pos hash_size_default
  pub sized : IsSized a

asked_default : (a : Bee2) → IsDefault a → asked a ≡ hid_default / 8
asked_default a d = ap (λ i. c_ulong (eighth i)) d.hid_lem

module _ (lib : Bee2Lib) where
  unfoldable pub write_all : List Bytes → Bee2 → Bee2
  write_all [] a = a
  write_all (p ∷ ps) a = write_all ps (write lib p a).1

  -- The hash with the default sizes, by one start, one step and one end.
  abbrev pub default_hash : Bytes → Bytes
  default_hash = bash_hash lib (hid_default / 2) (hid_default / 8) (zeros block_size)

module _ (lib : Bee2Lib) (is_bash : IsBash lib) where
  pub new-IsDefault : IsDefault (new lib [])
  unfolding new
  new-IsDefault = record {
    hid_lem = refl;
    hash_size_same = refl;
    sized = record {
      state_size = length-copied (zeros block_size) _ ∙ length-zeros block_size;
      block_size_lem = length-zeros block_size;
      hash_size_lem = refl;
    };
  }

  write_all_lem :
      (ps : List Bytes) (a : Bee2) → IsSized a → Wrote lib (concat ps) a (write_all lib ps a)
  unfolding write_all
  write_all_lem [] a sized = Wrote-nil lib a sized
  write_all_lem (p ∷ ps) a sized =
      let wrote = (write_lem lib is_bash p a sized).1 in
      Wrote-append lib wrote (write_all_lem ps (write lib p a).1 wrote.sized)

  after_step_g_default :
      (a : Bee2)
      → IsDefault a
      → (after_step_g lib hash_size_default a).hash ≡ lib.bash_step_g (hid_default / 8) a.state
  after_step_g_default a d =
      let whole : hash_c lib a ≡ octets lib a =
        ap (λ xs. octets lib a ++ xs)
          (drop_all (length (octets lib a)) a.hash (
            omega (
              arith,
              is_bash.length-step_g (asked a) a.state,
              asked_default a d,
              d.sized.hash_size_lem,
            )))
        ∙ append-nil (octets lib a) in
      let taken : take hash_size_default (hash_c lib a) ≡ octets lib a =
        ap (take hash_size_default) whole
        ∙ take_all hash_size_default (octets lib a)
            (omega (arith, is_bash.length-step_g (asked a) a.state, asked_default a d)) in
      ap (copied a.hash) taken
      ∙ (copied_full a.hash (octets lib a) (
            omega (
              arith,
              is_bash.length-step_g (asked a) a.state,
              asked_default a d,
              d.sized.hash_size_lem,
            ))
          ∙ ap (λ k. lib.bash_step_g k a.state) (asked_default a d))

  reset-IsDefault : (a : Bee2) → IsDefault a → IsDefault (reset lib a)
  unfolding reset
  reset-IsDefault a d = record {
    hid_lem = d.hid_lem;
    hash_size_same = d.hash_size_same;
    sized = record {
      state_size =
          length-copied _ _ ∙ (length-copied a.state (zeros block_size) ∙ d.sized.state_size);
      block_size_lem = d.sized.block_size_lem;
      hash_size_lem = length-copied a.hash (zeros hash_size_default) ∙ d.sized.hash_size_lem;
    };
  }

  reset_state :
      (a : Bee2)
      → IsDefault a
      → (reset lib a).state ≡ lib.bash_start (hid_default / 2) (zeros block_size)
  unfolding reset
  reset_state a d =
      let cleared : copied a.state (zeros block_size) ≡ zeros block_size =
        copied_full a.state (zeros block_size) (length-zeros block_size ∙ sym d.sized.state_size) in
      copied_full (copied a.state (zeros block_size))
        (lib.bash_start (c_ulong (half a.hid)) (copied a.state (zeros block_size)))
        (is_bash.length-start (c_ulong (half a.hid)) (copied a.state (zeros block_size)))
      ∙ ap₂ (λ k s. lib.bash_start (c_ulong (half k)) s) d.hid_lem cleared

  write_all-IsDefault : (ps : List Bytes) (a : Bee2) → IsDefault a → IsDefault (write_all lib ps a)
  write_all-IsDefault ps a d =
      let wrote = write_all_lem ps a d.sized in
      record {
        hid_lem = wrote.same_hid ∙ d.hid_lem;
        hash_size_same = wrote.same_hash_size ∙ d.hash_size_same;
        sized = wrote.sized;
      }

  sum-IsDefault :
      (input : Bytes) (a : Bee2)
      → IsDefault a
      → (sum lib input a
          ≡ some (
            input ++ lib.bash_step_g (hid_default / 8) a.state,
            after_step_g lib hash_size_default a,
          ))
        × IsDefault (after_step_g lib hash_size_default a)
  unfolding sum
  sum-IsDefault input a d =
      let fits : asked a ≤ hash_size_default = omega (arith, asked_default a d) in
      (
        ap (summed input) (
              bash_hash_step_g_fits lib is_bash a d.sized hash_size_default fits
                (ap c_int d.hash_size_same) (omega arith))
            ∙ ap (λ h. some (input ++ h, after_step_g lib hash_size_default a))
                (after_step_g_default a d),
        record {
          hid_lem = d.hid_lem;
          hash_size_same = d.hash_size_same;
          sized = record {
            state_size = d.sized.state_size;
            block_size_lem = d.sized.block_size_lem;
            hash_size_lem =
                length-copied a.hash (take hash_size_default (hash_c lib a))
                ∙ d.sized.hash_size_lem;
          };
        },
      )

  -- `Reset`, writes and `Sum` give the hash of all that was written, behind what `Sum` was given,
  -- however the content was cut into writes and whatever the instance hashed before; and the instance
  -- can be used again.
  pub sum-write_all :
      (a : Bee2) (input : Bytes) (ps : List Bytes)
      → IsDefault a
      → (b : Bee2) × (sum lib input (write_all lib ps (reset lib a))
          ≡ some (input ++ default_hash lib (concat ps), b))
        × IsDefault b
  sum-write_all a input ps d =
      let d' = reset-IsDefault a d in
      let b = write_all lib ps (reset lib a) in
      let wrote = write_all_lem ps (reset lib a) d'.sized in
      let given = sum-IsDefault input b (write_all-IsDefault ps (reset lib a) d') in
      let hashed : lib.bash_step_g (hid_default / 8) b.state ≡ default_hash lib (concat ps) =
        ap (lib.bash_step_g (hid_default / 8))
          (wrote.stepped ∙ ap (steps lib wrote.pieces) (reset_state a d))
        ∙ (is_bash.stream (hid_default / 2) (hid_default / 8) (zeros block_size) (zeros block_size)
              wrote.pieces refl
            ∙ ap (default_hash lib) wrote.cut) in
      (
        after_step_g lib hash_size_default b,
        given.0 ∙ ap (λ h. some (input ++ h, after_step_g lib hash_size_default b)) hashed,
        given.1,
      )
