-- ===== src/Bee2/Blocks.antt =====
-- The loop of `Write` in internal/ffi/bee2/bee2.go: the blocks that it hands to the library.
use integrity_sum.Base.{
  ℕ, zero, suc, ◌+◌, ◌-◌, ◌≤◌, ◌<◌, ◌≡◌, refl, sym, ap, ap₂, subst, ◌∙◌, List, [], ◌∷◌, ◌++◌, Bytes,
  length, take, drop, ltb, length-append, length-take, length-drop, take-append-drop_taken,
  take_all, drop_all, drop-drop, take_all_append, append-nil, append_assoc, arith, if◌then◌else◌,
  Bool-cases, inl, inr,
}
use integrity_sum.Bee2.Library.{Bee2Lib, IsBash, concat, steps}
use integrity_sum.Bee2.{
  Bee2, block_size, hash_size_default, copied, fill, slice, bash_hash_step_h, write_loop, write,
}

-- The sizes that `New` gives the slices.
pub record IsSized (a : Bee2) : Type 0 where
  pub state_size : length a.state ≡ block_size
  pub block_size_lem : length a.block ≡ block_size
  pub hash_size_lem : length a.hash ≡ hash_size_default

pub copied_full : (dst src : Bytes) → length src ≡ length dst → copied dst src ≡ src
copied_full dst src e =
    ap (λ k. take k src ++ drop (length src) dst) (sym e)
    ∙ (ap (λ xs. xs ++ drop (length src) dst) (take_all (length src) src (omega arith))
        ∙ (ap (λ xs. src ++ xs) (drop_all (length src) dst (omega arith)) ∙ append-nil src))

pub length-copied : (dst src : Bytes) → length (copied dst src) ≡ length dst
length-copied dst src = omega (
  arith,
  length-append (take (length dst) src) (drop (length src) dst),
  length-take (length dst) src,
  length-drop (length src) dst,
)

-- After a copy that fits, the block begins with what was copied.
fill_lem :
    (s : Bytes) (a : Bee2)
    → length s ≤ length a.block
    → ((fill s a).n ≡ length s) × (take (fill s a).n (fill s a).block ≡ s)
fill_lem s a fits =
    let whole = take_all (length a.block) s fits in
    (
      ap length whole,
      ap (λ xs. take (length xs) (xs ++ drop (length s) a.block)) whole
          ∙ take_all_append s (drop (length s) a.block),
    )

-- What rounds of the loop have done with the bytes `rest`, from the value `a` on.
pub record Wrote (lib : Bee2Lib) (rest : Bytes) (a b : Bee2) : Type 0 where
  pub pieces : List Bytes
  pub cut : concat pieces ≡ rest
  pub stepped : b.state ≡ steps lib pieces a.state
  pub sized : IsSized b
  pub same_hid : b.hid ≡ a.hid
  pub same_hash_size : b.hash_size ≡ a.hash_size
  pub same_hash : b.hash ≡ a.hash

concat-append : (ps qs : List Bytes) → concat (ps ++ qs) ≡ concat ps ++ concat qs
concat-append [] qs = refl
concat-append (p ∷ ps) qs = rw (concat-append ps qs, append_assoc p (concat ps) (concat qs))

module _ (lib : Bee2Lib) where
  steps-append :
      (ps qs : List Bytes) (state : Bytes)
      → steps lib (ps ++ qs) state ≡ steps lib qs (steps lib ps state)
  steps-append [] qs state = refl
  steps-append (p ∷ ps) qs state = steps-append ps qs (lib.bash_step_h p state)

  pub Wrote-nil : (a : Bee2) → IsSized a → Wrote lib [] a a
  Wrote-nil a sized = record {
    pieces = [];
    cut = refl;
    stepped = refl;
    sized = sized;
    same_hid = refl;
    same_hash_size = refl;
    same_hash = refl;
  }

  pub Wrote-append :
      {r s : Bytes} {a b c : Bee2} → Wrote lib r a b → Wrote lib s b c → Wrote lib (r ++ s) a c
  Wrote-append {b = b} v w = record {
    pieces = v.pieces ++ w.pieces;
    cut = concat-append v.pieces w.pieces ∙ ap₂ (λ x y. x ++ y) v.cut w.cut;
    stepped =
        w.stepped ∙ (ap (steps lib w.pieces) v.stepped ∙ sym (steps-append v.pieces w.pieces _));
    sized = w.sized;
    same_hid = w.same_hid ∙ v.same_hid;
    same_hash_size = w.same_hash_size ∙ v.same_hash_size;
    same_hash = w.same_hash ∙ v.same_hash;
  }

  pub Wrote-cast : {r s : Bytes} {a b : Bee2} → r ≡ s → Wrote lib r a b → Wrote lib s a b
  Wrote-cast {a = a} {b = b} e = subst (λ r. Wrote lib r a b) e

module _ (lib : Bee2Lib) (is_bash : IsBash lib) where
  one_block :
      (s : Bytes) (a : Bee2)
      → IsSized a
      → length s ≤ block_size
      → Wrote lib s a (bash_hash_step_h lib (fill s a))
  one_block s a sized fits =
      let taken = fill_lem s a (omega (arith, sized.block_size_lem)) in
      let after =
        copied_full a.state (lib.bash_step_h (take (fill s a).n (fill s a).block) a.state)
          (is_bash.length-step_h (take (fill s a).n (fill s a).block) a.state) in
      record {
        pieces = s ∷ [];
        cut = append-nil s;
        stepped = after ∙ ap (λ b. lib.bash_step_h b a.state) taken.1;
        sized = record {
          state_size =
              length-copied a.state (lib.bash_step_h (take (fill s a).n (fill s a).block) a.state)
              ∙ sized.state_size;
          block_size_lem = length-copied a.block s ∙ sized.block_size_lem;
          hash_size_lem = sized.hash_size_lem;
        };
        same_hid = refl;
        same_hash_size = refl;
        same_hash = refl;
      }

  -- A round of the loop, with the end of its slice.
  abbrev round_end : Bytes → ℕ → ℕ
  round_end p take_from =
      if ltb (length p) (take_from + block_size) then length p else take_from + block_size

  round_slice : (p : Bytes) (take_from : ℕ) → Bytes
  round_slice p take_from = slice p take_from (round_end p take_from)

  length-round_slice :
      (p : Bytes) (take_from : ℕ)
      → take_from < length p
      → (0 < length (round_slice p take_from))
        × (length (round_slice p take_from) ≤ block_size)
        × (take_from + length (round_slice p take_from) ≤ length p)
  unfolding round_slice
  length-round_slice p take_from more = ground (
    arith,
    length-take (round_end p take_from - take_from) (drop take_from p),
    length-drop take_from p,
  )

  cut_slice :
      (p : Bytes) (take_from n : ℕ)
      → n ≡ length (round_slice p take_from)
      → round_slice p take_from ++ drop (take_from + n) p ≡ drop take_from p
  unfolding round_slice
  cut_slice p take_from n e =
      ap (λ xs. round_slice p take_from ++ xs)
        (sym (drop-drop take_from n p) ∙ ap (λ k. drop k (drop take_from p)) e)
      ∙ take-append-drop_taken (round_end p take_from - take_from) (drop take_from p)

  pub write_loop_lem :
      (fuel : ℕ) (p : Bytes) (take_from : ℕ) (a : Bee2)
      → IsSized a
      → take_from ≤ length p
      → length p - take_from < fuel
      → ((write_loop lib fuel p take_from (take_from + block_size) a).0 ≡ length p)
        × Wrote lib
            (drop take_from p)
            a
            (write_loop lib fuel p take_from (take_from + block_size) a).1
  unfolding write_loop round_slice
  write_loop_lem zero p take_from a sized le fuel_left = absurd (omega arith)
  write_loop_lem (suc fuel) p take_from a sized le fuel_left =
      elim (Bool-cases (ltb take_from (length p))) [
        | inl more ↦
            let s = round_slice p take_from in
            let sizes = length-round_slice p take_from (ground arith) in
            let filled = (fill_lem s a (omega (arith, sized.block_size_lem, sizes.1))).0 in
            let wrote = one_block s a sized sizes.1 in
            let ih =
              write_loop_lem fuel p (take_from + (fill s a).n) (bash_hash_step_h lib (fill s a))
                wrote.sized (omega (arith, filled, sizes.2)) (omega (arith, filled, sizes.0)) in
            rw more (
              ih.0,
              Wrote-cast lib (cut_slice p take_from (fill s a).n filled)
                  (Wrote-append lib wrote ih.1),
            )
        | inr done ↦
            let all_taken : take_from ≡ length p = ground arith in
            rw done (
              all_taken,
              Wrote-cast lib (sym (drop_all take_from p (ground arith))) (Wrote-nil lib a sized),
            )
      ]

  -- `Write` takes all bytes; the library has then hashed them after what it had hashed before.
  pub write_lem :
      (p : Bytes) (a : Bee2)
      → IsSized a
      → ((write lib p a).0 ≡ length p) × Wrote lib p a (write lib p a).1
  unfolding write
  write_lem p a sized = write_loop_lem (suc (length p)) p 0 a sized (omega arith) (omega arith)
