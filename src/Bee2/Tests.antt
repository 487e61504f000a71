-- ===== src/Bee2/Tests.antt =====
-- A library that adds up the bytes.
use integrity_sum.Base.{
  ℕ, zero, suc, ◌+◌, ◌%◌, ◌^◌, ◌≡◌, refl, ap, sym, ◌∙◌, List, [], ◌∷◌, ◌++◌, Bytes, length, codes,
  none, some, arith, false, true,
}
use integrity_sum.Bee2.Library.{Bee2Lib, IsBash, concat, steps}
use integrity_sum.Strings.Hex.{encode_to_string}
use integrity_sum.Bee2.{
  Bee2, zeros, block_size, new, with_hid, with_hash_size, write, reset, sum, bee2_hash_file,
}
use integrity_sum.Bee2.Cgo.{c_int}
use integrity_sum.Strings.Decimal.{pos, negsuc}
use integrity_sum.Bee2.Digest.{
  length-zeros, IsDefault, new-IsDefault, write_all, default_hash, sum-write_all,
}
use integrity_sum.Bee2.File.{bee2_hash_file_lem}

abbrev total : Bytes → ℕ
total [] = 0
total (c ∷ s) = c + total s

abbrev bump : ℕ → Bytes → Bytes
bump k [] = []
bump k (x ∷ s) = (x + k) ∷ s

abbrev head_of : Bytes → ℕ
head_of [] = 0
head_of (x ∷ s) = x

abbrev repeat : ℕ → ℕ → Bytes
repeat zero c = []
repeat (suc n) c = c ∷ repeat n c

abbrev adding : Bee2Lib
adding = record {
  bash_start = λ l s. zeros (length s);
  bash_step_h = λ b s. bump (total b) s;
  bash_step_g = λ n s. repeat n (head_of s % 256);
  belt_start = λ s. zeros (length s);
  belt_step_h = λ b s. bump (total b) s;
  belt_step_g = λ s. repeat 32 (head_of s % 256);
}

length-repeat : (n c : ℕ) → length (repeat n c) ≡ n
length-repeat zero c = refl
length-repeat (suc n) c = ap suc (length-repeat n c)

length-bump : (k : ℕ) (s : Bytes) → length (bump k s) ≡ length s
length-bump k [] = refl
length-bump k (x ∷ s) = refl

total-append : (s t : Bytes) → total (s ++ t) ≡ total s + total t
total-append [] t = omega arith
total-append (c ∷ s) t = omega (arith, total-append s t)

bump-bump : (j k : ℕ) (s : Bytes) → bump k (bump j s) ≡ bump (j + k) s
bump-bump j k [] = refl
bump-bump j k (x ∷ s) = ap (λ y. y ∷ s) (omega arith)

bump_zero : (s : Bytes) → bump 0 s ≡ s
bump_zero [] = refl
bump_zero (x ∷ s) = ap (λ y. y ∷ s) (omega arith)

steps-adding : (ps : List Bytes) (s : Bytes) → steps adding ps s ≡ bump (total (concat ps)) s
steps-adding [] s = sym (bump_zero s)
steps-adding (p ∷ ps) s =
    steps-adding ps (bump (total p) s)
    ∙ (bump-bump (total p) (total (concat ps)) s
        ∙ ap (λ k. bump k s) (sym (total-append p (concat ps))))

adding-IsBash : IsBash adding
adding-IsBash = record {
  length-start = λ l s. length-zeros (length s);
  length-step_h = λ b s. length-bump (total b) s;
  length-step_g = λ n s. length-repeat n (head_of s % 256);
  stream = λ l n s t ps e.
      ap (λ r. repeat n (head_of r % 256))
        (steps-adding ps (zeros (length s)) ∙ ap (λ k. bump (total (concat ps)) (zeros k)) e);
}

abbrev fresh : Bee2
fresh = new adding []

-- A file in two pieces, and the same content in three writes.
abbrev bufs : List Bytes
bufs = codes "abc" ∷ codes "de" ∷ []

abbrev pieces : List Bytes
pieces = codes "a" ∷ codes "" ∷ codes "bcde" ∷ []

hash_runs :
    bee2_hash_file adding (zeros block_size) (some (record { bufs = bufs; ferror = false }))
    ≡ some (encode_to_string (repeat 32 239))
unfolding bee2_hash_file
hash_runs = refl

write_runs : (write adding (codes "abc") fresh).0 ≡ 3
unfolding write new
write_runs = refl

sum-write_all_example :
    (b : Bee2) × (sum adding (codes "<") (write_all adding pieces (reset adding fresh))
      ≡ some (codes "<" ++ default_hash adding (concat pieces), b))
    × IsDefault b
sum-write_all_example =
    sum-write_all adding adding-IsBash fresh (codes "<") pieces (new-IsDefault adding adding-IsBash)

bee2_hash_file_lem_example :
    ((r : Bytes × Bee2) × (sum adding [] (write_all adding pieces (reset adding fresh)) ≡ some r)
      × (bee2_hash_file adding (zeros block_size) (some (record { bufs = bufs; ferror = false }))
          ≡ some (encode_to_string r.0)))
    × (bee2_hash_file adding (zeros block_size) none ≡ none)
    × (bee2_hash_file adding (zeros block_size) (some (record { bufs = bufs; ferror = true }))
        ≡ none)
bee2_hash_file_lem_example =
    bee2_hash_file_lem adding adding-IsBash fresh (zeros block_size) bufs pieces
      (new-IsDefault adding adding-IsBash) (length-zeros block_size) (cc, (cc, tt)) refl

-- Options that the program does not use: a negative size, and a length that wraps around to 16.
abbrev wrapping : Bee2
wrapping = new adding (with_hid (negsuc 6) ∷ with_hash_size (pos (2 ^ 32 + 16)) ∷ [])

-- A hash of 48 octets in a buffer of 32.
too_wide : sum adding [] (new adding (with_hid (pos 384) ∷ [])) ≡ none
unfolding sum new
too_wide = refl

wrapping_fits : c_int wrapping.hash_size ≡ pos 16
unfolding new
wrapping_fits = refl
