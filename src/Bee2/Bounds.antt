-- ===== src/Bee2/Bounds.antt =====
-- `Sum` of internal/ffi/bee2/bee2.go and the sizes of its C buffers.
use integrity_sum.Base.{
  ℕ, ◌≤◌, ◌<◌, ◌≡◌, refl, ◌++◌, Bytes, length, take, drop, ltb, length-append, length-drop, arith,
  some, false,
}
use integrity_sum.Strings.Decimal.{ℤ, pos, negsuc}
use integrity_sum.Bee2.Cgo.{eighth, c_ulong, c_int}
use integrity_sum.Bee2.Library.{Bee2Lib, IsBash}
use integrity_sum.Bee2.{Bee2, hash_size_default, copied, bash_hash_step_g}
use integrity_sum.Bee2.Blocks.{IsSized}

-- The octets that the library is asked for.
abbrev pub asked : Bee2 → ℕ
asked a = c_ulong (eighth a.hid)

-- The number of bytes to read back is negative, or more than the buffer has.
abbrev pub IsOutside : ℤ → Type 0
IsOutside (pos n) = hash_size_default < n
IsOutside (negsuc n) = Unit

module _ (lib : Bee2Lib) where
  abbrev pub octets : Bee2 → Bytes
  octets a = lib.bash_step_g (asked a) a.state

  -- The C buffer after the library has written to it.
  abbrev pub hash_c : Bee2 → Bytes
  hash_c a = octets a ++ drop (length (octets a)) a.hash

  -- After `size` bytes of it were copied back.
  abbrev pub after_step_g : ℕ → Bee2 → Bee2
  after_step_g size a = record a { hash = copied a.hash (take size (hash_c a)) }

module _ (lib : Bee2Lib) (is_bash : IsBash lib) (a : Bee2) (sized : IsSized a) where
  length-hash_c : asked a ≤ hash_size_default → length (hash_c lib a) ≡ hash_size_default
  length-hash_c fits = omega (
    arith,
    is_bash.length-step_g (asked a) a.state,
    length-append (octets lib a) (drop (length (octets lib a)) a.hash),
    length-drop (length (octets lib a)) a.hash,
    sized.hash_size_lem,
  )

  pub bash_hash_step_g_fits :
      (size : ℕ)
      → asked a ≤ hash_size_default
      → c_int a.hash_size ≡ pos size
      → size ≤ hash_size_default
      → bash_hash_step_g lib a ≡ some (after_step_g lib size a)
  unfolding bash_hash_step_g
  bash_hash_step_g_fits size hid_fits converted size_fits =
      let written : ltb (length a.hash) (length (octets lib a)) ≡ false =
        ground (arith, is_bash.length-step_g (asked a) a.state) in
      let read : ltb (length (hash_c lib a)) size ≡ false =
        ground (arith, length-hash_c hid_fits) in
      rw (written, converted, read) refl
