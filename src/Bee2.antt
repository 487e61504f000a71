-- ===== src/Bee2.antt =====
-- internal/ffi/bee2: the hash algorithm of the C library bee2 as a Go `hash.Hash` (bee2.go), and the
-- C code and the wrappers around the library's calls (wrapper.go). The library is a parameter. A write
-- or a read behind the end of a C buffer, and a panic of `C.GoBytes`, are `none`.
pub mod Cgo
pub mod Library
pub mod Blocks
pub mod Bounds
pub mod Digest
pub mod File
mod Tests
use integrity_sum.Base.{
  ℕ, zero, suc, ◌+◌, ◌-◌, ◌/◌, Bool, true, false, ◌||◌, List, [], ◌∷◌, ◌++◌, Option, none, some,
  Bytes, length, take, drop, ltb, ◌==◌, if◌then◌else◌,
}
use integrity_sum.Strings.Hex.{encode_to_string}
use integrity_sum.Strings.Decimal.{ℤ, pos, negsuc}
use integrity_sum.Bee2.Cgo.{half, eighth, c_ulong, c_int}
use integrity_sum.Bee2.Library.{Bee2Lib}

abbrev pub hid_default : ℕ
hid_default = 256

abbrev pub hash_size_default : ℕ
hash_size_default = 32

abbrev pub block_size : ℕ
block_size = 4096

abbrev pub zeros : ℕ → Bytes
zeros zero = []
zeros (suc n) = 0 ∷ zeros n

-- `bee2`: the field `block` is `data`.
pub record Bee2 : Type 0 where
  pub hid : ℤ
  pub hash_size : ℤ
  pub state : Bytes
  pub hash : Bytes
  pub block : Bytes
  pub n : ℕ

-- Go's `copy` into a slice: what the slice holds afterwards.
abbrev pub copied : Bytes → Bytes → Bytes
copied dst src = take (length dst) src ++ drop (length src) dst

-- The number of bytes that `copy` returns.
abbrev pub copy_count : Bytes → Bytes → ℕ
copy_count dst src = length (take (length dst) src)

-- What C's write of octets to the start of a buffer leaves, and what `C.GoBytes` reads from
-- it; with a negative length it panics.
abbrev pub c_write : Bytes → Bytes → Option Bytes
c_write buffer octets =
    if ltb (length buffer) (length octets)
    then none
    else some (octets ++ drop (length octets) buffer)

abbrev pub go_bytes : ℤ → Bytes → Option Bytes
go_bytes (pos n) buffer = if ltb (length buffer) n then none else some (take n buffer)
go_bytes (negsuc n) buffer = none

-- An option of `New`: `WithHid`, `WithHashSize`.
abbrev pub with_hid : ℤ → Bee2 → Bee2
with_hid hid a = record a { hid = hid }

abbrev pub with_hash_size : ℤ → Bee2 → Bee2
with_hash_size hs a = record a { hash_size = hs }

abbrev read_hash : Bee2 → Option Bytes → Option Bee2
read_hash a none = none
read_hash a (some hash) = some (record a { hash = copied a.hash hash })

abbrev written_hash : Bee2 → Option Bytes → Option Bee2
written_hash a none = none
written_hash a (some hash_c) = read_hash a (go_bytes (c_int a.hash_size) hash_c)

-- `Size` and `BlockSize`
abbrev size_of : Bee2 → ℤ
size_of a = a.hash_size

abbrev block_size_of : Bee2 → ℕ
block_size_of a = block_size

-- The loop over the options.
abbrev apply : List (Bee2 → Bee2) → Bee2 → Bee2
apply [] a = a
apply (opt ∷ opts) a = apply opts (opt a)

-- `a.n = copy(a.data, p[takeFrom:takeTo])`
abbrev pub fill : Bytes → Bee2 → Bee2
fill slice a = record a { block = copied a.block slice; n = copy_count a.block slice }

abbrev pub slice : Bytes → ℕ → ℕ → Bytes
slice p take_from take_to = take (take_to - take_from) (drop take_from p)

abbrev pub summed : Bytes → Option Bee2 → Option (Bytes × Bee2)
summed input none = none
summed input (some a) = some (input ++ a.hash, a)

-- What the C file system gives for a name: the results of `fread`, and `ferror` behind them.
pub record Stream : Type 0 where
  pub bufs : List Bytes
  pub ferror : Bool

abbrev to_hex : Option Bytes → Option Bytes
to_hex none = none
to_hex (some hash) = some (encode_to_string hash)

abbrev from_c : Option Bytes → Option Bytes
from_c none = none
from_c (some hash_c) = to_hex (go_bytes (pos hash_size_default) hash_c)

module _ (lib : Bee2Lib) where
  -- `bashHashStart`
  abbrev pub bash_hash_start : Bee2 → Bee2
  bash_hash_start a = record a {
    state = copied a.state (lib.bash_start (c_ulong (half a.hid)) a.state);
  }

  -- `bashHashStepH`: the library reads the first `n` octets of the block.
  abbrev pub bash_hash_step_h : Bee2 → Bee2
  bash_hash_step_h a = record a {
    state = copied a.state (lib.bash_step_h (take a.n a.block) a.state);
  }

  -- `bashHashStepG`
  unfoldable pub bash_hash_step_g : Bee2 → Option Bee2
  bash_hash_step_g a =
      written_hash a (c_write a.hash (lib.bash_step_g (c_ulong (eighth a.hid)) a.state))

  -- `New`
  unfoldable pub new : List (Bee2 → Bee2) → Bee2
  new opts = bash_hash_start (
      apply opts (record {
        hid = pos hid_default;
        hash_size = pos hash_size_default;
        state = zeros block_size;
        hash = zeros hash_size_default;
        block = zeros block_size;
        n = 0;
      }))

  -- `NewDefault`
  abbrev new_default : Bee2
  unfolding new
  new_default = new []

  -- The loop of `Write`; what it returns is the last `takeFrom`.
  pub write_loop : ℕ → Bytes → ℕ → ℕ → Bee2 → ℕ × Bee2
  write_loop zero p take_from take_to a = (take_from, a)
  write_loop (suc fuel) p take_from take_to a =
      let take_to' = if ltb (length p) take_to then length p else take_to in
      let a' = fill (slice p take_from take_to') a in
      let rest =
        write_loop fuel p (take_from + a'.n) (take_from + a'.n + block_size)
          (bash_hash_step_h a') in
      if ltb take_from (length p) then rest else (take_from, a)

  -- `Write`: a round for each byte at most.
  unfoldable pub write : Bytes → Bee2 → ℕ × Bee2
  unfolding write_loop
  write p a = write_loop (suc (length p)) p 0 block_size a

  -- `Sum`
  unfoldable pub sum : Bytes → Bee2 → Option (Bytes × Bee2)
  unfolding bash_hash_step_g
  sum input a = summed input (bash_hash_step_g a)

  -- `Reset`
  unfoldable pub reset : Bee2 → Bee2
  reset a = bash_hash_start (record a {
    hash = copied a.hash (zeros hash_size_default);
    state = copied a.state (zeros block_size);
  })

  -- `hid ? bash… : belt…`
  abbrev c_start : ℕ → Bytes → Bytes
  c_start hid state = if hid == 0 then lib.belt_start state else lib.bash_start (hid / 2) state

  abbrev c_step_h : ℕ → Bytes → Bytes → Bytes
  c_step_h hid buf state = if hid == 0 then lib.belt_step_h buf state else lib.bash_step_h buf state

  abbrev c_step_g : ℕ → Bytes → Bytes
  c_step_g hid state = if hid == 0 then lib.belt_step_g state else lib.bash_step_g (hid / 8) state

  -- The loop of `bsumHashFile` over what `fread` gives; no more octets are an error or the end.
  unfoldable pub read_loop : ℕ → Bool → List Bytes → Bytes → Option Bytes
  read_loop hid ferror [] state = if ferror then none else some state
  read_loop hid ferror ([] ∷ bufs) state = if ferror then none else some state
  read_loop hid ferror ((c ∷ buf) ∷ bufs) state =
      read_loop hid ferror bufs (c_step_h hid (c ∷ buf) state)

  abbrev written : ℕ → Bytes → Option Bytes → Option Bytes
  written hid hash none = none
  written hid hash (some state) = c_write hash (c_step_g hid state)

  -- `bsumHashFile`: `none` stands for -1. `state` is what the memory of the local buffer holds.
  unfoldable pub bsum_hash_file : Bytes → Bytes → ℕ → Option Stream → Option Bytes
  unfolding read_loop
  bsum_hash_file state hash hid none = none
  bsum_hash_file state hash hid (some f) =
      written hid hash (read_loop hid f.ferror f.bufs (c_start hid state))

  -- `Bee2HashFile`, and `HashFile`
  unfoldable pub bee2_hash_file : Bytes → Option Stream → Option Bytes
  unfolding bsum_hash_file
  bee2_hash_file state file =
      from_c (bsum_hash_file state (zeros hash_size_default) (c_ulong (pos hid_default)) file)
