-- ===== src/Bee2/File.antt =====
-- `Bee2HashFile` of internal/ffi/bee2/wrapper.go beside the methods of bee2.go.
use integrity_sum.Base.{
  ◌/◌, ◌≡◌, ◌≢◌, refl, sym, ap, ◌∙◌, List, [], ◌∷◌, Bytes, length, ltb, take_all, drop_all,
  append-nil, arith, none, some, All, true, false,
}
use integrity_sum.Strings.Hex.{encode_to_string}
use integrity_sum.Strings.Decimal.{pos}
use integrity_sum.Bee2.Library.{Bee2Lib, IsBash, concat, steps}
use integrity_sum.Bee2.{
  Bee2, hid_default, hash_size_default, block_size, zeros, sum, c_write, go_bytes, reset, read_loop,
  bsum_hash_file, bee2_hash_file,
}
use integrity_sum.Bee2.Bounds.{octets}
use integrity_sum.Bee2.Digest.{length-zeros, IsDefault, write_all, default_hash, sum-write_all}

c_write_whole :
    (buffer octets : Bytes) → length octets ≡ length buffer → c_write buffer octets ≡ some octets
c_write_whole buffer octets e =
    let fits : ltb (length buffer) (length octets) ≡ false = ground (arith) in
    rw (fits, drop_all (length octets) buffer (omega arith)) (ap some (append-nil octets))

go_bytes_whole :
    (buffer : Bytes)
    → length buffer ≡ hash_size_default
    → go_bytes (pos hash_size_default) buffer ≡ some buffer
go_bytes_whole buffer e =
    let fits : ltb (length buffer) hash_size_default ≡ false = ground (arith) in
    rw fits (ap some (take_all hash_size_default buffer (omega arith)))

module _ (lib : Bee2Lib) (is_bash : IsBash lib) where
  read_loop_lem :
      (bufs : List Bytes) (state : Bytes)
      → All (λ b. b ≢ []) bufs
      → read_loop lib hid_default false bufs state ≡ some (steps lib bufs state)
  unfolding read_loop
  read_loop_lem [] state h = refl
  read_loop_lem ([] ∷ bufs) state (h, hs) = absurd (h refl)
  read_loop_lem ((c ∷ buf) ∷ bufs) state (h, hs) =
      read_loop_lem bufs (lib.bash_step_h (c ∷ buf) state) hs

  read_loop_error :
      (bufs : List Bytes) (state : Bytes) → read_loop lib hid_default true bufs state ≡ none
  unfolding read_loop
  read_loop_error [] state = refl
  read_loop_error ([] ∷ bufs) state = refl
  read_loop_error ((c ∷ buf) ∷ bufs) state = read_loop_error bufs (lib.bash_step_h (c ∷ buf) state)

  bsum_hash_file_lem :
      (state : Bytes) (bufs : List Bytes)
      → length state ≡ block_size
      → All (λ b. b ≢ []) bufs
      → bsum_hash_file lib state
          (zeros hash_size_default)
          hid_default
          (some (record { bufs = bufs; ferror = false }))
        ≡ some (default_hash lib (concat bufs))
  unfolding bsum_hash_file
  bsum_hash_file_lem state bufs size h =
      let octets =
        lib.bash_step_g (hid_default / 8)
          (steps lib bufs (lib.bash_start (hid_default / 2) state)) in
      rw (read_loop_lem bufs (lib.bash_start (hid_default / 2) state) h) (
        c_write_whole (zeros hash_size_default) octets (
          is_bash.length-step_g (hid_default / 8)
            (steps lib bufs (lib.bash_start (hid_default / 2) state)))
        ∙ ap some (
            is_bash.stream (hid_default / 2) (hid_default / 8) state (zeros block_size) bufs
              (size ∙ sym (length-zeros block_size))))

  -- The file's hash is that of its content as `Reset`, writes and `Sum` give it, however `fread` cuts
  -- the content and whatever the C buffer held; a file that cannot be opened, or that has a read error
  -- behind the octets that were read, gives an error.
  pub bee2_hash_file_lem :
      (a : Bee2) (state : Bytes) (bufs ps : List Bytes)
      → IsDefault a
      → length state ≡ block_size
      → All (λ b. b ≢ []) bufs
      → concat bufs ≡ concat ps
      → ((r : Bytes × Bee2) × (sum lib [] (write_all lib ps (reset lib a)) ≡ some r)
          × (bee2_hash_file lib state (some (record { bufs = bufs; ferror = false }))
              ≡ some (encode_to_string r.0)))
        × (bee2_hash_file lib state none ≡ none)
        × (bee2_hash_file lib state (some (record { bufs = bufs; ferror = true })) ≡ none)
  unfolding bee2_hash_file
  bee2_hash_file_lem a state bufs ps d size h same_content =
      let (b, summed_up, kept) = sum-write_all lib is_bash a [] ps d in
      let octets = default_hash lib (concat bufs) in
      (
        (
          (default_hash lib (concat ps), b),
          summed_up,
          rw
              (
                bsum_hash_file_lem state bufs size h,
                go_bytes_whole octets (
                    is_bash.length-step_g (hid_default / 8) (
                      lib.bash_step_h (concat bufs)
                        (lib.bash_start (hid_default / 2) (zeros block_size)))),
              )
              (ap (λ x. some (encode_to_string (default_hash lib x))) same_content),
        ),
        refl,
        rw (read_loop_error bufs (lib.bash_start (hid_default / 2) state)) refl,
      )
