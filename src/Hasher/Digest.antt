-- ===== src/Hasher/Digest.antt =====
-- What the text of a hash says about the data.
use integrity_sum.Base.{◌≡◌, ap, ◌∙◌, sym, ◌↔◌, Bytes, All}
use integrity_sum.Strings.Hex.{
  encode_to_string, IsByte, IsHexDigit, encode_to_string-IsHexDigit, encode_to_string_inj,
}
use integrity_sum.Hasher.{Hash, copy, hash_data}

-- What Go documents of a `hash.Hash`: `Reset` forgets what was written, and a sum is bytes.
pub record IsHash {S : Type 0} (h : Hash S) : Type 0 where
  pub reset_forgets : (s t : S) → h.reset s ≡ h.reset t
  pub sum_bytes : (s : S) → All IsByte (h.sum s)

module _ {S : Type 0} (h : Hash S) where
  -- The sum of content from a fresh start; `start` is any state.
  abbrev pub digest : S → Bytes → Bytes
  digest start content = h.sum (copy h content (h.reset start))

module _ {S : Type 0} (h : Hash S) (is_hash : IsHash h) where
  -- The texts of the hashes of two contents are the same exactly if their digests are, whatever the
  -- instance hashed before.
  pub hash_data_iff :
      (start s t : S) (content other : Bytes)
      → ((hash_data h content s).0 ≡ (hash_data h other t).0)
        ↔ (digest h start content ≡ digest h start other)
  unfolding hash_data
  hash_data_iff start s t content other =
      let from_s = ap (λ r. h.sum (copy h content r)) (is_hash.reset_forgets s start) in
      let from_t = ap (λ r. h.sum (copy h other r)) (is_hash.reset_forgets t start) in
      (
        λ e.
            sym from_s
            ∙ (encode_to_string_inj (h.sum (copy h content (h.reset s)))
                  (h.sum (copy h other (h.reset t)))
                  (is_hash.sum_bytes (copy h content (h.reset s)))
                  (is_hash.sum_bytes (copy h other (h.reset t))) e
                ∙ from_t),
        λ e. ap encode_to_string (from_s ∙ (e ∙ sym from_t)),
      )

  pub hash_data-IsHexDigit : (content : Bytes) (s : S) → All IsHexDigit (hash_data h content s).0
  unfolding hash_data
  hash_data-IsHexDigit content s =
      encode_to_string-IsHexDigit (h.sum (copy h content (h.reset s)))
        (is_hash.sum_bytes (copy h content (h.reset s)))

  pub hash_data_any_start :
      (content : Bytes) (s t : S) → (hash_data h content s).0 ≡ (hash_data h content t).0
  unfolding hash_data
  hash_data_any_start content s t =
      ap (λ r. encode_to_string (h.sum (copy h content r))) (is_hash.reset_forgets s t)
