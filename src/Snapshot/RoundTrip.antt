-- ===== src/Snapshot/RoundTrip.antt =====
-- A checksums file that was written is read back.
use integrity_sum.Base.{
  ◌≡◌, ◌≢◌, refl, ap, ◌∙◌, false, List, [], ◌∷◌, ◌++◌, map, Bytes, All, Lacks, arith, append_assoc,
  append-nil,
}
use integrity_sum.Base.Result.{ok}
use integrity_sum.Strings.Search.{contains}
use integrity_sum.Strings.Split.{split, split-append, split_alone}
use integrity_sum.Strings.Trim.{trim_space, trim_space-IsGraph, IsGraph}
use integrity_sum.Strings.Hex.{IsHexDigit}
use integrity_sum.Strings.Lines.{IsPlain, scan_lines, scan_lines-line}
use integrity_sum.Worker.{FileHash}
use integrity_sum.Checksums.{HashDataOutput, output, separator, parse_record, get}
use integrity_sum.Checksums.Errors.{Records, get_complete}
use integrity_sum.Snapshot.{record_text}

-- A hash and a path that survive being written on a line: the hash is lower-case hexadecimal, the
-- path has no two spaces in a row, no space at an end and no line break, and the line fits.
pub record IsRecordable (v : FileHash) : Type 0 where
  pub hash_hex : All IsHexDigit v.hash
  pub path_single : contains v.path separator ≡ false
  pub path_trimmed : trim_space v.path ≡ v.path
  pub plain : IsPlain (record_text v)

hex-Lacks : (s : Bytes) → All IsHexDigit s → Lacks b' ' s
hex-Lacks [] h = tt
hex-Lacks (c ∷ s) (hc, h) = (λ e. ground arith, hex-Lacks s h)

hex-IsGraph : (s : Bytes) → All IsHexDigit s → All IsGraph s
hex-IsGraph [] h = tt
hex-IsGraph (c ∷ s) (hc, h) = (ground arith, hex-IsGraph s h)

split_record :
    (v : FileHash) → IsRecordable v → split (record_text v) separator ≡ v.hash ∷ v.path ∷ []
split_record v h =
    split-append v.hash b' ' (b' ' ∷ []) v.path (hex-Lacks v.hash h.hash_hex)
    ∙ ap (λ r. v.hash ∷ r) (split_alone v.path separator h.path_single)

parse_from :
    (s : Bytes) (h p : Bytes)
    → split s separator ≡ h ∷ p ∷ []
    → s ≢ []
    → parse_record s ≡ ok (output (trim_space h) (trim_space p))
unfolding parse_record
parse_from [] h p e ne = absurd (ne refl)
parse_from (c ∷ s) h p e ne = rw e

text-ne-nil : (h p : Bytes) → (h ++ (separator ++ p)) ≢ []
text-ne-nil [] p e = cc
text-ne-nil (c ∷ h) p e = cc

parse-record_text :
    (v : FileHash) → IsRecordable v → parse_record (record_text v) ≡ ok (output v.hash v.path)
parse-record_text v h =
    parse_from (record_text v) v.hash v.path (split_record v h) (text-ne-nil v.hash v.path)
    ∙ ap ok (cc (trim_space-IsGraph v.hash (hex-IsGraph v.hash h.hash_hex), h.path_trimmed))

-- The text of all lines.
unfoldable pub file_text : List FileHash → Bytes
file_text [] = []
file_text (v ∷ vs) = record_text v ++ (b'\n' ∷ file_text vs)

abbrev pub outputs : List FileHash → List HashDataOutput
outputs = map (λ v. output v.hash v.path)

pub scan_lines-file_text :
    (vs : List FileHash) (rest : Bytes)
    → All IsRecordable vs
    → scan_lines (file_text vs ++ rest) ≡ map record_text vs ++ scan_lines rest
unfolding file_text
scan_lines-file_text [] rest _ = refl
scan_lines-file_text (v ∷ vs) rest (h, hs) =
    ap scan_lines (append_assoc (record_text v) (b'\n' ∷ file_text vs) rest)
    ∙ (scan_lines-line (record_text v) (file_text vs ++ rest) h.plain
        ∙ ap (λ t. record_text v ∷ t) (scan_lines-file_text vs rest hs))

records_of_outputs :
    (vs : List FileHash) → All IsRecordable vs → Records (map record_text vs) (outputs vs)
records_of_outputs [] _ = tt
records_of_outputs (v ∷ vs) (h, hs) = (parse-record_text v h, records_of_outputs vs hs)

scan_lines-nil : scan_lines [] ≡ []
unfolding scan_lines
scan_lines-nil = refl

pub get-file_text :
    (vs : List FileHash) → All IsRecordable vs → get (file_text vs) ≡ ok (outputs vs)
get-file_text vs h = get_complete (file_text vs) (outputs vs) (
    rw
      (
        ← append-nil (file_text vs),
        scan_lines-file_text vs [] h,
        scan_lines-nil,
        append-nil (map record_text vs),
      )
      (records_of_outputs vs h))
