-- ===== src/Checksums/Tests.antt =====
-- Tests of the checksums reader, and its theorems at concrete texts.
use integrity_sum.Base.{
  ℕ, zero, suc, ◌++◌, ap, arith, length, Lacks, ◌≡◌, refl, List, [], ◌∷◌, Bytes, codes,
}
use integrity_sum.Base.Result.{ok, err}
use integrity_sum.Strings.Split.{split}
use integrity_sum.Strings.Trim.{trim_space}
use integrity_sum.Strings.Lines.{scan_lines, drop_cr, IsPlain}
use integrity_sum.Checksums.{
  HashDataOutput, ReadError, empty_record, incorrect_record, output, parse_record, get,
}
use integrity_sum.Checksums.Errors.{Records, FirstBad, get_outcome, text_of, long_line_ends_file}

abbrev two_lines : Bytes
two_lines = codes "f378  etc/nginx/fastcgi_params\r\n09ab  bin/sh\n"

abbrev blank_line : Bytes
blank_line = codes "f378  etc/a\n\n09ab  bin/sh\n"

record_is_parsed :
    parse_record (codes "f378  etc/nginx/fastcgi_params")
    ≡ ok (output (codes "f378") (codes "etc/nginx/fastcgi_params"))
unfolding parse_record split trim_space
record_is_parsed = refl

one_space_is_refused : parse_record (codes "f378 etc") ≡ err (incorrect_record (codes "f378 etc"))
unfolding parse_record split
one_space_is_refused = refl

lines_are_read :
    get two_lines
    ≡ ok (
        output (codes "f378") (codes "etc/nginx/fastcgi_params")
        ∷ output (codes "09ab") (codes "bin/sh")
        ∷ [])
unfolding get parse_record split trim_space scan_lines
lines_are_read = refl

blank_line_is_refused : get blank_line ≡ err empty_record
unfolding get parse_record split trim_space scan_lines
blank_line_is_refused = refl

get_outcome_example :
    ((rs : List HashDataOutput) → get blank_line ≡ ok rs → Records (scan_lines blank_line) rs)
    × ((e : ReadError) → get blank_line ≡ err e → FirstBad (scan_lines blank_line) e)
get_outcome_example = get_outcome blank_line

-- One record, a line of `x`, and another record.
xs : ℕ → Bytes
xs zero = []
xs (suc n) = b'x' ∷ xs n

length-xs : (n : ℕ) → length (xs n) ≡ n
unfolding xs
length-xs zero = refl
length-xs (suc n) = ap suc (length-xs n)

xs-Lacks : (n : ℕ) → Lacks b'\n' (xs n)
unfolding xs
xs-Lacks zero = tt
xs-Lacks (suc n) = ((λ e. omega (arith, e)), xs-Lacks n)

record-IsPlain : IsPlain (codes "f378  etc/a")
unfolding drop_cr
record-IsPlain = record { no_newline = ground arith; no_cr = refl; fits = omega arith }

long_line_is_the_end :
    get (text_of (codes "f378  etc/a" ∷ []) ++ (xs 65536 ++ codes "\n09ab  bin/sh\n"))
    ≡ ok (output (codes "f378") (codes "etc/a") ∷ [])
unfolding parse_record split trim_space
long_line_is_the_end =
    long_line_ends_file (codes "f378  etc/a" ∷ []) (output (codes "f378") (codes "etc/a") ∷ [])
      (xs 65536) (codes "09ab  bin/sh\n") (record-IsPlain, tt) (refl, tt) (xs-Lacks 65536)
      (omega (arith, length-xs 65536))
