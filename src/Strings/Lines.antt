-- ===== src/Strings/Lines.antt =====
-- `bufio.Scanner` with `bufio.ScanLines` over a reader that does not fail.
use integrity_sum.Base.{
  ℕ, ◌≡◌, refl, true, false, List, [], ◌∷◌, ◌++◌, arith, Bytes, length, Lacks, ◌==◌, ltb,
  if◌then◌else◌, ◌<◌, ◌≤◌,
}
use integrity_sum.Strings.Split.{push}

-- The lines before each `\n`, and what stands behind the last `\n` unless it is empty.
pub raw_lines : Bytes → List Bytes
raw_lines [] = []
raw_lines (c ∷ s) = elim (c == b'\n') [ true ↦ [] ∷ raw_lines s | false ↦ push c (raw_lines s) ]

-- One `\r` at the end of a line is dropped.
unfoldable pub drop_cr : Bytes → Bytes
drop_cr [] = []
drop_cr (c ∷ []) = if c == b'\r' then [] else c ∷ []
drop_cr (c ∷ d ∷ s) = c ∷ drop_cr (d ∷ s)

-- `bufio.MaxScanTokenSize`: `Scan` returns false at a line that does not fit the buffer.
abbrev pub max_scan_token_size : ℕ
max_scan_token_size = 65536

pub fitting : List Bytes → List Bytes
fitting [] = []
fitting (l ∷ ls) = if ltb (length l) max_scan_token_size then drop_cr l ∷ fitting ls else []

-- The texts that the loop `for scanner.Scan()` sees.
unfoldable pub scan_lines : Bytes → List Bytes
unfolding raw_lines fitting drop_cr
scan_lines s = fitting (raw_lines s)

raw_lines-line : (l s : Bytes) → Lacks b'\n' l → raw_lines (l ++ (b'\n' ∷ s)) ≡ l ∷ raw_lines s
unfolding raw_lines
raw_lines-line [] s _ = refl
raw_lines-line (c ∷ l) s (ne, h) = ground (arith, raw_lines-line l s h)

-- A line that is read as it stands.
pub record IsPlain (l : Bytes) : Type 0 where
  pub no_newline : Lacks b'\n' l
  pub no_cr : drop_cr l ≡ l
  pub fits : length l < max_scan_token_size

pub scan_lines-line : (l s : Bytes) → IsPlain l → scan_lines (l ++ (b'\n' ∷ s)) ≡ l ∷ scan_lines s
unfolding scan_lines
scan_lines-line l s h = rw (raw_lines-line l s h.no_newline) (ground (arith, h.fits, h.no_cr))

-- The texts end before a line that does not fit.
pub scan_lines-long :
    (l s : Bytes)
    → Lacks b'\n' l
    → max_scan_token_size ≤ length l
    → scan_lines (l ++ (b'\n' ∷ s)) ≡ []
unfolding scan_lines
scan_lines-long l s no_newline long = rw (raw_lines-line l s no_newline) (ground (arith, long))
