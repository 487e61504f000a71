-- ===== src/Checksums/Errors.antt =====
-- The reader stops at the first line that is no record, and takes every line before it.
use integrity_sum.Base.{
  ◌≡◌, refl, ap, sym, subst, ◌∙◌, List, [], ◌∷◌, ◌++◌, Bytes, All, Lacks, ◌≤◌, length, append-nil,
  append_assoc,
}
use integrity_sum.Base.Result.{Result, ok, err, ◌>>=◌}
use integrity_sum.Strings.Lines.{
  scan_lines, scan_lines-line, scan_lines-long, IsPlain, max_scan_token_size,
}
use integrity_sum.Checksums.{HashDataOutput, ReadError, parse_record, get, get_loop}

-- Each line is read as the record beside it.
abbrev pub Records : List Bytes → List HashDataOutput → Type 0
Records [] [] = Unit
Records [] (r ∷ rs) = ⊥
Records (l ∷ ls) [] = ⊥
Records (l ∷ ls) (r ∷ rs) = (parse_record l ≡ ok r) × Records ls rs

-- The lines that were read, the records that they gave, and the line that is no record.
pub record FirstBad (ls : List Bytes) (e : ReadError) : Type 0 where
  pub before : List Bytes
  pub taken : List HashDataOutput
  pub bad : Bytes
  pub after : List Bytes
  pub lines : ls ≡ before ++ (bad ∷ after)
  pub good : Records before taken
  pub refused : parse_record bad ≡ err e

get_loop_ok :
    (ls : List Bytes) (rs acc : List HashDataOutput)
    → Records ls rs
    → get_loop ls acc ≡ ok (acc ++ rs)
unfolding get_loop
get_loop_ok [] [] acc h = ap ok (sym (append-nil acc))
get_loop_ok [] (r ∷ rs) acc h = absurd h
get_loop_ok (l ∷ ls) [] acc h = absurd h
get_loop_ok (l ∷ ls) (r ∷ rs) acc (p, h) =
    rw p (get_loop_ok ls rs (acc ++ r ∷ []) h ∙ ap ok (append_assoc acc (r ∷ []) rs))

-- What the loop does, for every text: it reads all lines, or it stops at the first bad one.
abbrev Outcome : List Bytes → List HashDataOutput → Result ReadError (List HashDataOutput) → Type 0
Outcome ls acc (ok rs) = (new : List HashDataOutput) × (rs ≡ acc ++ new) × Records ls new
Outcome ls acc (err e) = FirstBad ls e

abbrev later :
    (l : Bytes) (ls : List Bytes) (acc : List HashDataOutput) (r : HashDataOutput)
    (o : Result ReadError (List HashDataOutput))
    → parse_record l ≡ ok r
    → Outcome ls (acc ++ r ∷ []) o
    → Outcome (l ∷ ls) acc o
later l ls acc r (ok rs) p (new, e, h) = (r ∷ new, e ∙ append_assoc acc (r ∷ []) new, (p, h))
later l ls acc r (err e) p b = record {
  before = l ∷ b.before;
  taken = r ∷ b.taken;
  bad = b.bad;
  after = b.after;
  lines = ap (λ t. l ∷ t) b.lines;
  good = (p, b.good);
  refused = b.refused;
}

get_loop_outcome : (ls : List Bytes) (acc : List HashDataOutput) → Outcome ls acc (get_loop ls acc)
unfolding get_loop
get_loop_outcome [] acc = ([], sym (append-nil acc), tt)
get_loop_outcome (l ∷ ls) acc = go (get_loop_outcome ls) (parse_record l) refl
  where
    go :
        ((bs : List HashDataOutput) → Outcome ls bs (get_loop ls bs))
        → (m : Result ReadError HashDataOutput) → parse_record l ≡ m
        → Outcome (l ∷ ls) acc (m >>= λ r. get_loop ls (acc ++ r ∷ []))
    go ih (ok r) p = later l ls acc r (get_loop ls (acc ++ r ∷ [])) p (ih (acc ++ r ∷ []))
    go ih (err e) p = record {
      before = [];
      taken = [];
      bad = l;
      after = ls;
      lines = refl;
      good = tt;
      refused = p;
    }

-- If every line that the scanner sees is a record, the reader returns the records in order.
pub get_complete :
    (r : Bytes) (rs : List HashDataOutput) → Records (scan_lines r) rs → get r ≡ ok rs
unfolding get
get_complete r rs h = get_loop_ok (scan_lines r) rs [] h

-- What the reader returns are the records of all lines that the scanner sees, in order; and if it
-- fails, then with the error of the first line that is no record.
pub get_outcome :
    (r : Bytes)
    → ((rs : List HashDataOutput) → get r ≡ ok rs → Records (scan_lines r) rs)
      × ((e : ReadError) → get r ≡ err e → FirstBad (scan_lines r) e)
unfolding get
get_outcome r = (
  λ rs h.
      let (new, e, recs) =
        subst (Outcome (scan_lines r) []) h (get_loop_outcome (scan_lines r) []) in
      subst (Records (scan_lines r)) (sym e) recs,
  λ e h. subst (Outcome (scan_lines r) []) h (get_loop_outcome (scan_lines r) []),
)

-- Lines, each with its line end.
abbrev pub text_of : List Bytes → Bytes
text_of [] = []
text_of (l ∷ ls) = l ++ (b'\n' ∷ text_of ls)

scan_lines-text_of :
    (ls : List Bytes) (s : Bytes)
    → All IsPlain ls
    → scan_lines (text_of ls ++ s) ≡ ls ++ scan_lines s
scan_lines-text_of [] s _ = refl
scan_lines-text_of (l ∷ ls) s (plain, h) =
    ap scan_lines (append_assoc l (b'\n' ∷ text_of ls) s)
    ∙ scan_lines-line l (text_of ls ++ s) plain
    ∙ ap (λ t. l ∷ t) (scan_lines-text_of ls s h)

-- A line of 65536 bytes or more ends the reading without an error: the reader returns the records of
-- the lines before it, whatever stands behind it.
pub long_line_ends_file :
    (ls : List Bytes) (rs : List HashDataOutput) (long rest : Bytes)
    → All IsPlain ls
    → Records ls rs
    → Lacks b'\n' long
    → max_scan_token_size ≤ length long
    → get (text_of ls ++ (long ++ (b'\n' ∷ rest))) ≡ ok rs
long_line_ends_file ls rs long rest plain recs no_newline too_long =
    get_complete (text_of ls ++ (long ++ (b'\n' ∷ rest))) rs (
      subst (λ t. Records t rs)
        (sym (
          scan_lines-text_of ls (long ++ (b'\n' ∷ rest)) plain
          ∙ ap (λ t. ls ++ t) (scan_lines-long long rest no_newline too_long)
          ∙ append-nil ls))
        recs)
