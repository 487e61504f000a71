-- ===== src/Options/Parsed.antt =====
-- What a result of the options' parser is like, for every text.
use integrity_sum.Base.{
  ℕ, ◌≡◌, ◌≢◌, ◌↔◌, refl, ap, sym, subst, ◌∙◌, List, [], ◌∷◌, map, Option, some, arith, Bytes, All,
}
use integrity_sum.Base.Map.{Map, lookup, insert, lookup-insert}
use integrity_sum.Base.Result.{ok, >>=-eq-ok}
use integrity_sum.Strings.Split.{split, split-ne-nil}
use integrity_sum.Strings.Trim.{trim_space}
use integrity_sum.Strings.Cutset.{trim}
use integrity_sum.Strings.Quote.{unquote}
use integrity_sum.Options.{
  paths_of, from_key_value, parse_process, parse_processes, unquoted, parse_monitoring_opts,
}

-- The text is `name=…` with something behind the first equals sign.
abbrev pub IsProcess : Bytes → Type 0
IsProcess p = (entry : Bytes × List Bytes) × (parse_process p ≡ ok entry)

-- The processes of the text: its parts between spaces, without the quotes.
abbrev pub processes : (Bytes → Option Bytes) → Bytes → List Bytes
processes unescape opts = split (unquoted (unquote unescape opts) opts) (b' ' ∷ [])

-- There is a process, and each has a path.
pub record IsMonitored (m : Map (List Bytes)) : Type 0 where
  pub some_process : m ≢ []
  pub some_path : (name : Bytes) → lookup name m ≢ some []

paths_of-ne-nil : (s : Bytes) → paths_of s ≢ []
unfolding paths_of
paths_of-ne-nil s x =
    let (p, ps, e) = split-ne-nil (trim b',' s) (b',' ∷ []) in cc (ap (map trim_space) e)

entry_paths :
    (parts : List Bytes) (entry : Bytes × List Bytes)
    → from_key_value parts ≡ ok entry
    → entry.1 ≢ []
entry_paths [] entry h = absurd (ground arith)
entry_paths (name ∷ []) entry h = absurd (ground arith)
entry_paths (name ∷ [] ∷ more) entry h = absurd (ground arith)
entry_paths (name ∷ (c ∷ s) ∷ more) entry h = λ x. paths_of-ne-nil (c ∷ s) (ground arith)

process_paths : (p : Bytes) (entry : Bytes × List Bytes) → parse_process p ≡ ok entry → entry.1 ≢ []
unfolding parse_process
process_paths p entry h = entry_paths (split p (b'=' ∷ [])) entry h

insert_paths :
    (k name : Bytes) (v : List Bytes) (m : Map (List Bytes))
    → v ≢ []
    → ((j : Bytes) → lookup j m ≢ some [])
    → lookup name (insert k v m) ≢ some []
insert_paths k name v m ne f x = ground (arith, lookup-insert k name v m, f name)

insert-ne-nil : (k : Bytes) (v : List Bytes) (m : Map (List Bytes)) → insert k v m ≢ []
unfolding insert
insert-ne-nil k v m x = cc

-- What the loop returns: every process was one, and the paths of the map stay non-empty.
processes_parsed :
    (ps : List Bytes) (m m' : Map (List Bytes))
    → parse_processes ps m ≡ ok m'
    → All IsProcess ps
      × (((name : Bytes) → lookup name m ≢ some []) → (name : Bytes) → lookup name m' ≢ some [])
      × ((m ≢ []) → m' ≢ [])
unfolding parse_processes
processes_parsed [] m m' h = (tt, λ f name x. f name (ground arith), λ ne x. ne (ground arith))
processes_parsed (p ∷ ps) m m' h =
    let (entry, head, rest) = >>=-eq-ok (parse_process p) _ h in
    let (valid, paths, kept) = processes_parsed ps (insert entry.0 entry.1 m) m' rest in
    (
      ((entry, head), valid),
      λ f. paths (λ name x. insert_paths entry.0 name entry.1 m (process_paths p entry head) f x),
      λ _. kept (insert-ne-nil entry.0 entry.1 m),
    )

processes_complete :
    (ps : List Bytes) (m : Map (List Bytes))
    → All IsProcess ps
    → (m' : Map (List Bytes)) × (parse_processes ps m ≡ ok m')
unfolding parse_processes
processes_complete [] m _ = (m, refl)
processes_complete (p ∷ ps) m ((entry, head), valid) =
    let (m', e) = processes_complete ps (insert entry.0 entry.1 m) valid in (m', rw head e)

from_processes_eq :
    (unescape : Bytes → Option Bytes) (c : ℕ) (opts p : Bytes) (ps : List Bytes)
    → processes unescape (c ∷ opts) ≡ p ∷ ps
    → parse_monitoring_opts unescape (c ∷ opts) ≡ parse_processes (p ∷ ps) []
unfolding parse_monitoring_opts
from_processes_eq unescape c opts p ps cut = rw cut

nothing_empty : (name : Bytes) → lookup {V = List Bytes} name [] ≢ some []
unfolding lookup
nothing_empty name x = cc

first_kept :
    (p : Bytes) (ps : List Bytes) (m : Map (List Bytes))
    → parse_processes (p ∷ ps) [] ≡ ok m
    → m ≢ []
unfolding parse_processes
first_kept p ps m h =
    let (entry, _, rest) = >>=-eq-ok (parse_process p) _ h in
    (processes_parsed ps (insert entry.0 entry.1 []) m rest).2 (insert-ne-nil entry.0 entry.1 [])

-- Text that is not empty is accepted exactly if each of its processes is one, and then the result has
-- a process, and a path for each process that it has.
pub parse_monitoring_opts_outcome :
    (unescape : Bytes → Option Bytes) (c : ℕ) (opts : Bytes)
    → (((m : Map (List Bytes)) × (parse_monitoring_opts unescape (c ∷ opts) ≡ ok m))
        ↔ All IsProcess (processes unescape (c ∷ opts)))
      × ((m : Map (List Bytes)) → parse_monitoring_opts unescape (c ∷ opts) ≡ ok m → IsMonitored m)
parse_monitoring_opts_outcome unescape c opts =
    let (p, ps, cut) =
      split-ne-nil (unquoted (unquote unescape (c ∷ opts)) (c ∷ opts)) (b' ' ∷ []) in
    let e = from_processes_eq unescape c opts p ps cut in
    (
      (
        λ (m, h). subst (All IsProcess) (sym cut) (processes_parsed (p ∷ ps) [] m (sym e ∙ h)).0,
        λ valid.
            let (m, h) = processes_complete (p ∷ ps) [] (subst (All IsProcess) cut valid) in
            (m, e ∙ h),
      ),
      λ m h. record {
        some_process = first_kept p ps m (sym e ∙ h);
        some_path = (processes_parsed (p ∷ ps) [] m (sym e ∙ h)).1 nothing_empty;
      },
    )
