-- ===== src/Options/RoundTrip.antt =====
-- Monitoring options that are written out are parsed back.
use integrity_sum.Base.{
  ℕ, ◌≡◌, ◌≢◌, refl, sym, subst, ap, ◌∙◌, List, [], ◌∷◌, ◌++◌, map, Option, none, arith, Bytes, All,
  All-append, Lacks,
}
use integrity_sum.Base.Map.{Map, insert}
use integrity_sum.Base.Result.{ok}
use integrity_sum.Strings.Split.{split, join, split-join, split-append, split-Lacks}
use integrity_sum.Strings.Trim.{trim_space}
use integrity_sum.Strings.Cutset.{trim, EndsBeside, EndsBeside-append, trim_beside}
use integrity_sum.Strings.Quote.{unquote}
use integrity_sum.Options.{paths_of, parse_process, parse_processes, parse_monitoring_opts}

-- A path that can stand in the options.
pub record IsOptionPath (p : Bytes) : Type 0 where
  pub not_empty : p ≢ []
  pub trimmed : trim_space p ≡ p
  pub no_comma : Lacks b',' p
  pub no_equals : Lacks b'=' p
  pub no_space : Lacks b' ' p

-- A process and its paths.
pub record Entry : Type 0 where
  pub name : Bytes
  pub path : Bytes
  pub more : List Bytes

pub record IsEntry (e : Entry) : Type 0 where
  pub name_no_equals : Lacks b'=' e.name
  pub name_no_space : Lacks b' ' e.name
  pub paths_fit : All IsOptionPath (e.path ∷ e.more)

abbrev pub entry_text : Entry → Bytes
entry_text e = e.name ++ (b'=' ∷ join (e.path ∷ e.more) (b',' ∷ []))

-- The map that the loop builds, the last entry of a name in force.
pub entries_map : List Entry → Map (List Bytes) → Map (List Bytes)
entries_map [] m = m
entries_map (e ∷ es) m = entries_map es (insert e.name (e.path ∷ e.more) m)

EndsBeside-Lacks : (b c : ℕ) (s : Bytes) → Lacks b (c ∷ s) → EndsBeside b (c ∷ s)
EndsBeside-Lacks b c [] (h, _) = record { start = []; last = c; spelled = refl; beside = h }
EndsBeside-Lacks b c (d ∷ s) (h, hs) = EndsBeside-append b (c ∷ []) (EndsBeside-Lacks b d s hs)

part_ends : (p : Bytes) → IsOptionPath p → EndsBeside b',' p
part_ends [] h = absurd (h.not_empty refl)
part_ends (c ∷ s) h = EndsBeside-Lacks b',' c s h.no_comma

join_ends :
    (p : Bytes) (ps : List Bytes)
    → All IsOptionPath (p ∷ ps)
    → EndsBeside b',' (join (p ∷ ps) (b',' ∷ []))
unfolding join
join_ends p [] (h, _) = part_ends p h
join_ends p (q ∷ ps) (h, hs) =
    EndsBeside-append b',' p (EndsBeside-append b',' (b',' ∷ []) (join_ends q ps hs))

-- The joined paths begin with the first byte of the first.
join_head :
    (c : ℕ) (s : Bytes) (ps : List Bytes) → (t : Bytes) × (join ((c ∷ s) ∷ ps) (b',' ∷ []) ≡ c ∷ t)
unfolding join
join_head c s [] = (s, refl)
join_head c s (q ∷ ps) = (_, refl)

trim-join :
    (p : Bytes) (ps : List Bytes)
    → All IsOptionPath (p ∷ ps)
    → trim b',' (join (p ∷ ps) (b',' ∷ [])) ≡ join (p ∷ ps) (b',' ∷ [])
trim-join [] ps (h, _) = absurd (h.not_empty refl)
trim-join (c ∷ s) ps (h, hs) =
    let (t, e) = join_head c s ps in
    ap (trim b',') e
    ∙ (trim_beside b',' c t h.no_comma.0 (subst (EndsBeside b',') e (join_ends (c ∷ s) ps (h, hs)))
        ∙ sym e)

map-trim_space : (ps : List Bytes) → All IsOptionPath ps → map trim_space ps ≡ ps
map-trim_space [] _ = refl
map-trim_space (p ∷ ps) (h, hs) = cc (h.trimmed, map-trim_space ps hs)

paths_lack :
    (b : ℕ) (ps : List Bytes)
    → ((p : Bytes) → IsOptionPath p → Lacks b p)
    → All IsOptionPath ps
    → All (Lacks b) ps
paths_lack b [] f _ = tt
paths_lack b (p ∷ ps) f (h, hs) = (f p h, paths_lack b ps f hs)

paths_of-join :
    (p : Bytes) (ps : List Bytes)
    → All IsOptionPath (p ∷ ps)
    → paths_of (join (p ∷ ps) (b',' ∷ [])) ≡ p ∷ ps
unfolding paths_of
paths_of-join p ps h =
    ap (λ s. map trim_space (split s (b',' ∷ []))) (trim-join p ps h)
    ∙ (ap (map trim_space)
          (split-join p ps b',' [] (paths_lack b',' (p ∷ ps) (λ q g. g.no_comma) h))
        ∙ map-trim_space (p ∷ ps) h)

join-Lacks :
    (b : ℕ) (p : Bytes) (ps : List Bytes)
    → b',' ≢ b
    → All (Lacks b) (p ∷ ps)
    → Lacks b (join (p ∷ ps) (b',' ∷ []))
unfolding join
join-Lacks b p [] ne (h, _) = h
join-Lacks b p (q ∷ ps) ne (h, hs) =
    All-append (λ c. c ≢ b) p (b',' ∷ join (q ∷ ps) (b',' ∷ [])) h (ne, join-Lacks b q ps ne hs)

second_part :
    (name s : Bytes) (c : ℕ) (t : Bytes) (e : Bytes)
    → split e (b'=' ∷ []) ≡ name ∷ s ∷ []
    → s ≡ c ∷ t
    → parse_process e ≡ ok (name, paths_of s)
unfolding parse_process
second_part name s c t e cut head = rw (cut, head)

joined-cons :
    (p : Bytes) (ps : List Bytes)
    → All IsOptionPath (p ∷ ps)
    → (c : ℕ) × (t : Bytes) × (join (p ∷ ps) (b',' ∷ []) ≡ c ∷ t)
joined-cons [] ps (h, _) = absurd (h.not_empty refl)
joined-cons (c ∷ s) ps _ = let (t, e) = join_head c s ps in (c, t, e)

parse_process-entry_text :
    (e : Entry) → IsEntry e → parse_process (entry_text e) ≡ ok (e.name, e.path ∷ e.more)
parse_process-entry_text e h =
    let joined = join (e.path ∷ e.more) (b',' ∷ []) in
    let (c, t, head) = joined-cons e.path e.more h.paths_fit in
    let lacks =
      join-Lacks b'=' e.path e.more (omega arith)
        (paths_lack b'=' (e.path ∷ e.more) (λ q g. g.no_equals) h.paths_fit) in
    second_part e.name joined c t (entry_text e)
      (split-append e.name b'=' [] joined h.name_no_equals
        ∙ ap (λ l. e.name ∷ l) (split-Lacks joined b'=' [] lacks))
      head
    ∙ ap (λ l. ok (e.name, l)) (paths_of-join e.path e.more h.paths_fit)

entry_text-Lacks : (e : Entry) → IsEntry e → Lacks b' ' (entry_text e)
entry_text-Lacks e h =
    All-append (λ c. c ≢ b' ') e.name (b'=' ∷ join (e.path ∷ e.more) (b',' ∷ [])) h.name_no_space
      (
        omega arith,
        join-Lacks b' ' e.path e.more (omega arith)
            (paths_lack b' ' (e.path ∷ e.more) (λ q g. g.no_space) h.paths_fit),
      )

texts_lack_space : (es : List Entry) → All IsEntry es → All (Lacks b' ') (map entry_text es)
texts_lack_space [] _ = tt
texts_lack_space (e ∷ es) (h, hs) = (entry_text-Lacks e h, texts_lack_space es hs)

parse_processes-texts :
    (es : List Entry) (m : Map (List Bytes))
    → All IsEntry es
    → parse_processes (map entry_text es) m ≡ ok (entries_map es m)
unfolding parse_processes entries_map
parse_processes-texts [] m _ = refl
parse_processes-texts (e ∷ es) m (h, hs) =
    rw (parse_process-entry_text e h)
      (parse_processes-texts es (insert e.name (e.path ∷ e.more) m) hs)

-- The text of the options.
abbrev pub options_text : Entry → List Entry → Bytes
options_text e es = join (map entry_text (e ∷ es)) (b' ' ∷ [])

entry_text-cons : (e : Entry) → (c : ℕ) × (s : Bytes) × (entry_text e ≡ c ∷ s)
entry_text-cons e = go e.name
  where
    go :
        (name : Bytes)
        → (c : ℕ) × (s : Bytes) × (name ++ (b'=' ∷ join (e.path ∷ e.more) (b',' ∷ [])) ≡ c ∷ s)
    go [] = (_, _, refl)
    go (c ∷ name) = (_, _, refl)

from_text :
    (unescape : Bytes → Option Bytes) (text : Bytes) (p : Bytes) (ps : List Bytes)
    → text ≢ []
    → unquote unescape text ≡ none
    → split text (b' ' ∷ []) ≡ p ∷ ps
    → parse_monitoring_opts unescape text ≡ parse_processes (p ∷ ps) []
unfolding parse_monitoring_opts
from_text unescape [] p ps ne plain cut = absurd (ne refl)
from_text unescape (c ∷ s) p ps ne plain cut = rw (plain, cut)

text-ne-nil : (e : Entry) (es : List Entry) → options_text e es ≢ []
unfolding join
text-ne-nil e [] x = let (c, s, head) = entry_text-cons e in cc
text-ne-nil e (f ∷ es) x = let (c, s, head) = entry_text-cons e in cc

-- Options written as `name=path,path name=path` are parsed to the map from each name to its paths, in
-- order, a later entry of a name replacing an earlier one: for names and paths without spaces and
-- equals signs, paths that are not empty, hold no comma and no space to trim, where the text is not
-- itself quoted.
pub parse-options_text :
    (unescape : Bytes → Option Bytes) (e : Entry) (es : List Entry)
    → All IsEntry (e ∷ es)
    → unquote unescape (options_text e es) ≡ none
    → parse_monitoring_opts unescape (options_text e es) ≡ ok (entries_map (e ∷ es) [])
parse-options_text unescape e es h plain =
    from_text unescape (options_text e es) (entry_text e) (map entry_text es) (text-ne-nil e es)
      plain (split-join (entry_text e) (map entry_text es) b' ' [] (texts_lack_space (e ∷ es) h))
    ∙ parse_processes-texts (e ∷ es) [] h
