-- ===== src/Strings/FilePath/Names.antt =====
-- The names in a path, and the paths that `Join` makes by adding a name.
use integrity_sum.Base.{
  ℕ, ◌≡◌, ◌≢◌, refl, sym, subst, ap, ap₂, ◌∙◌, Bool, true, false, List, [], ◌∷◌, ◌++◌, arith, Bytes,
  same, same_iff, All, All-append, append-nil, append_assoc, if◌then◌else◌, Lacks,
}
use integrity_sum.Strings.Split.{split, join, split-Lacks, split-join}
use integrity_sum.Strings.SplitByte.{split_step, split_at}
use integrity_sum.Strings.FilePath.{slash, dot_dot, spell, clean_parts, is_rooted, clean, join_path}
use integrity_sum.Strings.FilePath.Ordinary.{IsOrdinary}
use mathlib.Core.List.{reverse, reverse-append, reverse-reverse}

-- The parts of a path that are neither empty nor `.`.
unfoldable pub kept : List Bytes → List Bytes
kept [] = []
kept (p ∷ ps) =
    let rest = kept ps in if same p [] then rest else if same p (b'.' ∷ []) then rest else p ∷ rest

abbrev pub names_of : Bytes → List Bytes
names_of s = kept (split s slash)

abbrev pub HasNoUp : Bytes → Type 0
HasNoUp s = All (λ q. q ≢ dot_dot) (split s slash)

-- A name of a file or a directory.
abbrev pub IsName : Bytes → Type 0
IsName q = IsOrdinary q × Lacks b'/' q

-- A name that does not begin with a dot.
pub plain-IsName : (c : ℕ) (s : Bytes) → c ≢ b'.' → Lacks b'/' (c ∷ s) → IsName (c ∷ s)
plain-IsName c s plain lacks = ((λ x. ground arith, λ x. ground arith, λ x. ground arith), lacks)

clean_parts-kept :
    (rooted : Bool) (ps ks : List Bytes)
    → All (λ q. q ≢ dot_dot) ps
    → clean_parts rooted ps ks ≡ reverse (kept ps) ++ ks
unfolding clean_parts kept
clean_parts-kept rooted [] ks _ = refl
clean_parts-kept rooted (p ∷ ps) ks (h, hs) = ground (
  arith,
  same_iff p dot_dot,
  clean_parts-kept rooted ps ks hs,
  clean_parts-kept rooted ps (p ∷ ks) hs,
  reverse-append (p ∷ []) (kept ps),
  append_assoc (reverse (kept ps)) (p ∷ []) ks,
)

clean_names : (s : Bytes) → HasNoUp s → clean s ≡ spell (is_rooted s) (join (names_of s) slash)
unfolding clean
clean_names s h =
    ap (λ l. spell (is_rooted s) (join (reverse l) slash))
      (clean_parts-kept (is_rooted s) (split s slash) [] h ∙ append-nil (reverse (names_of s)))
    ∙ ap (λ l. spell (is_rooted s) (join l slash)) (reverse-reverse (names_of s))

kept-append : (ps qs : List Bytes) → kept (ps ++ qs) ≡ kept ps ++ kept qs
unfolding kept same
kept-append [] qs = refl
kept-append (p ∷ ps) qs = ground (arith, kept-append ps qs)

kept_names : (ns : List Bytes) → All IsName ns → kept ns ≡ ns
unfolding kept same
kept_names [] h = refl
kept_names (n ∷ ns) (((h1, h2, h3), l), hs) =
    ground (arith, same_iff n [], same_iff n (b'.' ∷ []), kept_names ns hs)

no_up_names : (ns : List Bytes) → All IsName ns → All (λ q. q ≢ dot_dot) ns
no_up_names [] h = tt
no_up_names (n ∷ ns) ((o, l), hs) = (o.2, no_up_names ns hs)

lack_names : (ns : List Bytes) → All IsName ns → All (Lacks b'/') ns
lack_names [] h = tt
lack_names (n ∷ ns) ((o, l), hs) = (l, lack_names ns hs)

-- A path that is not empty, whether it is absolute, and its names.
pub record Named (rooted : Bool) (ns : List Bytes) (q : Bytes) : Type 0 where
  pub head : ℕ
  pub tail : Bytes
  pub form : q ≡ head ∷ tail
  pub root : is_rooted q ≡ rooted
  pub names : names_of q ≡ ns
  pub no_up : HasNoUp q
  pub are_names : All IsName ns

-- A path of these names, cleaned.
abbrev pub path_of : Bool → List Bytes → Bytes
path_of rooted ns = spell rooted (join ns slash)

join_first :
    (c : ℕ) (n : Bytes) (ns : List Bytes) → (t : Bytes) × (join ((c ∷ n) ∷ ns) slash ≡ c ∷ t)
unfolding join
join_first c n [] = (n, refl)
join_first c n (m ∷ ns) = (n ++ (slash ++ join (m ∷ ns) slash), refl)

pub join_name :
    (c : ℕ) (s name : Bytes)
    → HasNoUp (c ∷ s)
    → IsName name
    → join_path ((c ∷ s) ∷ name ∷ []) ≡ path_of (is_rooted (c ∷ s)) (names_of (c ∷ s) ++ name ∷ [])
unfolding join_path join
join_name c s name h (o, l) =
    let parts : split (c ∷ (s ++ b'/' ∷ name)) slash ≡ split (c ∷ s) slash ++ name ∷ [] =
      split_at b'/' (c ∷ s) name
      ∙ ap (λ l. split (c ∷ s) slash ++ l) (split-Lacks name b'/' [] l) in
    clean_names (c ∷ (s ++ b'/' ∷ name)) (
      subst (All (λ q. q ≢ dot_dot)) (sym parts)
        (All-append (λ q. q ≢ dot_dot) (split (c ∷ s) slash) (name ∷ []) h (o.2, tt)))
    ∙ ap (λ l. path_of (is_rooted (c ∷ s)) l)
        (ap kept parts
          ∙ (kept-append (split (c ∷ s) slash) (name ∷ [])
              ∙ ap (λ l. names_of (c ∷ s) ++ l) (kept_names (name ∷ []) ((o, l), tt))))

-- The parts of a path of names are the names, behind an empty one if it is absolute.
split_path_of :
    (rooted : Bool) (n : Bytes) (ns : List Bytes)
    → All IsName (n ∷ ns)
    → split (path_of rooted (n ∷ ns)) slash ≡ (if rooted then [] ∷ n ∷ ns else n ∷ ns)
split_path_of true n ns h =
    split_step b'/' b'/' (join (n ∷ ns) slash)
    ∙ ap (λ l. [] ∷ l) (split-join n ns b'/' [] (lack_names (n ∷ ns) h))
split_path_of false [] ns ((o, l), hs) = absurd (o.0 refl)
split_path_of false (c ∷ n) ns h =
    let (t, e) = join_first c n ns in
    ap (λ x. split (spell false x) slash) e
    ∙ (ap (λ x. split x slash) (sym e)
        ∙ split-join (c ∷ n) ns b'/' [] (lack_names ((c ∷ n) ∷ ns) h))

pub path_of-Named :
    (rooted : Bool) (n : Bytes) (ns : List Bytes)
    → All IsName (n ∷ ns)
    → Named rooted (n ∷ ns) (path_of rooted (n ∷ ns))
unfolding kept same
path_of-Named true n ns h = record {
  head = b'/';
  tail = join (n ∷ ns) slash;
  form = refl;
  root = refl;
  names = ap kept (split_path_of true n ns h) ∙ kept_names (n ∷ ns) h;
  no_up =
      subst (All (λ q. q ≢ dot_dot)) (sym (split_path_of true n ns h)) (cc, no_up_names (n ∷ ns) h);
  are_names = h;
}
path_of-Named false [] ns ((o, l), hs) = absurd (o.0 refl)
path_of-Named false (c ∷ n) ns h =
    let (t, e) = join_first c n ns in
    record {
      head = c;
      tail = t;
      form = ap (spell false) e;
      root = ap (λ x. is_rooted (spell false x)) e ∙ ground (arith, h.0.1.0);
      names = ap kept (split_path_of false (c ∷ n) ns h) ∙ kept_names ((c ∷ n) ∷ ns) h;
      no_up =
          subst (All (λ q. q ≢ dot_dot)) (sym (split_path_of false (c ∷ n) ns h))
            (no_up_names ((c ∷ n) ∷ ns) h);
      are_names = h;
    }

-- `Join` adds a name.
pub join_path-Named :
    {rooted : Bool} {ns : List Bytes} {q : Bytes} (name : Bytes)
    → Named rooted ns q
    → IsName name
    → join_path (q ∷ name ∷ []) ≡ path_of rooted (ns ++ name ∷ [])
join_path-Named {rooted} {ns} {q} name d h =
    ap (λ x. join_path (x ∷ name ∷ [])) d.form
    ∙ (join_name d.head d.tail name (subst HasNoUp d.form d.no_up) h
        ∙ ap₂ (λ r l. path_of r (l ++ name ∷ [])) (ap is_rooted (sym d.form) ∙ d.root)
            (ap names_of (sym d.form) ∙ d.names))

pub joined-Named :
    {rooted : Bool} {ns : List Bytes} {q : Bytes} (name : Bytes)
    → Named rooted ns q
    → IsName name
    → Named rooted (ns ++ name ∷ []) (join_path (q ∷ name ∷ []))
joined-Named {rooted} {ns} {q} name d h =
    subst (Named rooted (ns ++ name ∷ [])) (sym (join_path-Named name d h))
      (appended rooted ns (All-append IsName ns (name ∷ []) d.are_names (h, tt)))
  where
    appended :
        (r : Bool) (ms : List Bytes)
        → All IsName (ms ++ name ∷ [])
        → Named r (ms ++ name ∷ []) (path_of r (ms ++ name ∷ []))
    appended r [] k = path_of-Named r name [] k
    appended r (m ∷ ms) k = path_of-Named r m (ms ++ name ∷ []) k

-- A directory below a root, with a slash between, as the programs write it.
pub below-Named :
    {rooted : Bool} {ns : List Bytes} {q : Bytes} (d : Bytes) (ds : List Bytes)
    → Named rooted ns q
    → HasNoUp d
    → names_of d ≡ ds
    → All IsName ds
    → Named rooted (ns ++ ds) (q ++ b'/' ∷ d)
below-Named {rooted} {ns} {q} d ds w no_up names are_names = record {
  head = w.head;
  tail = w.tail ++ b'/' ∷ d;
  form = ap (λ x. x ++ b'/' ∷ d) w.form;
  root = ap (λ x. is_rooted (x ++ b'/' ∷ d)) w.form ∙ (ap is_rooted (sym w.form) ∙ w.root);
  names =
      ap kept (split_at b'/' q d)
      ∙ (kept-append (split q slash) (split d slash) ∙ ap₂ (λ x y. x ++ y) w.names names);
  no_up =
      subst (All (λ q. q ≢ dot_dot)) (sym (split_at b'/' q d))
        (All-append (λ q. q ≢ dot_dot) (split q slash) (split d slash) w.no_up no_up);
  are_names = All-append IsName ns ds w.are_names are_names;
}
