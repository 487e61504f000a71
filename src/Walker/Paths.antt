-- ===== src/Walker/Paths.antt =====
-- The paths under which the files of a tree are sent, and what is left of them when the root is taken
-- off, as the snapshot tool and the monitor do.
use integrity_sum.Base.{
  ◌≡◌, ◌≢◌, refl, sym, ap, ◌∙◌, Bool, true, false, List, [], ◌∷◌, ◌++◌, Bytes, All, append_assoc,
  append-nil,
}
use integrity_sum.Strings.Search.{trim_prefix, trim_prefix-append}
use integrity_sum.Strings.Split.{join}
use integrity_sum.Strings.FilePath.{slash, spell, join_path}
use integrity_sum.Strings.FilePath.Names.{
  IsName, Named, HasNoUp, names_of, path_of, path_of-Named, join_path-Named, joined-Named,
  below-Named,
}
use integrity_sum.Walker.Files.{Route, follow}

-- The end of a route below a directory is the cleaned path of the directory's names and the route's.
pub follow-path_of :
    (route : Route) (rooted : Bool) (ns : List Bytes) (q name : Bytes)
    → Named rooted ns q
    → All IsName (name ∷ route)
    → follow q (name ∷ route) ≡ path_of rooted (ns ++ name ∷ route)
unfolding follow
follow-path_of [] rooted ns q name d (h, _) = join_path-Named name d h
follow-path_of (m ∷ route) rooted ns q name d (h, hs) =
    follow-path_of route rooted (ns ++ name ∷ []) (join_path (q ∷ name ∷ [])) m
      (joined-Named name d h) hs
    ∙ ap (path_of rooted) (append_assoc ns (name ∷ []) (m ∷ route))

join-append :
    (n : Bytes) (ns : List Bytes) (m : Bytes) (ms : List Bytes)
    → join (n ∷ (ns ++ m ∷ ms)) slash ≡ join (n ∷ ns) slash ++ (slash ++ join (m ∷ ms) slash)
unfolding join
join-append n [] m ms = refl
join-append n (k ∷ ns) m ms =
    ap (λ x. n ++ (slash ++ x)) (join-append k ns m ms)
    ∙ sym (append_assoc n (slash ++ join (k ∷ ns) slash) (slash ++ join (m ∷ ms) slash))

spell-append :
    (rooted : Bool) (n : Bytes) (ns : List Bytes) (t : Bytes)
    → n ≢ []
    → spell rooted (join (n ∷ ns) slash ++ t) ≡ path_of rooted (n ∷ ns) ++ t
unfolding join
spell-append true n ns t h = refl
spell-append false [] ns t h = absurd (h refl)
spell-append false (c ∷ n) [] t h = refl
spell-append false (c ∷ n) (k ∷ ns) t h = refl

-- The path below a root: the names of the directory and of the route, with slashes between.
abbrev pub below : List Bytes → Route → Bytes
below ds route = join (ds ++ route) slash

path_of-append :
    (rooted : Bool) (n : Bytes) (ns : List Bytes) (m : Bytes) (ms : List Bytes)
    → n ≢ []
    → path_of rooted (n ∷ (ns ++ m ∷ ms))
      ≡ (path_of rooted (n ∷ ns) ++ slash) ++ join (m ∷ ms) slash
path_of-append rooted n ns m ms h =
    ap (spell rooted) (join-append n ns m ms)
    ∙ (spell-append rooted n ns (slash ++ join (m ∷ ms) slash) h
        ∙ sym (append_assoc (path_of rooted (n ∷ ns)) slash (join (m ∷ ms) slash)))

path_of-below :
    (rooted : Bool) (n : Bytes) (ns ds : List Bytes) (name : Bytes) (route : Route)
    → n ≢ []
    → path_of rooted ((n ∷ (ns ++ ds)) ++ name ∷ route)
      ≡ (path_of rooted (n ∷ ns) ++ slash) ++ below ds (name ∷ route)
path_of-below rooted n ns [] name route h =
    ap (λ l. path_of rooted (n ∷ (l ++ name ∷ route))) (append-nil ns)
    ∙ path_of-append rooted n ns name route h
path_of-below rooted n ns (d ∷ ds) name route h =
    ap (λ l. path_of rooted (n ∷ l)) (append_assoc ns (d ∷ ds) (name ∷ route))
    ∙ path_of-append rooted n ns d (ds ++ name ∷ route) h

-- A directory of the file tree, under the root that has the path: clean names, and a slash at the end.
pub record Root (path : Bytes) : Type 0 where
  pub rooted : Bool
  pub first : Bytes
  pub rest : List Bytes
  pub are_names : All IsName (first ∷ rest)
  pub form : path ≡ path_of rooted (first ∷ rest) ++ slash

-- A directory as it is named below a root: it has no `..`, and its other parts are names.
abbrev pub IsDirectory : Bytes → Type 0
IsDirectory dir = HasNoUp dir × All IsName (names_of dir)

pub follow-below :
    {root : Bytes} (r : Root root) (dir name : Bytes) (route : Route)
    → IsDirectory dir
    → All IsName (name ∷ route)
    → follow (root ++ dir) (name ∷ route) ≡ root ++ below (names_of dir) (name ∷ route)
follow-below {root} r dir name route (no_up, dirs) steps =
    let clean = path_of r.rooted (r.first ∷ r.rest) in
    ap (λ x. follow (x ++ dir) (name ∷ route)) r.form
    ∙ (ap (λ x. follow x (name ∷ route)) (append_assoc clean slash dir)
        ∙ (follow-path_of route r.rooted (r.first ∷ (r.rest ++ names_of dir)) (clean ++ b'/' ∷ dir)
              name
              (below-Named dir (names_of dir) (path_of-Named r.rooted r.first r.rest r.are_names)
                no_up refl dirs)
              steps
            ∙ (path_of-below r.rooted r.first r.rest (names_of dir) name route r.are_names.0.0.0
                ∙ ap (λ x. x ++ below (names_of dir) (name ∷ route)) (sym r.form))))

-- A file that is walked to below a clean root and a directory in it keeps, when the root is taken off,
-- the names of the directory and of its route: the same for every clean root, absolute or not, and
-- however the directory is spelled, as long as it has no `..`.
pub stripped_path :
    {root : Bytes} (r : Root root) (dir name : Bytes) (route : Route)
    → IsDirectory dir
    → All IsName (name ∷ route)
    → trim_prefix (follow (root ++ dir) (name ∷ route)) root ≡ below (names_of dir) (name ∷ route)
stripped_path {root} r dir name route d steps =
    ap (λ x. trim_prefix x root) (follow-below r dir name route d steps)
    ∙ trim_prefix-append root (below (names_of dir) (name ∷ route))
