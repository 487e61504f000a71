-- ===== src/Walker/Files.antt =====
-- The files of a tree, by the names on the way to them, and the walk of filewalker.go.
use integrity_sum.Base.{
  ℕ, ◌≡◌, refl, sym, ap, ◌∙◌, Bool, false, List, [], ◌∷◌, ◌++◌, map, append_assoc, append-nil,
  Option, none, some, Bytes, All, length,
}
use mathlib.Core.List.{map-append}
use integrity_sum.Strings.FilePath.{join_path}
use integrity_sum.Walker.{
  Node, regular, special, unreadable, dir, Entries, nil, entry, walk_dir, walk_entries,
  chan_walk_dir, and_then,
}

-- A regular file below a directory, by the names on the way to it.
abbrev pub Route : Type 0
Route = List Bytes

abbrev pub step_in : Bytes → Route → Route
step_in name route = name ∷ route

unfoldable mutual
  -- The regular files below a node, with no paths and no errors.
  pub routes : Node → List Route
  routes regular = [] ∷ []
  routes special = []
  routes unreadable = []
  routes (dir es) = entry_routes es

  pub entry_routes : Entries → List Route
  entry_routes nil = []
  entry_routes (entry name node es) = map (step_in name) (routes node) ++ entry_routes es

unfoldable mutual
  -- All directories below the node can be read.
  pub IsReadable : Node → Type 0
  IsReadable regular = Unit
  IsReadable special = Unit
  IsReadable unreadable = ⊥
  IsReadable (dir es) = AreReadable es

  pub AreReadable : Entries → Type 0
  AreReadable nil = Unit
  AreReadable (entry name node es) = IsReadable node × AreReadable es

-- The path at the end of a route.
unfoldable pub follow : Bytes → Route → Bytes
follow path [] = path
follow path (name ∷ route) = follow (join_path (path ∷ name ∷ [])) route

pub map-follow :
    (path name : Bytes) (rs : List Route)
    → map (follow path) (map (step_in name) rs) ≡ map (follow (join_path (path ∷ name ∷ []))) rs
unfolding follow
map-follow path name [] = refl
map-follow path name (r ∷ rs) =
    ap (λ xs. follow (join_path (path ∷ name ∷ [])) r ∷ xs) (map-follow path name rs)

pub entries_joined :
    (path name : Bytes) (rs qs : List Route) (sent : List Bytes)
    → (sent ++ map (follow (join_path (path ∷ name ∷ []))) rs) ++ map (follow path) qs
      ≡ sent ++ map (follow path) (map (step_in name) rs ++ qs)
entries_joined path name rs qs sent =
    append_assoc sent (map (follow (join_path (path ∷ name ∷ []))) rs) (map (follow path) qs)
    ∙ ap (λ xs. sent ++ xs)
        (ap (λ xs. xs ++ map (follow path) qs) (sym (map-follow path name rs))
          ∙ sym (map-append (follow path) (map (step_in name) rs) qs))

-- The path is there, and all directories below it can be read.
abbrev pub IsWalkable : (Bytes → Option Node) → Bytes → Type 0
IsWalkable tree path = (node : Node) × (tree path ≡ some node) × IsReadable node

abbrev pub routes_at : Option Node → List Route
routes_at none = []
routes_at (some node) = routes node

-- All regular files below the paths.
unfoldable pub all_files : (Bytes → Option Node) → List Bytes → List Bytes
all_files tree [] = []
all_files tree (path ∷ paths) = map (follow path) (routes_at (tree path)) ++ all_files tree paths

module _ (stops : ℕ → Bool) (live : (n : ℕ) → stops n ≡ false) where
  mutual
    unfolding walk_dir routes IsReadable follow

    pub walk_dir_lem :
        (path : Bytes) (node : Node) (sent : List Bytes)
        → IsReadable node
        → walk_dir stops path node sent ≡ (sent ++ map (follow path) (routes node), none)
    walk_dir_lem path regular sent h = rw (live (length sent)) refl
    walk_dir_lem path special sent h = ap (λ xs. (xs, none)) (sym (append-nil sent))
    walk_dir_lem path unreadable sent h = absurd h
    walk_dir_lem path (dir es) sent h = walk_entries_lem path es sent h

    walk_entries_lem :
        (path : Bytes) (es : Entries) (sent : List Bytes)
        → AreReadable es
        → walk_entries stops path es sent ≡ (sent ++ map (follow path) (entry_routes es), none)
    walk_entries_lem path nil sent h = ap (λ xs. (xs, none)) (sym (append-nil sent))
    walk_entries_lem path (entry name node es) sent (h, hs) =
        ap (λ w. and_then w (λ sent'. walk_entries stops path es sent'))
          (walk_dir_lem (join_path (path ∷ name ∷ [])) node sent h)
        ∙ (walk_entries_lem path es _ hs
            ∙ ap (λ xs. (xs, none)) (entries_joined path name (routes node) (entry_routes es) sent))

  -- With a live context and readable directories, `ChanWalkDir` sends each regular file below each of
  -- the paths once, in the order of the paths and of the directories' entries, under the path that
  -- joins the names on the way to it.
  pub chan_walk_dir_lem :
      (tree : Bytes → Option Node) (paths sent : List Bytes)
      → All (IsWalkable tree) paths
      → chan_walk_dir stops tree paths sent ≡ sent ++ all_files tree paths
  unfolding chan_walk_dir all_files
  chan_walk_dir_lem tree [] sent h = sym (append-nil sent)
  chan_walk_dir_lem tree (path ∷ paths) sent ((node, found, readable), hs) =
      rw (found, walk_dir_lem path node sent readable)
        (chan_walk_dir_lem tree paths (sent ++ map (follow path) (routes node)) hs
          ∙ append_assoc sent (map (follow path) (routes node)) (all_files tree paths))
