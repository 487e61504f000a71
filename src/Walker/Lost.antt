-- ===== src/Walker/Lost.antt =====
-- The walk of a tree with an entry that cannot be read (internal/walker/filewalker.go).
use integrity_sum.Base.{
  ℕ, ◌≡◌, ◌⊎◌, inl, inr, refl, sym, ap, ◌∙◌, Bool, false, List, [], ◌∷◌, ◌++◌, map, append-nil,
  append_assoc, Option, some, Bytes, All,
}
use integrity_sum.Strings.FilePath.{join_path}
use integrity_sum.Walker.{
  Node, regular, special, unreadable, dir, Entries, nil, entry, read_failed, walk_dir, walk_entries,
  chan_walk_dir, and_then,
}
use integrity_sum.Walker.Files.{
  Route, step_in, IsReadable, AreReadable, follow, routes, entry_routes, map-follow, entries_joined,
  walk_dir_lem,
}

-- The entries of a directory up to and behind a point.
abbrev pub both : Entries → Entries → Entries
both nil fs = fs
both (entry name node es) fs = entry name node (both es fs)

-- A directory on the way to an entry: the name that the way takes, with the entries before and behind.
pub record Level : Type 0 where
  pub before : Entries
  pub name : Bytes
  pub behind : Entries

-- The node from which these directories lead to an entry that cannot be read.
abbrev pub blocked : List Level → Node
blocked [] = unreadable
blocked (l ∷ ls) = dir (both l.before (entry l.name (blocked ls) l.behind))

-- The files before that entry: those before the way, in each directory on it.
abbrev pub files_before : List Level → List Route
files_before [] = []
files_before (l ∷ ls) = entry_routes l.before ++ map (step_in l.name) (files_before ls)

-- All entries before the way can be read, so the entry is the first one that cannot.
abbrev pub IsFirst : List Level → Type 0
IsFirst ls = All (λ l. AreReadable l.before) ls

-- The first entry that cannot be read, in a node and in a directory.
abbrev Blocked : Node → Type 0
Blocked node = (ls : List Level) × IsFirst ls × (node ≡ blocked ls)

abbrev BlockedEntries : Entries → Type 0
BlockedEntries es =
    (l : Level) × (ls : List Level) × IsFirst (l ∷ ls)
    × (es ≡ both l.before (entry l.name (blocked ls) l.behind))

mutual
  unfolding IsReadable

  IsReadable-or-Blocked : (node : Node) → IsReadable node ⊎ Blocked node
  IsReadable-or-Blocked regular = inl tt
  IsReadable-or-Blocked special = inl tt
  IsReadable-or-Blocked unreadable = inr ([], tt, refl)
  IsReadable-or-Blocked (dir es) = elim (AreReadable-or-Blocked es) [
    | inl readable ↦ inl readable
    | inr (l, ls, h, e) ↦ inr (l ∷ ls, h, ap dir e)
  ]

  AreReadable-or-Blocked : (es : Entries) → AreReadable es ⊎ BlockedEntries es
  AreReadable-or-Blocked nil = inl tt
  AreReadable-or-Blocked (entry name node es) = elim (IsReadable-or-Blocked node) [
    | inl readable ↦ elim (AreReadable-or-Blocked es) [
      | inl all ↦ inl (readable, all)
      | inr (l, ls, (h, hs), e) ↦ inr (
        record { before = entry name node l.before; name = l.name; behind = l.behind },
        ls,
        ((readable, h), hs),
        ap (entry name node) e,
      )
    ]
    | inr (ls, hs, e) ↦ inr (
      record { before = nil; name = name; behind = es },
      ls,
      (tt, hs),
      ap (λ n. entry name n es) e,
    )
  ]

module _ (stops : ℕ → Bool) (live : (n : ℕ) → stops n ≡ false) where
  -- The walk of a directory ends with the error of one of its entries.
  walk_ends :
      (path name : Bytes) (node : Node) (rs : List Route) (es fs : Entries) (sent : List Bytes)
      → ((seen : List Bytes)
          → walk_dir stops (join_path (path ∷ name ∷ [])) node seen
            ≡ (seen ++ map (follow (join_path (path ∷ name ∷ []))) rs, some read_failed))
      → AreReadable es
      → walk_entries stops path (both es (entry name node fs)) sent
        ≡ (sent ++ map (follow path) (entry_routes es ++ map (step_in name) rs), some read_failed)
  unfolding walk_entries entry_routes AreReadable
  walk_ends path name node rs nil fs sent ends h =
      ap (λ w. and_then w (λ sent'. walk_entries stops path fs sent')) (ends sent)
      ∙ ap (λ xs. (sent ++ xs, some read_failed)) (sym (map-follow path name rs))
  walk_ends path name node rs (entry other first es) fs sent ends (h, hs) =
      ap (λ w. and_then w (λ sent'. walk_entries stops path (both es (entry name node fs)) sent'))
        (walk_dir_lem stops live (join_path (path ∷ other ∷ [])) first sent h)
      ∙ (walk_ends path name node rs es fs _ ends hs
          ∙ ap (λ xs. (xs, some read_failed))
              (entries_joined path other (routes first) (entry_routes es ++ map (step_in name) rs)
                  sent
                ∙ ap (λ qs. sent ++ map (follow path) qs)
                    (sym (
                      append_assoc (map (step_in other) (routes first)) (entry_routes es)
                        (map (step_in name) rs)))))

  walk_blocked :
      (path : Bytes) (ls : List Level) (sent : List Bytes)
      → IsFirst ls
      → walk_dir stops path (blocked ls) sent
        ≡ (sent ++ map (follow path) (files_before ls), some read_failed)
  unfolding walk_dir
  walk_blocked path [] sent h = ap (λ xs. (xs, some read_failed)) (sym (append-nil sent))
  walk_blocked path (l ∷ ls) sent (h, hs) =
      walk_ends path l.name (blocked ls) (files_before ls) l.before l.behind sent
        (λ seen. walk_blocked (join_path (path ∷ l.name ∷ [])) ls seen hs) h

  -- With a live context, where an entry at any depth below a path, or the path, cannot be read, the
  -- walk of the path sends the files before the first such entry and no others: those behind it are
  -- left out in each directory on the way to it, though they may be readable. The walk goes on with
  -- the next path.
  pub unreadable_hides_rest :
      (tree : Bytes → Option Node) (path : Bytes) (node : Node) (paths sent : List Bytes)
      → tree path ≡ some node
      → ¬ IsReadable node
      → (ls : List Level) × IsFirst ls
        × (node ≡ blocked ls)
        × (chan_walk_dir stops tree (path ∷ paths) sent
            ≡ chan_walk_dir stops tree paths (sent ++ map (follow path) (files_before ls)))
  unfolding chan_walk_dir
  unreadable_hides_rest tree path node paths sent found unread = elim (IsReadable-or-Blocked node) [
    | inl readable ↦ absurd (unread readable)
    | inr (ls, first, e) ↦ (ls, first, e, rw (found, e, walk_blocked path ls sent first) refl)
  ]
