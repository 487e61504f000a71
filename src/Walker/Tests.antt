-- ===== src/Walker/Tests.antt =====
-- A tree of two directories, one of which has an entry that cannot be read.
use integrity_sum.Base.{
  ℕ, ◌≡◌, refl, Bool, false, List, [], ◌∷◌, map, Option, none, some, Bytes, codes, same,
  if◌then◌else◌,
}
use integrity_sum.Strings.Split.{split, join}
use integrity_sum.Strings.FilePath.{join_path}
use integrity_sum.Walker.{
  Node, regular, unreadable, dir, Entries, nil, entry, walk_dir, chan_walk_dir,
}
use integrity_sum.Walker.Files.{IsReadable, follow, all_files, chan_walk_dir_lem}
use integrity_sum.Walker.Lost.{Level, blocked, files_before, IsFirst, unreadable_hides_rest}

abbrev never : ℕ → Bool
never n = false

abbrev etc : Node
etc = dir (entry (codes "a") regular (entry (codes "d") (dir (entry (codes "b") regular nil)) nil))

-- In `/var/d`, between two files, there is an entry that cannot be read.
abbrev var_d : Entries
var_d = entry (codes "b") regular (entry (codes "lost") unreadable (entry (codes "c") regular nil))

abbrev var : Node
var =
    dir (entry (codes "a") regular (entry (codes "d") (dir var_d) (entry (codes "z") regular nil)))

abbrev tree : Bytes → Option Node
tree path =
    if same path (codes "/etc")
    then some etc
    else if same path (codes "/var")
    then some var
    else none

etc_is_walked :
    chan_walk_dir never tree (codes "/etc" ∷ []) [] ≡ codes "/etc/a" ∷ codes "/etc/d/b" ∷ []
unfolding chan_walk_dir walk_dir join_path split join same
etc_is_walked = refl

etc_found : tree (codes "/etc") ≡ some etc
unfolding same
etc_found = refl

etc-IsReadable : IsReadable etc
unfolding IsReadable
etc-IsReadable = (tt, ((tt, tt), tt))

chan_walk_dir_lem_example :
    chan_walk_dir never tree (codes "/etc" ∷ []) [] ≡ all_files tree (codes "/etc" ∷ [])
chan_walk_dir_lem_example =
    chan_walk_dir_lem never (λ n. refl) tree (codes "/etc" ∷ []) []
      ((etc, etc_found, etc-IsReadable), tt)

var_found : tree (codes "/var") ≡ some var
unfolding same
var_found = refl

var_is_unreadable : ¬ IsReadable var
unfolding IsReadable
var_is_unreadable (a, ((b, (lost, c)), z)) = lost

-- Of the four files, the two before the entry are sent.
var_is_walked :
    chan_walk_dir never tree (codes "/var" ∷ []) [] ≡ codes "/var/a" ∷ codes "/var/d/b" ∷ []
unfolding chan_walk_dir walk_dir join_path split join same
var_is_walked = refl

unreadable_hides_rest_example :
    (ls : List Level) × IsFirst ls
    × (var ≡ blocked ls)
    × (chan_walk_dir never tree (codes "/var" ∷ codes "/etc" ∷ []) []
        ≡ chan_walk_dir never tree
            (codes "/etc" ∷ [])
            (map (follow (codes "/var")) (files_before ls)))
unreadable_hides_rest_example =
    unreadable_hides_rest never (λ n. refl) tree (codes "/var") var (codes "/etc" ∷ []) [] var_found
      var_is_unreadable
