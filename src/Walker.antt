-- ===== src/Walker.antt =====
-- internal/walker/filewalker.go: `ChanWalkDir`, with `filepath.WalkDir` over a tree of directories. A
-- directory lists its entries in lexical order, as `os.ReadDir` does. `stops n` says that the select
-- takes `ctx.Done()` when n names have been sent.
pub mod Files
pub mod Lost
pub mod Paths
pub mod Dotted
pub mod ImageRoot
mod Tests
use integrity_sum.Base.{
  ℕ, Bool, List, [], ◌∷◌, ◌++◌, Option, none, some, Bytes, length, if◌then◌else◌,
}
use integrity_sum.Strings.FilePath.{join_path}

mutual
  -- A regular file, something else that is no directory, a directory, or one that cannot be read.
  pub data Node : Type 0 where
    regular special unreadable : Node
    dir : Entries → Node

  pub data Entries : Type 0 where
    nil : Entries
    entry : Bytes → Node → Entries → Entries

pub data WalkError : Type 0 where
  read_failed context_done : WalkError

-- The names sent so far, and the error that ends the walk.
abbrev pub Walk : Type 0
Walk = List Bytes × Option WalkError

-- The walk goes on unless the last call had an error.
abbrev pub and_then : Walk → (List Bytes → Walk) → Walk
and_then (sent, some e) rest = (sent, some e)
and_then (sent, none) rest = rest sent

module _ (stops : ℕ → Bool) where
  -- The function that `WalkDir` calls, at a regular file.
  abbrev visit : Bytes → List Bytes → Walk
  visit file_path sent =
      if stops (length sent) then (sent, some context_done) else (sent ++ file_path ∷ [], none)

  unfoldable mutual
    -- `filepath.WalkDir` below a path
    pub walk_dir : Bytes → Node → List Bytes → Walk
    walk_dir path regular sent = visit path sent
    walk_dir path special sent = (sent, none)
    walk_dir path unreadable sent = (sent, some read_failed)
    walk_dir path (dir es) sent = walk_entries path es sent

    pub walk_entries : Bytes → Entries → List Bytes → Walk
    walk_entries path nil sent = (sent, none)
    walk_entries path (entry name node es) sent =
        and_then (walk_dir (join_path (path ∷ name ∷ [])) node sent)
          (λ sent'. walk_entries path es sent')

  abbrev walk_root : Bytes → Option Node → List Bytes → Walk
  walk_root path none sent = (sent, some read_failed)
  walk_root path (some node) sent = walk_dir path node sent

  -- `ChanWalkDir`: all names that are sent before the channel is closed. An error of a walk is only
  -- logged. `tree` is what `os.Lstat` finds.
  unfoldable pub chan_walk_dir : (Bytes → Option Node) → List Bytes → List Bytes → List Bytes
  chan_walk_dir tree [] sent = sent
  chan_walk_dir tree (path ∷ paths) sent =
      chan_walk_dir tree paths (walk_root path (tree path) sent).0
