-- ===== src/Strings/FilePath.antt =====
-- `filepath.Join` and `filepath.Clean` on Unix.
pub mod Ordinary
pub mod Names
use integrity_sum.Base.{
  ℕ, ◌≡◌, ◌≢◌, refl, ap, ◌∙◌, Bool, true, false, ◌&&◌, List, [], ◌∷◌, ◌++◌, arith, Bytes, codes,
  same, same_iff, All, ◌==◌, if◌then◌else◌,
}
use integrity_sum.Strings.Split.{split, join}
use mathlib.Core.List.{reverse}

abbrev pub slash : Bytes
slash = b'/' ∷ []

abbrev pub dot_dot : Bytes
dot_dot = b'.' ∷ b'.' ∷ []

-- A `..` behind the parts kept so far, the last first: it drops a part, and stays at the front of a
-- relative path.
abbrev up : Bool → List Bytes → List Bytes
up true [] = []
up false [] = dot_dot ∷ []
up rooted (p ∷ ps) = if same p dot_dot then dot_dot ∷ (p ∷ ps) else ps

-- The parts of a cleaned path, the last first: empty parts and `.` go, `..` takes one part back.
pub clean_parts : Bool → List Bytes → List Bytes → List Bytes
clean_parts rooted [] kept = kept
clean_parts rooted (p ∷ ps) kept = clean_parts rooted ps (
    if same p []
    then kept
    else if same p (b'.' ∷ [])
    then kept
    else if same p dot_dot
    then up rooted kept
    else p ∷ kept)

abbrev is_rooted : Bytes → Bool
is_rooted [] = false
is_rooted (c ∷ s) = c == b'/'

abbrev pub spell : Bool → Bytes → Bytes
spell true body = b'/' ∷ body
spell false [] = b'.' ∷ []
spell false (c ∷ s) = c ∷ s

pub clean : Bytes → Bytes
unfolding clean_parts
clean path =
    spell (is_rooted path)
      (join (reverse (clean_parts (is_rooted path) (split path slash) [])) slash)

-- `Join` skips the empty elements in front; those behind are joined and cleaned away.
unfoldable pub join_path : List Bytes → Bytes
unfolding clean
join_path [] = []
join_path ([] ∷ es) = join_path es
join_path ((c ∷ e) ∷ es) = clean (join ((c ∷ e) ∷ es) slash)
