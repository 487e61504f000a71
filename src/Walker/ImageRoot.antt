-- ===== src/Walker/ImageRoot.antt =====
-- The roots that the snapshot tool takes off: a clean path, or the `./` that the flag has by default.
use integrity_sum.Base.{
  ◌≡◌, ◌≢◌, refl, sym, subst, ap, ◌∙◌, false, List, [], ◌∷◌, ◌++◌, arith, Bytes, All, same, codes,
}
use integrity_sum.Strings.Search.{trim_prefix}
use integrity_sum.Strings.Split.{split, join}
use integrity_sum.Strings.SplitByte.{split_step, split_at}
use integrity_sum.Strings.FilePath.{slash}
use integrity_sum.Strings.FilePath.Names.{IsName, Named, names_of, kept, path_of}
use integrity_sum.Walker.Files.{Route, follow}
use integrity_sum.Walker.Paths.{Root, IsDirectory, below, follow-path_of, stripped_path}
use integrity_sum.Walker.Dotted.{not_dotted, unspelled}

-- The flag's `./` with the slash that the tool puts behind it.
abbrev pub default_root : Bytes
default_root = codes ".//"

pub data ImageRoot (root : Bytes) : Type 0 where
  clean_root : Root root → ImageRoot root
  default_flag : root ≡ default_root → ImageRoot root

split_default :
    (dir : Bytes) → split (default_root ++ dir) slash ≡ (b'.' ∷ []) ∷ [] ∷ split dir slash
unfolding split
split_default dir =
    split_at b'/' (b'.' ∷ []) (b'/' ∷ dir) ∙ ap (λ l. (b'.' ∷ []) ∷ l) (split_step b'/' b'/' dir)

default-Named : (dir : Bytes) → IsDirectory dir → Named false (names_of dir) (default_root ++ dir)
unfolding kept same
default-Named dir (no_up, names) = record {
  head = b'.';
  tail = codes "//" ++ dir;
  form = refl;
  root = refl;
  names = ap kept (split_default dir);
  no_up =
      subst (All (λ q. q ≢ b'.' ∷ b'.' ∷ [])) (sym (split_default dir))
        (λ e. ground arith, (λ e. ground arith, no_up));
  are_names = names;
}

unrooted :
    (ns : List Bytes) (name : Bytes) (route : Route)
    → All IsName ns
    → All IsName (name ∷ route)
    → trim_prefix (path_of false (ns ++ name ∷ route)) default_root
      ≡ join (ns ++ name ∷ route) slash
unfolding trim_prefix
unrooted [] name route h (n, _) =
    rw (not_dotted name route (b'/' ∷ []) n) (unspelled name route n.0.0)
unrooted (d ∷ ds) name route (n, _) h =
    rw (not_dotted d (ds ++ name ∷ route) (b'/' ∷ []) n) (unspelled d (ds ++ name ∷ route) n.0.0)

pub stripped_image_path :
    {root : Bytes} (r : ImageRoot root) (dir name : Bytes) (route : Route)
    → IsDirectory dir
    → All IsName (name ∷ route)
    → trim_prefix (follow (root ++ dir) (name ∷ route)) root ≡ below (names_of dir) (name ∷ route)
stripped_image_path (clean_root r) dir name route d steps = stripped_path r dir name route d steps
stripped_image_path (default_flag e) dir name route d steps =
    ap (λ x. trim_prefix (follow (x ++ dir) (name ∷ route)) x) e
    ∙ (ap (λ x. trim_prefix x default_root)
          (follow-path_of route false (names_of dir) (default_root ++ dir) name
            (default-Named dir d) steps)
        ∙ unrooted (names_of dir) name route d.1 steps)
