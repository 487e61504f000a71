-- ===== src/Walker/Dotted.antt =====
-- A root-fs that begins with `./`, for `HashDir` of internal/integritymonitor/snapshot.go.
use integrity_sum.Base.{
  ◌≡◌, ◌≢◌, refl, sym, subst, ap, ◌∙◌, false, List, [], ◌∷◌, ◌++◌, arith, Bytes, All, append_assoc,
  same,
}
use integrity_sum.Strings.Search.{has_prefix, trim_prefix}
use integrity_sum.Strings.Split.{split, join}
use integrity_sum.Strings.SplitByte.{split_at}
use integrity_sum.Strings.FilePath.{slash}
use integrity_sum.Strings.FilePath.Names.{
  IsName, Named, HasNoUp, names_of, kept, path_of, path_of-Named, below-Named,
}
use integrity_sum.Walker.Files.{Route, follow}
use integrity_sum.Walker.Paths.{follow-path_of, below}

abbrev pub dotted : Bytes → Bytes
dotted root = b'.' ∷ b'/' ∷ root

dotted-Named : {ns : List Bytes} {q : Bytes} → Named false ns q → Named false ns (dotted q)
unfolding kept same split
dotted-Named {ns} {q} d = record {
  head = b'.';
  tail = b'/' ∷ q;
  form = refl;
  root = refl;
  names = ap kept (split_at b'/' (b'.' ∷ []) q) ∙ d.names;
  no_up = subst (All (λ p. p ≢ b'.' ∷ b'.' ∷ [])) (sym (split_at b'/' (b'.' ∷ []) q)) (cc, d.no_up);
  are_names = d.are_names;
}

pub not_dotted :
    (n : Bytes) (ms : List Bytes) (t : Bytes)
    → IsName n
    → has_prefix (path_of false (n ∷ ms)) (dotted t) ≡ false
unfolding has_prefix join
not_dotted [] ms t ((h, o, u), l) = absurd (h refl)
not_dotted (c ∷ []) [] t ((h, o, u), l) = ground arith
not_dotted (c ∷ []) (m ∷ ms) t ((h, o, u), l) = ground arith
not_dotted (c ∷ d ∷ n) [] t (o, (lc, (ld, l))) = ground arith
not_dotted (c ∷ d ∷ n) (m ∷ ms) t (o, (lc, (ld, l))) = ground arith

pub unspelled :
    (n : Bytes) (ms : List Bytes) → n ≢ [] → path_of false (n ∷ ms) ≡ join (n ∷ ms) slash
unfolding join
unspelled [] ms h = absurd (h refl)
unspelled (c ∷ n) [] h = refl
unspelled (c ∷ n) (m ∷ ms) h = refl

-- Where the root is `./` with names and slashes behind it, and the directory has no `..`, the walk
-- drops the `./`, so the root is not a prefix of the paths that it sends, and is not taken off: they
-- keep the names of the root.
pub trim_prefix-dotted :
    (n : Bytes) (ns : List Bytes) (dir : Bytes) (ds : List Bytes) (name : Bytes) (route : Route)
    → All IsName (n ∷ ns)
    → HasNoUp dir
    → names_of dir ≡ ds
    → All IsName ds
    → All IsName (name ∷ route)
    → trim_prefix
        (follow ((dotted (path_of false (n ∷ ns)) ++ slash) ++ dir) (name ∷ route))
        (dotted (path_of false (n ∷ ns)) ++ slash)
      ≡ below (n ∷ (ns ++ ds)) (name ∷ route)
unfolding trim_prefix
trim_prefix-dotted n ns dir ds name route h no_up names dirs steps =
    let root = dotted (path_of false (n ∷ ns)) in
    let walked : follow ((root ++ slash) ++ dir) (name ∷ route)
        ≡ path_of false ((n ∷ (ns ++ ds)) ++ name ∷ route) =
      ap (λ x. follow x (name ∷ route)) (append_assoc root slash dir)
      ∙ follow-path_of route false (n ∷ (ns ++ ds)) (root ++ b'/' ∷ dir) name
          (below-Named dir ds (dotted-Named (path_of-Named false n ns h)) no_up names dirs) steps in
    rw (walked, not_dotted n ((ns ++ ds) ++ name ∷ route) (path_of false (n ∷ ns) ++ slash) h.0)
      (unspelled n ((ns ++ ds) ++ name ∷ route) h.0.0.0)
