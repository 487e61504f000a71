-- ===== src/Snapshot/DottedRoot.antt =====
-- `HashDir` of internal/integritymonitor/snapshot.go with a `root-fs` that begins with `./`.
use integrity_sum.Base.{◌≡◌, ap, ◌∙◌, false, List, ◌∷◌, ◌++◌, Bytes, All}
use integrity_sum.Strings.Search.{trim_prefix}
use integrity_sum.Strings.FilePath.{slash}
use integrity_sum.Strings.FilePath.Names.{IsName, HasNoUp, names_of, path_of}
use integrity_sum.Worker.{FileHash}
use integrity_sum.Walker.Files.{Route, follow}
use integrity_sum.Walker.Paths.{below}
use integrity_sum.Walker.Dotted.{dotted, trim_prefix-dotted}
use integrity_sum.Snapshot.{Host, root_path_of, strip}

-- If the flag `root-fs` is `./` with a clean relative path behind it, then a file of the walk below a
-- monitored directory without a `..` is recorded under a path that still has the names of the root in
-- front, and not under its path below the root.
pub dotted_root_stays :
    (h : Host) (v : FileHash) (n : Bytes) (ns : List Bytes) (dir : Bytes) (ds : List Bytes)
    (name : Bytes) (route : Route)
    → h.root_fs ≡ dotted (path_of false (n ∷ ns))
    → All IsName (n ∷ ns)
    → HasNoUp dir
    → names_of dir ≡ ds
    → All IsName ds
    → All IsName (name ∷ route)
    → v.path ≡ follow (root_path_of h ++ dir) (name ∷ route)
    → (strip (root_path_of h) v).path ≡ below (n ∷ (ns ++ ds)) (name ∷ route)
dotted_root_stays h v n ns dir ds name route root are_names no_up names dirs steps walked =
    ap (λ x. trim_prefix x (root_path_of h)) walked
    ∙ (ap (λ r. trim_prefix (follow ((r ++ slash) ++ dir) (name ∷ route)) (r ++ slash)) root
        ∙ trim_prefix-dotted n ns dir ds name route are_names no_up names dirs steps)
