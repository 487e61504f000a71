-- ===== src/Pipeline/SameTree.antt =====
-- The snapshot of an image and the check of a process whose file system is the image's: both walk the
-- tree, one below the root that the image was unpacked to, the other below `/proc/<pid>/root/`.
use mathlib.Core.List.{Permᴰ, map-append}
use mathlib.Core.List.Permᴰ
use integrity_sum.Base.{
  ℕ, ◌≡◌, refl, sym, ap, ap₂, ◌∙◌, subst, Bool, false, List, [], ◌∷◌, ◌++◌, map, Option, none, some,
  Bytes, All, append_assoc, append-nil,
}
use integrity_sum.Strings.Search.{trim_prefix, trim_prefix-append}
use integrity_sum.Strings.FilePath.Names.{IsName}
use integrity_sum.Worker.Files.{hashes_of, item}
use integrity_sum.Walker.{Node, chan_walk_dir}
use integrity_sum.Walker.Files.{
  Route, IsReadable, IsWalkable, follow, routes, routes_at, all_files, chan_walk_dir_lem,
}
use integrity_sum.Walker.Paths.{Root, IsDirectory, follow-below}
use integrity_sum.Walker.ImageRoot.{ImageRoot, stripped_image_path}
use integrity_sum.Snapshot.{Host, strip, hash_dir, root_path_of}
use integrity_sum.Snapshot.Output.{all_hashes}
use integrity_sum.Pipeline.{under}

-- A file keeps its path below the root, wherever the root is.
moved_path :
    {root proc : Bytes} (r : ImageRoot root) (q : Root proc) (dir : Bytes) (route : Route)
    → IsDirectory dir
    → All IsName route
    → proc ++ trim_prefix (follow (root ++ dir) route) root ≡ follow (proc ++ dir) route
unfolding follow
moved_path {root} {proc} r q dir [] d steps = ap (λ x. proc ++ x) (trim_prefix-append root dir)
moved_path {root} {proc} r q dir (name ∷ route) d steps =
    ap (λ x. proc ++ x) (stripped_image_path r dir name route d steps)
    ∙ sym (follow-below q dir name route d steps)

moved_item :
    (proc root v w : Bytes) (o : Option Bytes)
    → proc ++ trim_prefix v root ≡ w
    → map (under proc) (map (strip root) (item v o)) ≡ item w o
moved_item proc root v w none e = refl
moved_item proc root v w (some h) e = ap (λ p. record { path = p; hash = h } ∷ []) e

hashes_of-append :
    (hash_of : Bytes → Option Bytes) (vs ws : List Bytes)
    → hashes_of hash_of (vs ++ ws) ≡ hashes_of hash_of vs ++ hashes_of hash_of ws
unfolding hashes_of
hashes_of-append hash_of [] ws = refl
hashes_of-append hash_of (v ∷ vs) ws =
    ap (λ xs. item v (hash_of v) ++ xs) (hashes_of-append hash_of vs ws)
    ∙ sym (append_assoc (item v (hash_of v)) (hashes_of hash_of vs) (hashes_of hash_of ws))

-- What a walk and a hasher see at the paths below a root.
pub record View : Type 0 where
  pub tree : Bytes → Option Node
  pub hash_of : Bytes → Option Bytes

-- A directory with the same files in both views, whose contents have the same hashes.
pub record SameDir (image proc : View) (root proc_dirs dir : Bytes) : Type 0 where
  pub node : Node
  pub in_image : image.tree (root ++ dir) ≡ some node
  pub in_proc : proc.tree (proc_dirs ++ dir) ≡ some node
  pub readable : IsReadable node
  pub directory : IsDirectory dir
  pub names : All (All IsName) (routes node)
  pub same_hash :
      All
        (λ route.
          image.hash_of (follow (root ++ dir) route)
          ≡ proc.hash_of (follow (proc_dirs ++ dir) route))
        (routes node)

module _ (image proc : View) {root proc_dirs : Bytes} (r : ImageRoot root)
    (q : Root proc_dirs) where
  moved_routes :
      (dir : Bytes) (rs : List Route)
      → IsDirectory dir
      → All (All IsName) rs
      → All
          (λ route.
            image.hash_of (follow (root ++ dir) route)
            ≡ proc.hash_of (follow (proc_dirs ++ dir) route))
          rs
      → map
          (under proc_dirs)
          (map (strip root) (hashes_of image.hash_of (map (follow (root ++ dir)) rs)))
        ≡ hashes_of proc.hash_of (map (follow (proc_dirs ++ dir)) rs)
  unfolding hashes_of
  moved_routes dir [] d names same = refl
  moved_routes dir (route ∷ rs) d (steps, names) (agree, same) =
      let v = follow (root ++ dir) route in
      let rest = hashes_of image.hash_of (map (follow (root ++ dir)) rs) in
      ap (map (under proc_dirs)) (map-append (strip root) (item v (image.hash_of v)) rest)
      ∙ (map-append (under proc_dirs) (map (strip root) (item v (image.hash_of v)))
            (map (strip root) rest)
          ∙ ap₂ (λ x y. x ++ y)
              (moved_item proc_dirs root v (follow (proc_dirs ++ dir) route) (image.hash_of v)
                  (moved_path r q dir route d steps)
                ∙ ap (item (follow (proc_dirs ++ dir) route)) agree)
              (moved_routes dir rs d names same))

-- The pool's output for a directory of the image: the hashes of the files that the walk finds, in any
-- order.
abbrev pub IsScan : (ℕ → Bool) → View → Host → Bytes → Type 0
IsScan stops image h v =
    Permᴰ (h.scan (root_path_of h ++ v))
      (hashes_of image.hash_of (chan_walk_dir stops image.tree ((root_path_of h ++ v) ∷ []) []))

module _ (stops : ℕ → Bool) (live : (n : ℕ) → stops n ≡ false) (h : Host) (image proc : View)
    {proc_dirs : Bytes} (r : ImageRoot (root_path_of h)) (q : Root proc_dirs) where
  moved_dir :
      (v : Bytes)
      → SameDir image proc (root_path_of h) proc_dirs v
      → IsScan stops image h v
      → Permᴰ (map (under proc_dirs) (hash_dir h (root_path_of h) v)) (
          hashes_of proc.hash_of
            (map (follow (proc_dirs ++ v)) (routes_at (proc.tree (proc_dirs ++ v)))))
  unfolding hash_dir all_files
  moved_dir v d scan =
      let root = root_path_of h in
      let walked : chan_walk_dir stops image.tree ((root ++ v) ∷ []) []
          ≡ map (follow (root ++ v)) (routes d.node) =
        chan_walk_dir_lem stops live image.tree ((root ++ v) ∷ []) []
          ((d.node, d.in_image, d.readable), tt)
        ∙ (append-nil (map (follow (root ++ v)) (routes_at (image.tree (root ++ v))))
            ∙ ap (λ o. map (follow (root ++ v)) (routes_at o)) d.in_image) in
      subst (λ l. Permᴰ (map (under proc_dirs) (hash_dir h root v)) l)
        (ap (λ l. map (under proc_dirs) (map (strip root) (hashes_of image.hash_of l))) walked
          ∙ (moved_routes image proc r q v (routes d.node) d.directory d.names d.same_hash
              ∙ ap (λ o. hashes_of proc.hash_of (map (follow (proc_dirs ++ v)) (routes_at o)))
                  (sym d.in_proc)))
        (Permᴰ.map (under proc_dirs) (Permᴰ.map (strip root) scan))

  pub moved_dirs :
      (dirs : List Bytes)
      → All (SameDir image proc (root_path_of h) proc_dirs) dirs
      → All (IsScan stops image h) dirs
      → Permᴰ
          (map (under proc_dirs) (all_hashes h dirs))
          (hashes_of proc.hash_of (all_files proc.tree (map (λ v. proc_dirs ++ v) dirs)))
  unfolding all_hashes all_files hashes_of
  moved_dirs [] _ _ = Permᴰ.refl []
  moved_dirs (v ∷ vs) (d, ds) (scan, scans) =
      let root = root_path_of h in
      let here = map (follow (proc_dirs ++ v)) (routes_at (proc.tree (proc_dirs ++ v))) in
      let behind = all_files proc.tree (map (λ w. proc_dirs ++ w) vs) in
      subst (λ l. Permᴰ l (hashes_of proc.hash_of (here ++ behind)))
        (sym (map-append (under proc_dirs) (hash_dir h root v) (all_hashes h vs)))
        (subst
          (λ l.
            Permᴰ
              (map (under proc_dirs) (hash_dir h root v) ++ map (under proc_dirs) (all_hashes h vs))
              l)
          (sym (hashes_of-append proc.hash_of here behind))
          (Permᴰ.trans
            (Permᴰ.append_right (map (under proc_dirs) (all_hashes h vs)) (moved_dir v d scan))
            (Permᴰ.append_left (hashes_of proc.hash_of here) (moved_dirs vs ds scans))))

  pub walkable :
      (dirs : List Bytes)
      → All (SameDir image proc (root_path_of h) proc_dirs) dirs
      → All (IsWalkable proc.tree) (map (λ v. proc_dirs ++ v) dirs)
  walkable [] _ = tt
  walkable (v ∷ vs) (d, ds) = ((d.node, d.in_proc, d.readable), walkable vs ds)
