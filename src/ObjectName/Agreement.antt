-- ===== src/ObjectName/Agreement.antt =====
-- Where the two names of the checksums object agree, and which images share one.
use integrity_sum.Base.{◌≡◌, ap, ◌∙◌, false, [], ◌∷◌, ◌++◌, none, some, Bytes, Lacks, append_assoc}
use integrity_sum.Base.Map.{Map, lookup}
use integrity_sum.Base.Result.{ok, err}
use integrity_sum.Strings.Search.{contains}
use integrity_sum.Strings.Split.{split, split-append, split_alone}
use integrity_sum.Strings.Lower.{to_lower}
use integrity_sum.Strings.FilePath.Ordinary.{IsOrdinaryPath, join_path_ordinary}
use integrity_sum.Process.{incorrect_image_name, check_sum_file}
use integrity_sum.ObjectName.{build_object_name}

pub build_object_name_untagged :
    (unicode_lower : Bytes → Bytes) (ns image alg : Bytes)
    → contains image (b':' ∷ []) ≡ false
    → build_object_name unicode_lower ns image alg ≡ none
unfolding build_object_name
build_object_name_untagged unicode_lower ns image alg plain =
    rw (split_alone image (b':' ∷ []) plain)

module _ (unicode_lower : Bytes → Bytes) (proc_image : Map Bytes) (proc_name ns alg : Bytes) where
  -- The monitor loads what the controller stored: for an image `name:tag` in a namespace, all three
  -- made of ordinary path parts and the name with no colon, both make the same name.
  pub check_sum_file-build_object_name :
      (name tag : Bytes)
      → Lacks b':' name
      → contains tag (b':' ∷ []) ≡ false
      → IsOrdinaryPath ns
      → IsOrdinaryPath name
      → IsOrdinaryPath tag
      → lookup proc_name proc_image ≡ some (name ++ b':' ∷ tag)
      → (f : Bytes) × (build_object_name unicode_lower ns (name ++ b':' ∷ tag) alg ≡ some f)
        × (check_sum_file unicode_lower proc_image ns proc_name alg ≡ ok f)
  unfolding build_object_name check_sum_file
  check_sum_file-build_object_name name tag hn ht on onm ot found =
      let cut : split (name ++ b':' ∷ tag) (b':' ∷ []) ≡ name ∷ tag ∷ [] =
        split-append name b':' [] tag hn ∙ ap (λ l. name ∷ l) (split_alone tag (b':' ∷ []) ht) in
      let dotted = b'.' ∷ to_lower unicode_lower alg in
      (
        ns ++ (b'/' ∷ name ++ (b'/' ∷ tag ++ dotted)),
        rw (cut, join_path_ordinary ns name tag on onm ot) (simp append_assoc),
        rw (found, cut),
      )

  -- An image with no tag: the monitor has an error, and the controller's function panics.
  pub untagged_image :
      (image : Bytes)
      → contains image (b':' ∷ []) ≡ false
      → lookup proc_name proc_image ≡ some image
      → (check_sum_file unicode_lower proc_image ns proc_name alg ≡ err incorrect_image_name)
        × (build_object_name unicode_lower ns image alg ≡ none)
  unfolding check_sum_file
  untagged_image image plain found = (
    rw (found, split_alone image (b':' ∷ []) plain),
    build_object_name_untagged unicode_lower ns image alg plain,
  )

  -- Behind a registry with a port the tag is lost: all tags of the image share one object.
  pub port_hides_tag :
      (host rest tag tag' : Bytes)
      → Lacks b':' host
      → Lacks b':' rest
      → build_object_name unicode_lower ns (host ++ (b':' ∷ (rest ++ (b':' ∷ tag)))) alg
        ≡ build_object_name unicode_lower ns (host ++ (b':' ∷ (rest ++ (b':' ∷ tag')))) alg
  unfolding build_object_name
  port_hides_tag host rest tag tag' hh hr = rw (
    split-append host b':' [] (rest ++ (b':' ∷ tag)) hh,
    split-append rest b':' [] tag hr,
    split-append host b':' [] (rest ++ (b':' ∷ tag')) hh,
    split-append rest b':' [] tag' hr,
  )
