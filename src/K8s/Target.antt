-- ===== src/K8s/Target.antt =====
-- The deployment's name is the pod's name without the two parts that Kubernetes appends.
use integrity_sum.Base.{
  ◌-◌, ◌≡◌, ap, ◌∙◌, true, List, [], ◌∷◌, ◌++◌, some, Bytes, Lacks, arith, length, length-append,
  take_all_append, leb,
}
use integrity_sum.Strings.Split.{split, join, split-Lacks}
use integrity_sum.Strings.SplitByte.{split_at, join-split}
use integrity_sum.K8s.{target_name_of, panicked, Surroundings, init_kube_data}

cut_pod_name :
    (name replica_set id : Bytes)
    → Lacks b'-' replica_set
    → Lacks b'-' id
    → split (name ++ b'-' ∷ (replica_set ++ b'-' ∷ id)) (b'-' ∷ [])
      ≡ split name (b'-' ∷ []) ++ replica_set ∷ id ∷ []
cut_pod_name name replica_set id hr hi =
    split_at b'-' name (replica_set ++ b'-' ∷ id)
    ∙ ap (λ l. split name (b'-' ∷ []) ++ l)
        (split_at b'-' replica_set id
          ∙ cc (split-Lacks replica_set b'-' [] hr, split-Lacks id b'-' [] hi))

from_parts :
    (pod : Bytes) (ps : List Bytes) (p q : Bytes)
    → split pod (b'-' ∷ []) ≡ ps ++ p ∷ q ∷ []
    → target_name_of pod ≡ some (join ps (b'-' ∷ []))
unfolding target_name_of
from_parts pod ps p q cut =
    let all_parts = ps ++ p ∷ q ∷ [] in
    let enough : leb 2 (length all_parts) ≡ true = ground (arith, length-append ps (p ∷ q ∷ [])) in
    let short : length all_parts - 2 ≡ length ps = omega (arith, length-append ps (p ∷ q ∷ [])) in
    rw (cut, enough, short, take_all_append ps (p ∷ q ∷ []))

-- A pod `deployment-replicaset-id`, whose last two parts hold no dash, is of that deployment, whatever
-- dashes the deployment's name holds.
pub target_name_of_lem :
    (name replica_set id : Bytes)
    → Lacks b'-' replica_set
    → Lacks b'-' id
    → target_name_of (name ++ b'-' ∷ (replica_set ++ b'-' ∷ id)) ≡ some name
target_name_of_lem name replica_set id hr hi =
    from_parts _ (split name (b'-' ∷ [])) replica_set id (cut_pod_name name replica_set id hr hi)
    ∙ ap some (join-split b'-' name)

-- A pod name with no dash, an unset `POD_NAME` among them, does not reach the test for an empty
-- target: the slice panics before it.
pub dashless_name_panics : (s : Surroundings) → Lacks b'-' s.pod_name → init_kube_data s ≡ panicked
unfolding init_kube_data target_name_of
dashless_name_panics s h = rw (split-Lacks s.pod_name b'-' [] h)
