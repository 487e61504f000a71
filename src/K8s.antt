-- ===== src/K8s.antt =====
-- pkg/k8s/k8s.go: the pod that the monitor stands in, and its deployment. The Kubernetes API is a
-- parameter: what it answers to a `Get` of a deployment and to a `Delete` of a pod.
pub mod Target
mod Tests
use integrity_sum.Base.{
  ℕ, ◌-◌, ◌≤◌, Bool, true, false, List, [], ◌∷◌, ◌++◌, Option, none, some, Bytes, codes, length,
  take, leb, same, if◌then◌else◌,
}
use integrity_sum.Base.Map.{Map, lookup}
use integrity_sum.Strings.Split.{split, join}

pub record KubeData : Type 0 where
  pub namespace : Bytes
  pub target_name : Bytes
  pub target_type : Bytes
  pub pod_name : Bytes
  pub pod_namespace : Bytes

pub record DeploymentData : Type 0 where
  pub image : Bytes
  pub name_pod : Bytes
  pub timestamp : Bytes
  pub name_deployment : Bytes
  pub release_name : Bytes
  pub name_space : Bytes

-- `elements[:len(elements)-2]`: `none` is the run-time panic of a negative slice bound.
abbrev without_last_two : List Bytes → Option (List Bytes)
without_last_two elements =
    if leb 2 (length elements) then some (take (length elements - 2) elements) else none

abbrev join_elements : Option (List Bytes) → Option Bytes
join_elements none = none
join_elements (some elements) = some (join elements (b'-' ∷ []))

unfoldable pub target_name_of : Bytes → Option Bytes
target_name_of pod_name = join_elements (without_last_two (split pod_name (b'-' ∷ [])))

pub data Init : Type 0 where
  initialized : KubeData → Init
  -- the run-time panic, and `log.Fatalln`
  panicked not_set : Init

-- The files and variables that `InitKubeData` reads; a failed read gives no bytes.
pub record Surroundings : Type 0 where
  pub namespace_bytes : Bytes
  pub pod_name : Bytes
  pub deployment_type : Bytes
  pub pod_namespace : Bytes

abbrev with_target : Surroundings → Option Bytes → Init
with_target s none = panicked
with_target s (some []) = not_set
with_target s (some (c ∷ t)) = initialized (record {
  namespace = s.namespace_bytes;
  target_name = c ∷ t;
  target_type = s.deployment_type;
  pod_name = s.pod_name;
  pod_namespace = s.pod_namespace;
})

unfoldable pub init_kube_data : Surroundings → Init
init_kube_data s = with_target s (target_name_of s.pod_name)

-- A deployment as the API returns it.
pub record Deployment : Type 0 where
  pub creation_timestamp : Bytes
  pub images : List Bytes
  pub annotations : Map Bytes

-- `for _, v := range containers { deploymentData.Image = v.Image }`
unfoldable pub last_image : List Bytes → Bytes → Bytes
last_image [] image = image
last_image (v ∷ vs) image = last_image vs v

abbrev release_of : Option Bytes → Bytes
release_of none = []
release_of (some value) = value

abbrev data_of : KubeData → Option Deployment → Option DeploymentData
data_of k none = none
data_of k (some d) = some (record {
  image = last_image d.images [];
  name_pod = k.pod_name;
  timestamp = d.creation_timestamp;
  name_deployment = k.target_name;
  release_name = release_of (lookup (codes "meta.helm.sh/release-name") d.annotations);
  name_space = k.namespace;
})

-- `GetDataFromDeployment`, with the API's answer to a namespace and a name.
unfoldable pub get_data_from_deployment :
    (Bytes → Bytes → Option Deployment) → KubeData → Option DeploymentData
get_data_from_deployment get k = data_of k (get k.namespace k.target_name)

-- `Connect`: the configuration of the cluster, and a client set for it
module _ {W E : Type 0} (in_cluster_config new_for_config : W → Option E × W) where
  abbrev after_config : Option E × W → Option E × W
  after_config (some e, w) = (some e, w)
  after_config (none, w) = new_for_config w

  unfoldable pub connect : W → Option E × W
  connect w = after_config (in_cluster_config w)

-- `RestartPod`: the pod is deleted by its namespace and name.
module _ {W E : Type 0} (delete_pod : Bytes → Bytes → W → Option E × W) where
  unfoldable pub restart_pod : KubeData → W → Option E × W
  restart_pod k w = delete_pod k.pod_namespace k.pod_name w
