-- ===== src/K8s/Tests.antt =====
-- Pod names.
use integrity_sum.Base.{◌≡◌, refl, [], some, codes}
use integrity_sum.Strings.Split.{split, join}
use integrity_sum.K8s.{target_name_of, panicked, Surroundings, init_kube_data}
use integrity_sum.K8s.Target.{dashless_name_panics}

name_of_pod : target_name_of (codes "my-app-5c7b-x1") ≡ some (codes "my-app")
unfolding target_name_of split join
name_of_pod = refl

abbrev no_pod_name : Surroundings
no_pod_name = record {
  namespace_bytes = codes "ns";
  pod_name = [];
  deployment_type = [];
  pod_namespace = codes "ns";
}

dashless_name_panics_example : init_kube_data no_pod_name ≡ panicked
dashless_name_panics_example = dashless_name_panics no_pod_name tt
