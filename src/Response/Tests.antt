-- ===== src/Response/Tests.antt =====
-- The monitor's response, with a log of calls as the world.
use integrity_sum.Base.{List, [], ◌∷◌, ◌++◌, Option, none, some, Bytes, codes}
use integrity_sum.Alerts.{Sender}
use integrity_sum.K8s.{KubeData, DeploymentData}

abbrev sender : Sender (List Bytes) Bytes
sender a w = (some (codes "down"), w ++ a.reason ∷ [])

abbrev delete_pod : Bytes → Bytes → List Bytes → Option Bytes × List Bytes
delete_pod ns n w = (none, w ++ n ∷ [])

abbrev kube : KubeData
kube = record {
  namespace = codes "ns";
  target_name = codes "app";
  target_type = [];
  pod_name = codes "app-1-2";
  pod_namespace = codes "ns";
}

abbrev deployment : DeploymentData
deployment = record {
  image = codes "app:1";
  name_pod = codes "app-1-2";
  timestamp = [];
  name_deployment = codes "app";
  release_name = [];
  name_space = codes "ns";
}
