-- ===== src/Cluster/Types.antt =====
-- server/internal/cluster/registry.go: the kinds of object that Kubby knows. The proofs are in
-- Cluster/Types/Keys.
--
-- The map `typesByKey` holds the last type of each key.
pub mod Keys
use kubby.Prelude.{
  ℕ, String, Bool, true, false, ◌&&◌, not, Option, none, some, List, [], ◌∷◌, ◌++◌, map, str_eq,
  ltb, ◌==◌, if◌then◌else◌, codes, Text, text_eq, trim_space, text_lt, sort_by,
}
use mathlib.Core.List.{reverse}

pub data Category : Type 0 where
  workload config network storage access_control cluster custom : Category

pub record ResourceType : Type 0 where
  pub group : String
  pub version : String
  pub resource : String
  pub kind : String
  pub namespaced : Bool
  pub category : Category
  pub default_sort : String
  pub default_sort_descending : Bool
  pub order : ℕ
  pub hot : Bool

unfoldable pub key : ResourceType → Text
key t = if str_eq t.group "" then codes t.resource else codes t.group ++ (b'/' ∷ codes t.resource)

abbrev builtin : String → String → String → String → Bool → Category → ℕ → Bool → ResourceType
builtin group version resource kind namespaced category order hot = record {
  group = group;
  version = version;
  resource = resource;
  kind = kind;
  namespaced = namespaced;
  category = category;
  default_sort = "";
  default_sort_descending = false;
  order = order;
  hot = hot;
}

abbrev sorted_by : String → Bool → ResourceType → ResourceType
sorted_by column descending t = record t {
  default_sort = column;
  default_sort_descending = descending;
}

abbrev pub builtin_types : List ResourceType
builtin_types =
    builtin "" "v1" "pods" "Pod" true workload 1 true
    ∷ builtin "apps" "v1" "deployments" "Deployment" true workload 2 true
    ∷ builtin "apps" "v1" "daemonsets" "DaemonSet" true workload 3 true
    ∷ builtin "apps" "v1" "statefulsets" "StatefulSet" true workload 4 true
    ∷ builtin "apps" "v1" "replicasets" "ReplicaSet" true workload 5 true
    ∷ builtin "" "v1" "replicationcontrollers" "ReplicationController" true workload 6 false
    ∷ builtin "batch" "v1" "jobs" "Job" true workload 7 false
    ∷ builtin "batch" "v1" "cronjobs" "CronJob" true workload 8 false
    ∷ builtin "" "v1" "configmaps" "ConfigMap" true config 1 false
    ∷ builtin "" "v1" "secrets" "Secret" true config 2 false
    ∷ builtin "" "v1" "resourcequotas" "ResourceQuota" true config 3 false
    ∷ builtin "" "v1" "limitranges" "LimitRange" true config 4 false
    ∷ builtin "autoscaling" "v2" "horizontalpodautoscalers" "HorizontalPodAutoscaler" true config 5
        false
    ∷ builtin "policy" "v1" "poddisruptionbudgets" "PodDisruptionBudget" true config 6 false
    ∷ builtin "scheduling.k8s.io" "v1" "priorityclasses" "PriorityClass" false config 7 false
    ∷ builtin "node.k8s.io" "v1" "runtimeclasses" "RuntimeClass" false config 8 false
    ∷ builtin "coordination.k8s.io" "v1" "leases" "Lease" true config 9 false
    ∷ builtin "admissionregistration.k8s.io" "v1" "mutatingwebhookconfigurations"
        "MutatingWebhookConfiguration" false config 10 false
    ∷ builtin "admissionregistration.k8s.io" "v1" "validatingwebhookconfigurations"
        "ValidatingWebhookConfiguration" false config 11 false
    ∷ builtin "" "v1" "services" "Service" true network 1 true
    ∷ builtin "discovery.k8s.io" "v1" "endpointslices" "EndpointSlice" true network 2 false
    ∷ builtin "" "v1" "endpoints" "Endpoints" true network 3 false
    ∷ builtin "networking.k8s.io" "v1" "ingresses" "Ingress" true network 4 false
    ∷ builtin "networking.k8s.io" "v1" "ingressclasses" "IngressClass" false network 5 false
    ∷ builtin "networking.k8s.io" "v1" "networkpolicies" "NetworkPolicy" true network 6 false
    ∷ builtin "gateway.networking.k8s.io" "v1" "httproutes" "HTTPRoute" true network 7 false
    ∷ builtin "" "v1" "persistentvolumeclaims" "PersistentVolumeClaim" true storage 1 true
    ∷ builtin "" "v1" "persistentvolumes" "PersistentVolume" false storage 2 false
    ∷ builtin "storage.k8s.io" "v1" "storageclasses" "StorageClass" false storage 3 false
    ∷ builtin "" "v1" "serviceaccounts" "ServiceAccount" true access_control 1 false
    ∷ builtin "rbac.authorization.k8s.io" "v1" "roles" "Role" true access_control 2 false
    ∷ builtin "rbac.authorization.k8s.io" "v1" "rolebindings" "RoleBinding" true access_control 3
        false
    ∷ builtin "rbac.authorization.k8s.io" "v1" "clusterroles" "ClusterRole" false access_control 4
        false
    ∷ builtin "rbac.authorization.k8s.io" "v1" "clusterrolebindings" "ClusterRoleBinding" false
        access_control 5 false
    ∷ builtin "" "v1" "nodes" "Node" false cluster 1 true
    ∷ builtin "" "v1" "namespaces" "Namespace" false cluster 2 true
    ∷ sorted_by "lastSeen" true (builtin "" "v1" "events" "Event" true cluster 3 true)
    ∷ []

abbrev category_name : Category → Text
category_name workload = codes "workload"
category_name config = codes "config"
category_name network = codes "network"
category_name storage = codes "storage"
category_name access_control = codes "access"
category_name cluster = codes "cluster"
category_name custom = codes "custom"

-- The order of `BuiltinTypes`.
abbrev pub stands_before : ResourceType → ResourceType → Bool
stands_before a b =
    if not (text_eq (category_name a.category) (category_name b.category))
    then text_lt (category_name a.category) (category_name b.category)
    else if not (a.order == b.order)
    then ltb a.order b.order
    else text_lt (codes a.kind) (codes b.kind)

unfoldable pub in_navigation : List ResourceType
unfolding text_eq text_lt sort_by
in_navigation = sort_by stands_before builtin_types

abbrev found : (ResourceType → Bool) → List ResourceType → Option ResourceType
found p [] = none
found p (t ∷ ts) = let rest = found p ts in if p t then some t else rest

unfoldable pub lookup_kind : String → String → String → Option ResourceType
lookup_kind group version kind =
    found (λ t. str_eq t.kind kind && str_eq t.group group && str_eq t.version version)
      builtin_types

unfoldable pub lookup_type : Text → Option ResourceType
unfolding key text_eq trim_space
lookup_type k = found (λ t. text_eq (key t) (trim_space k)) (reverse builtin_types)

abbrev hot_of : List ResourceType → List ResourceType
hot_of [] = []
hot_of (t ∷ ts) = let rest = hot_of ts in if t.hot then t ∷ rest else rest

unfoldable pub hot_types : List ResourceType
hot_types = hot_of builtin_types
