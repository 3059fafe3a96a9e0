-- ===== src/K8s/Containers.antt =====
-- server/internal/k8s/containers.go: which containers of a pod are its own. The proofs are in
-- K8s/Containers/Order.
--
-- The set of a classifier is a list of the names it holds.
pub mod Order
use kubby.Prelude.{
  Bool, true, false, Option, none, some, List, [], ◌∷◌, ◌++◌, map, if◌then◌else◌, any, codes, Text,
  text_eq, is_empty, trim_space, text_lt, sort_by,
}

unfoldable pub default_sidecars : List Text
default_sidecars =
    codes "istio-proxy"
    ∷ codes "istio-init"
    ∷ codes "linkerd-proxy"
    ∷ codes "linkerd-init"
    ∷ codes "envoy"
    ∷ codes "vault-agent"
    ∷ codes "vault-agent-init"
    ∷ codes "oauth2-proxy"
    ∷ codes "fluent-bit"
    ∷ codes "fluentd"
    ∷ codes "filebeat"
    ∷ codes "vector"
    ∷ codes "promtail"
    ∷ codes "otel-collector"
    ∷ codes "cloudsql-proxy"
    ∷ codes "config-reloader"
    ∷ []

pub data ContainerRole : Type 0 where
  app sidecar initial : ContainerRole

unfoldable pub role_eq : ContainerRole → ContainerRole → Bool
role_eq app app = true
role_eq sidecar sidecar = true
role_eq initial initial = true
role_eq _ _ = false

pub record Container : Type 0 where
  pub name : Text
  pub role : ContainerRole

abbrev pub container : ContainerRole → Text → Container
container r n = record { name = n; role = r }

pub record Classifier : Type 0 where
  pub sidecars : List Text

unfoldable pub trimmed_names : List Text → List Text
unfolding trim_space
trimmed_names [] = []
trimmed_names (n ∷ ns) =
    let rest = trimmed_names ns in
    let trimmed = trim_space n in if is_empty trimmed then rest else trimmed ∷ rest

unfoldable pub new_classifier : List Text → Classifier
unfolding trimmed_names default_sidecars
new_classifier [] = record { sidecars = trimmed_names default_sidecars }
new_classifier (n ∷ ns) = record { sidecars = trimmed_names (n ∷ ns) }

unfoldable pub is_sidecar : Classifier → Text → Bool
unfolding text_eq
is_sidecar c name = any (text_eq name) c.sidecars

abbrev pub role_of : Classifier → Text → ContainerRole
role_of c name = if is_sidecar c name then sidecar else app

unfoldable pub classify : Classifier → List Text → List Text → List Container
unfolding is_sidecar
classify c containers init_containers =
    map (λ n. container (role_of c n) n) containers ++ map (container initial) init_containers

-- The loop, then what it falls back to.
unfoldable pub first_app : Classifier → List Text → Option Text
unfolding is_sidecar
first_app c [] = none
first_app c (n ∷ ns) = let rest = first_app c ns in if is_sidecar c n then rest else some n

unfoldable pub default_container : Classifier → List Text → Text
unfolding first_app
default_container c [] = []
default_container c (n ∷ ns) = elim (first_app c (n ∷ ns)) [ none ↦ n | some m ↦ m ]

unfoldable pub is_before : Container → Container → Bool
unfolding role_eq text_lt
is_before i j = if role_eq i.role j.role then text_lt i.name j.name else role_eq i.role app

unfoldable pub ordered : Classifier → List Text → List Text → List Container
unfolding classify is_before
ordered c containers init_containers =
    sort_by is_before (classify c containers []) ++ map (container initial) init_containers
