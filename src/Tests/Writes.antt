-- ===== src/Tests/Writes.antt =====
-- The gates before a write at concrete inputs.
use kubby.Prelude.{true, false, some, [], ◌∷◌, str_eq, if◌then◌else◌}
use kubby.Cluster.WriteGuard.{delete, WriteRequest, Permission, Api, flux, GitOpsOwner, Labels}

abbrev pub api : Api
api = record {
  has_config = true;
  has_client = true;
  review = λ req. some (record { is_allowed = true; reason = "" });
}

abbrev removal : WriteRequest
removal = record {
  group = "apps";
  version = "v1";
  resource = "deployments";
  namespace = "prod";
  name = "web";
  verb = delete;
}

abbrev writer : Permission
writer = record { global_read_only = false; may_write = true }

abbrev labels : Labels
labels key = if str_eq key "kustomize.toolkit.fluxcd.io/name" then "apps" else ""

abbrev no_annotations : Labels
no_annotations key = ""

abbrev owner : GitOpsOwner
owner = record { controller = flux; instance_name = "apps" ∷ []; self_heal = true }
