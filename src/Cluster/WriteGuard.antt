-- ===== src/Cluster/WriteGuard.antt =====
-- server/internal/cluster/write_guard.go: the gates before a write, and who owns an object. The
-- proofs are in Cluster/WriteGuard/Gates.
--
-- What the cluster answers is the argument `Api`: whether a configuration and a client can be made,
-- and the review of a request. `asked` holds the requests that were sent for review, newest last.
-- A label or an annotation that is missing is read as the empty string, as in a Go map.
pub mod Gates
use kubby.Prelude.{
  String, Bool, true, ◌||◌, not, Option, none, some, List, [], ◌∷◌, ◌++◌, map, str_eq,
  if◌then◌else◌,
}

pub data Verb : Type 0 where
  create update patch delete : Verb

pub record WriteRequest : Type 0 where
  pub group : String
  pub version : String
  pub resource : String
  pub namespace : String
  pub name : String
  pub verb : Verb

pub record Permission : Type 0 where
  pub global_read_only : Bool
  pub may_write : Bool

-- The reason that the cluster gave, or the sentence that stands in for an empty one.
pub data Denial : Type 0 where
  given : String → Denial
  credential_may_not : Verb → String → Denial

pub data Reason : Type 0 where
  global_read_only not_allowed read_only_cluster : Reason
  cluster_denied : Denial → Reason

pub data WriteVerdict : Type 0 where
  allowed : WriteVerdict
  refused : Reason → WriteVerdict

pub data CheckError : Type 0 where
  no_config no_client review_failed : CheckError

pub record Review : Type 0 where
  pub is_allowed : Bool
  pub reason : String

pub record Api : Type 0 where
  pub has_config : Bool
  pub has_client : Bool
  pub review : WriteRequest → Option Review

pub data Checked : Type 0 where
  verdict : WriteVerdict → Checked
  failed : CheckError → Checked

abbrev denial : WriteRequest → String → Denial
denial req reason =
    if str_eq reason "" then credential_may_not req.verb req.resource else given reason

abbrev judge : WriteRequest → Option Review → Checked
judge req none = failed review_failed
judge req (some r) =
    if not r.is_allowed
    then verdict (refused (cluster_denied (denial req r.reason)))
    else verdict allowed

-- `read_only` is the lock of the cluster.
unfoldable pub check_write :
    Api → Bool → WriteRequest → Permission → List WriteRequest → Checked × List WriteRequest
check_write api read_only req perm asked =
    if perm.global_read_only
    then (verdict (refused global_read_only), asked)
    else if not perm.may_write
    then (verdict (refused not_allowed), asked)
    else if read_only
    then (verdict (refused read_only_cluster), asked)
    else if not api.has_config
    then (failed no_config, asked)
    else if not api.has_client
    then (failed no_client, asked)
    else (judge req (api.review req), asked ++ req ∷ [])

-- The names "argocd" and "flux".
pub data Controller : Type 0 where
  argocd flux : Controller

pub record GitOpsOwner : Type 0 where
  pub controller : Controller
  pub instance_name : List String
  pub self_heal : Bool

abbrev pub Labels : Type 0
Labels = String → String

unfoldable pub argo_sync_disabled : Labels → Bool
argo_sync_disabled annotations =
    str_eq (annotations "argocd.argoproj.io/sync-options") "Prune=false"
    || str_eq (annotations "argocd.argoproj.io/compare-options") "IgnoreExtraneous"

abbrev argo_owner : String → Labels → GitOpsOwner
argo_owner name annotations = record {
  controller = argocd;
  instance_name = name ∷ [];
  self_heal = not (argo_sync_disabled annotations);
}

-- The instance is the list of the parts that the code joins with a slash.
abbrev flux_owner : String → String → GitOpsOwner
flux_owner name namespace = record {
  controller = flux;
  instance_name = if str_eq namespace "" then name ∷ [] else namespace ∷ name ∷ [];
  self_heal = true;
}

unfoldable pub owner_of : Labels → Labels → Option GitOpsOwner
unfolding argo_sync_disabled
owner_of labels annotations =
    if not (str_eq (labels "argocd.argoproj.io/instance") "")
    then some (argo_owner (labels "argocd.argoproj.io/instance") annotations)
    else if not (str_eq (annotations "argocd.argoproj.io/tracking-id") "")
    then some (argo_owner (annotations "argocd.argoproj.io/tracking-id") annotations)
    else if not (str_eq (labels "kustomize.toolkit.fluxcd.io/name") "")
    then some (
        flux_owner (labels "kustomize.toolkit.fluxcd.io/name")
          (labels "kustomize.toolkit.fluxcd.io/namespace"))
    else none
