-- ===== src/HttpApi/Resources.antt =====
-- server/internal/httpapi/resource_handlers.go: who a cluster is shown to, under which identity it is
-- asked, and how an error of the cluster package is answered. The handlers that read objects are left
-- out.
use kubby.Prelude.{ℕ, String, Option, none, some, ◌++◌, if◌then◌else◌, codes, Text, is_empty}
use kubby.Rbac.{cluster_manage, can}
use kubby.Store.Models.{User, Uuid}
use kubby.Store.Registry.{Cluster}
use kubby.Store.Db.{Error}
use kubby.Store.Flow.{Call, pure, leave, ◌>>=◌, ◌>>◌, run, refuse_if}
use kubby.Store.Clusters.{by_id, access_level}

-- What errors.Is finds of an error of the cluster package, with its text.
pub data CallError : Type 0 where
  resource_not_found kind_unavailable request_rejected : Text → CallError
  cluster_forbidden credential_rejected : Text → CallError
  no_credential : CallError
  other_error : Text → CallError

-- `err.Error()`
abbrev pub error_text : CallError → Text
error_text (resource_not_found t) = t
error_text (kind_unavailable t) = t
error_text (request_rejected t) = t
error_text (cluster_forbidden t) = t
error_text (credential_rejected t) = t
error_text no_credential = codes "cluster has no stored credential"
error_text (other_error t) = t

-- A status with a message of Kubby's own, or with the text of an error.
pub data Refusal : Type 0 where
  refused : ℕ → String → Refusal
  told : ℕ → Text → Refusal

abbrev pub resource_error : CallError → Refusal
resource_error (resource_not_found t) = told 404 t
resource_error (kind_unavailable t) = told 404 t
resource_error (request_rejected t) = told 400 t
resource_error (cluster_forbidden t) = told 403 t
resource_error (credential_rejected t) = told 502 t
resource_error no_credential = refused 502 "this cluster has no stored credential"
resource_error (other_error t) = told 502 (codes "could not read from the cluster: " ++ t)

abbrev missing : Refusal
missing = refused 404 "cluster not found"

abbrev load_error : Error → Refusal
load_error Error.not_found = missing
load_error other = refused 500 "could not load the cluster"

abbrev parsed_id : Option Uuid → Call Refusal Uuid
parsed_id none = leave (refused 400 "invalid identifier")
parsed_id (some id) = pure id

abbrev is_granted : User → Cluster → Call Refusal (Unit {0})
is_granted user c = do
  level ← run (λ e. refused 500 "could not check cluster access") (access_level user.id c.id)
  refuse_if (is_empty level) missing

unfoldable pub resolve_cluster : User → Option Uuid → Call Refusal Cluster
resolve_cluster user param = do
  id ← parsed_id param
  c ← run load_error (by_id id)
  if can user.role cluster_manage then pure tt else is_granted user c
  pure c

-- The identity that the cluster is asked under: the user's e-mail, where the cluster is set so.
abbrev pub impersonation_for : User → Cluster → Option Text
impersonation_for user c = if c.impersonation_enabled then some user.email else none
