-- ===== src/Store/Registry.antt =====
-- server/internal/store/clusters.go: the rows of a registered cluster, of its credential and of the
-- grants to it, with what is read off them.
--
-- The columns that a CHECK bounds to a few words are texts, as in the code. The column `granted_at`
-- of a grant and the times of a credential are read by nothing and left out.
use kubby.Prelude.{ℕ, Bool, ◌||◌, Option, if◌then◌else◌, codes, Text, text_eq, is_empty}
use kubby.Store.Models.{Uuid, Time, Bytes}

pub record Cluster : Type 0 where
  pub id : Uuid
  pub name : Text
  pub environment : Text
  pub environment_label : Text
  pub color : Text
  pub auth_source : Text
  pub api_server_url : Text
  pub insecure_skip_tls_verify : Bool
  pub proxy_url : Option Text
  pub credential_status : Text
  pub status_detail : Text
  pub k8s_version : Text
  pub node_count : Option ℕ
  pub metrics_available : Bool
  pub last_validated_at : Option Time
  pub impersonation_enabled : Bool
  pub qps_limit : ℕ
  pub read_only : Bool
  pub metrics_url : Text
  pub metrics_username : Text
  pub metrics_insecure_skip_verify : Bool
  pub logs_url : Text
  pub logs_index : Text
  pub logs_auth_scheme : Text
  pub logs_username : Text
  pub logs_insecure_skip_verify : Bool
  pub created_by : Option Uuid
  pub created_at : Time
  pub updated_at : Time

abbrev pub credential_valid : Text
credential_valid = codes "valid"

abbrev pub credential_invalid : Text
credential_invalid = codes "invalid"

abbrev pub credential_unreachable : Text
credential_unreachable = codes "unreachable"

abbrev pub credential_unknown : Text
credential_unknown = codes "unknown"

abbrev pub access_read : Text
access_read = codes "read"

abbrev pub access_write : Text
access_write = codes "write"

unfoldable pub display_environment : Cluster → Text
display_environment c = if is_empty c.environment_label then c.environment else c.environment_label

unfoldable pub needs_attention : Cluster → Bool
unfolding text_eq
needs_attention c =
    text_eq c.credential_status credential_invalid
    || text_eq c.credential_status credential_unreachable

-- A row of `cluster_credentials`.
pub record CredentialRow : Type 0 where
  pub cluster_id : Uuid
  pub context_name : Text
  pub kubeconfig_enc : Bytes
  pub metrics_password_enc : Option Bytes
  pub logs_secret_enc : Option Bytes

-- A row of `user_cluster_grants`.
pub record GrantRow : Type 0 where
  pub user_id : Uuid
  pub cluster_id : Uuid
  pub access_level : Text
  pub granted_by : Option Uuid
