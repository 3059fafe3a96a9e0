-- ===== src/Cluster/Service.antt =====
-- server/internal/cluster/service.go: registering a cluster, replacing its credential, and opening what
-- is stored for a connection; also the secrets of metrics_source.go and logs_source.go. The proofs are
-- in Cluster/Service/Secrets.
--
-- `select` reads the pasted text and picks a context, as `Kubeconfig.select` does.
-- `probe` asks the cluster, and `running_in_cluster` the process's environment; `id_text` writes a UUID
-- and `error_text` an error.
-- The configuration of a client is the arguments of RESTConfig, which builds it with client-go.
pub mod Secrets
use kubby.Prelude.{
  ℕ, ◌*◌, Bool, false, ◌||◌, not, Option, none, some, [], ◌∷◌, ◌++◌, ltb, if◌then◌else◌, codes,
  Text, text_eq, is_empty, trim_space,
}
use kubby.Crypto.{Aead, Keyring, Randomness, seal, open_blob}
use kubby.Crypto
use kubby.Store.Models.{Uuid, Time, Bytes}
use kubby.Store.Registry.{Cluster}
use kubby.Store.Db.{Error, not_found}
use kubby.Cluster.Kubeconfig.{KubeconfigError, ContextInfo, Outcome}
use kubby.Cluster.Kubeconfig
use kubby.Store.Flow.{Flow, go, stop, Call, pure, leave, ◌>>=◌, ◌>>◌, run, attempt}
use kubby.Store.Clusters.{NewCluster, create_with_id, by_id}
use kubby.Store.Clusters.Settings.{
  credential, replace_credential, HealthUpdate, record_health, metrics_password, logs_secret,
}

pub data ServiceError : Type 0 where
  kubeconfig : KubeconfigError → ServiceError
  cipher : Crypto.Error → ServiceError
  store : Error → ServiceError
  no_credential in_cluster_disabled : ServiceError

pub record ConnectionOptions : Type 0 where
  pub context_name : Text
  pub qps : ℕ
  pub burst : ℕ
  pub proxy_url : Text

pub data RestConfig : Type 0 where
  in_cluster : ConnectionOptions → RestConfig
  from_kubeconfig : Bytes → ConnectionOptions → RestConfig

pub record Settings : Type 0 where
  pub default_qps : ℕ
  pub default_burst : ℕ
  pub proxy_url : Text
  pub allow_in_cluster : Bool

pub record Service : Type 0 where
  pub settings : Settings
  pub gcm : Aead
  pub keyring : Keyring
  pub id_text : Uuid → Text
  pub lower : Text → Text
  pub select : Bytes → Text → Outcome ContextInfo
  pub probe : RestConfig → HealthUpdate
  pub running_in_cluster : Bool
  pub error_text : ServiceError → Text

pub record CreateInput : Type 0 where
  pub name : Text
  pub environment : Text
  pub environment_label : Text
  pub color : Text
  pub kubeconfig : Bytes
  pub context_name : Text
  pub proxy_url : Option Text
  pub created_by : Uuid

abbrev pub sealed_or : Crypto.Result Bytes → Flow ServiceError Bytes
sealed_or (Crypto.ok blob) = go blob
sealed_or (Crypto.err e) = stop (cipher e)

abbrev selected_or : Outcome ContextInfo → Flow ServiceError ContextInfo
selected_or (Kubeconfig.ok info) = go info
selected_or (Kubeconfig.err e) = stop (kubeconfig e)

abbrev lift : {A : Type 0} → Flow ServiceError A → Call ServiceError A
lift r db = (r, db)

-- A missing row of credentials is the error of its own.
abbrev pub credential_error : Error → ServiceError
credential_error Error.not_found = no_credential
credential_error other = store other

abbrev pub with_proxy : Option Text → ConnectionOptions → ConnectionOptions
with_proxy none o = o
with_proxy (some url) o = record o { proxy_url = url }

module _ (svc : Service) where
  unfoldable pub connection_options : Text → ℕ → ConnectionOptions
  connection_options context_name qps = record {
    context_name = context_name;
    qps = if ltb 0 qps then qps else svc.settings.default_qps;
    burst = if ltb 0 qps then qps * 2 else svc.settings.default_burst;
    proxy_url = svc.settings.proxy_url;
  }

  -- The stored credential, opened for this cluster.
  unfoldable pub stored_config : Cluster → Call ServiceError RestConfig
  unfolding connection_options
  stored_config c = do
    stored ← run credential_error (credential c.id)
    raw ← lift (sealed_or (open_blob svc.gcm svc.keyring stored.1 (svc.id_text c.id)))
    pure (from_kubeconfig raw (with_proxy c.proxy_url (connection_options stored.0 c.qps_limit)))

  unfoldable pub rest_config_for : Cluster → Call ServiceError RestConfig
  unfolding stored_config text_eq
  rest_config_for c =
      if text_eq c.auth_source (codes "in-cluster")
      then (if not svc.settings.allow_in_cluster || not svc.running_in_cluster
          then leave in_cluster_disabled
          else pure (in_cluster (connection_options [] c.qps_limit)))
      else stored_config c

  abbrev unreachable : Text → HealthUpdate
  unreachable detail = record {
    credential_status = codes "unreachable";
    status_detail = detail;
    k8s_version = [];
    node_count = none;
    metrics_available = false;
  }

  abbrev health_of : Flow ServiceError RestConfig → HealthUpdate
  health_of (go config) = svc.probe config
  health_of (stop e) = unreachable (svc.error_text e)

  unfoldable pub refresh_health : Cluster → Time → Call ServiceError (Unit {0})
  unfolding rest_config_for
  refresh_health c now db =
      let (config, db') = rest_config_for c db in
      attempt (record_health c.id (health_of config) now) db'

  unfoldable pub refresh : Cluster → Time → Call ServiceError Cluster
  unfolding refresh_health
  refresh c now = do refresh_health c now; run store (by_id c.id)

  unfoldable pub create : CreateInput → Uuid → Randomness → Time → Call ServiceError Cluster
  unfolding refresh trim_space
  create input cluster_id r now = do
    selected ← lift (selected_or (svc.select input.kubeconfig input.context_name))
    sealed ← lift (sealed_or (seal svc.gcm svc.keyring r input.kubeconfig (svc.id_text cluster_id)))
    created ← run store (
        create_with_id svc.lower cluster_id
          (record {
            name = trim_space input.name;
            environment = input.environment;
            environment_label = input.environment_label;
            color = input.color;
            auth_source = codes "kubeconfig";
            api_server_url = selected.server;
            insecure_skip_tls_verify = selected.insecure_skip_tls_verify;
            proxy_url = input.proxy_url;
            context_name = selected.name;
            kubeconfig_enc = sealed;
            created_by = input.created_by;
          })
          now)
    refresh created now

  unfoldable pub replace : Uuid → Bytes → Text → Randomness → Time → Call ServiceError (Unit {0})
  unfolding refresh_health
  replace cluster_id raw context_name r now = do
    selected ← lift (selected_or (svc.select raw context_name))
    sealed ← lift (sealed_or (seal svc.gcm svc.keyring r raw (svc.id_text cluster_id)))
    run store (
        replace_credential cluster_id selected.name sealed selected.server
          selected.insecure_skip_tls_verify now)
    c ← run store (by_id cluster_id)
    refresh_health c now

  abbrev pub metrics_aad : Uuid → Bytes
  metrics_aad id = codes "cluster:" ++ (svc.id_text id ++ codes ":metrics-password")

  abbrev pub logs_aad : Uuid → Bytes
  logs_aad id = codes "cluster:" ++ (svc.id_text id ++ codes ":logs-secret")

  abbrev seal_secret : Randomness → Bytes → Bytes → Flow ServiceError (Option Bytes)
  seal_secret r aad [] = go none
  seal_secret r aad (b ∷ bs) = elim (sealed_or (seal svc.gcm svc.keyring r (b ∷ bs) aad)) [
    | go blob ↦ go (some blob)
    | stop e ↦ stop e
  ]

  unfoldable pub seal_metrics_password :
      Uuid → Bytes → Randomness → Flow ServiceError (Option Bytes)
  seal_metrics_password id password r = seal_secret r (metrics_aad id) password

  unfoldable pub seal_logs_secret : Uuid → Bytes → Randomness → Flow ServiceError (Option Bytes)
  seal_logs_secret id secret r = seal_secret r (logs_aad id) secret

  -- NULL and the empty value stand for no secret.
  abbrev opened_secret : Bytes → Option Bytes → Flow ServiceError Bytes
  opened_secret aad none = go []
  opened_secret aad (some []) = go []
  opened_secret aad (some (b ∷ bs)) = sealed_or (open_blob svc.gcm svc.keyring (b ∷ bs) aad)

  unfoldable pub metrics_password_for : Cluster → Call ServiceError Bytes
  metrics_password_for c = if is_empty c.metrics_username then pure [] else do
    sealed ← run store (metrics_password c.id)
    lift (opened_secret (metrics_aad c.id) sealed)

  unfoldable pub logs_secret_for : Cluster → Call ServiceError Bytes
  logs_secret_for c = do
    sealed ← run store (logs_secret c.id)
    lift (opened_secret (logs_aad c.id) sealed)
