-- ===== src/Tests/Registry.antt =====
-- Registered clusters and the handlers over them at concrete inputs.
use kubby.Prelude.{◌≡◌, refl, ◌⊎◌, true, false, Option, none, some, [], ◌∷◌, codes, Text}
use kubby.Crypto.Envelope.{sealed}
use kubby.Store.Models.{Bytes}
use kubby.Store.Registry.{Cluster, credential_valid, access_read, access_write}
use kubby.Store.Db.{Db, find, settled}
use kubby.Store.Clusters.{
  is_cluster, NewCluster, cluster_row, by_id, access_level, grant_row, set_grant,
}
use kubby.Store.Clusters.Settings.{ClusterSettings}
use kubby.Store.Clusters.Access.{levels, assign, levels-set_grant}
use kubby.Cluster.Service.{Service}
use kubby.HttpApi.Clusters.{is_manager, resolve}
use kubby.HttpApi.Clusters.Changes.{UpdateRequest}
use kubby.HttpApi.Clusters.Reach.{suffices, resolve_sound}
use kubby.Rbac.{can}
use kubby.Tests.Pasting.{pasted, pick}
use kubby.Tests.Data.{guest, db, gcm, randomness}
use kubby.Tests.Sealing.{ring, ring-CanSeal}

abbrev pub staging : NewCluster
staging = record {
  name = codes "staging";
  environment = codes "test";
  environment_label = [];
  color = [];
  auth_source = codes "kubeconfig";
  api_server_url = codes "https://k8s";
  insecure_skip_tls_verify = false;
  proxy_url = none;
  context_name = codes "main";
  kubeconfig_enc = 1 ∷ 2 ∷ [];
  created_by = 1;
}

abbrev same_text : Text → Text
same_text s = s

abbrev registered : Db
registered = record db {
  clusters = cluster_row 30 staging 5 ∷ [];
  grants = grant_row 2 30 1 access_read ∷ [];
}

abbrev renaming : ClusterSettings
renaming = record {
  name = some (codes "production");
  environment = none;
  environment_label = none;
  color = none;
  read_only = some true;
  impersonation_enabled = none;
  qps_limit = none;
  proxy_url = none;
  metrics_url = none;
  metrics_username = none;
  metrics_insecure_skip_verify = none;
  logs_url = none;
  logs_index = none;
  logs_auth_scheme = none;
  logs_username = none;
  logs_insecure_skip_verify = none;
}

abbrev nothing : Option Bytes
nothing = none

levels-set_grant_example :
    levels ((set_grant 2 30 1 access_write registered).1) 2 30
    ≡ settled
        ((set_grant 2 30 1 access_write registered).0)
        (assign 2 30 access_write (levels registered) 2 30)
        access_read
levels-set_grant_example = levels-set_grant 2 30 1 access_write registered 2 30

resolve_sound_example :
    (find (is_cluster 30) registered.clusters ≡ some (cluster_row 30 staging 5))
    × (((is_manager guest ≡ true) × (access_read ≡ access_write))
        ⊎ ((is_manager guest ≡ false)
            × (access_read ≡ levels registered 2 30)
            × (suffices access_read access_read ≡ true)))
unfolding resolve can by_id access_level
resolve_sound_example =
    resolve_sound guest 30 access_read registered {c = cluster_row 30 staging 5}
      {level = access_read} refl

abbrev service : Service
service = record {
  settings = record {
    default_qps = 50;
    default_burst = 100;
    proxy_url = [];
    allow_in_cluster = false;
  };
  gcm = gcm;
  keyring = ring 3;
  id_text = λ id. id ∷ [];
  lower = same_text;
  select = pick;
  probe = λ config. record {
    credential_status = credential_valid;
    status_detail = [];
    k8s_version = codes "v1.30";
    node_count = some 3;
    metrics_available = true;
  };
  running_in_cluster = false;
  error_text = λ e. [];
}

abbrev blob : Bytes
blob = sealed gcm (ring 3) randomness pasted (30 ∷ []) ring-CanSeal

abbrev sealed_staging : NewCluster
sealed_staging = record staging { kubeconfig_enc = blob }

abbrev staged : Cluster
staged = cluster_row 30 sealed_staging 5

abbrev change : UpdateRequest
change = record {
  settings = renaming;
  metrics_password = [];
  clear_metrics_password = false;
  logs_secret = [];
  clear_logs_secret = false;
}
