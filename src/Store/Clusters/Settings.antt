-- ===== src/Store/Clusters/Settings.antt =====
-- server/internal/store/clusters.go: what changes a registered cluster, its credential and the secrets
-- stored beside it.
use kubby.Prelude.{
  ℕ, Bool, false, ◌&&◌, not, Option, none, some, List, [], ◌∷◌, ◌++◌, ◌==◌, if◌then◌else◌, is_some,
  any, Text, text_eq, sort_by,
}
use kubby.Store.Models.{User, Uuid, Time, Bytes}
use kubby.Store.Registry.{
  Cluster, credential_valid, credential_invalid, credential_unreachable, credential_unknown,
  CredentialRow, GrantRow,
}
use kubby.Store.Db.{
  not_found, cluster_name_in_use, database, ok, err, Query, ◌>>◌, statement, transaction, find,
  update_where, delete_where, select, count_where, affected,
}
use kubby.Store.Clusters.{is_cluster, of_cluster, environments, credential_row, same_name, Grant}

-- The rows of one grant's user, in `ListGrants`.
unfoldable pub grants_with_users : List User → List GrantRow → List Grant
grants_with_users users [] = []
grants_with_users users (g ∷ gs) =
    let rest = grants_with_users users gs in
    elim (find (λ u. u.id == g.user_id) users) [
      | none ↦ rest
      | some u ↦
          (record {
            user_id = u.id;
            email = u.email;
            display_name = u.display_name;
            access_level = g.access_level;
          }
            ∷ rest)
    ]

unfoldable pub list_grants : (Text → Text → Bool) → Uuid → Query (List Grant)
unfolding grants_with_users
list_grants collates cluster_id = statement (λ db. (
  ok (
      sort_by (λ a b. collates a.email b.email)
        (grants_with_users db.users (select (λ g. g.cluster_id == cluster_id) db.grants))),
  db,
))

abbrev context_and_key : CredentialRow → Text × Bytes
context_and_key k = (k.context_name, k.kubeconfig_enc)

unfoldable pub credential : Uuid → Query (Text × Bytes)
credential cluster_id = statement (λ db. (
  elim (find (of_cluster cluster_id) db.credentials) [
    | none ↦ err not_found
    | some k ↦ ok (context_and_key k)
  ],
  db,
))

abbrev pub rotated : Text → Bytes → CredentialRow → CredentialRow
rotated context_name enc k = record k { context_name = context_name; kubeconfig_enc = enc }

unfoldable pub upsert_credential : Uuid → Text → Bytes → Query (Unit {0})
upsert_credential cluster_id context_name enc = statement (λ db.
    if any (of_cluster cluster_id) db.credentials
    then (
      ok tt,
      record db {
        credentials =
            update_where (of_cluster cluster_id) (rotated context_name enc) db.credentials;
      },
    )
    else if not (any (is_cluster cluster_id) db.clusters)
    then (err database, db)
    else (
      ok tt,
      record db {
        credentials = db.credentials ++ (credential_row cluster_id context_name enc ∷ []);
      },
    ))

-- UPDATE clusters SET … WHERE id = $1
abbrev pub update_cluster : Uuid → (Cluster → Cluster) → Query (Unit {0})
update_cluster id f =
    statement (λ db. (ok tt, record db { clusters = update_where (is_cluster id) f db.clusters }))

abbrev pub reset_status : Text → Bool → Time → Cluster → Cluster
reset_status api_server_url insecure now c = record c {
  api_server_url = api_server_url;
  insecure_skip_tls_verify = insecure;
  credential_status = credential_unknown;
  status_detail = [];
  updated_at = now;
}

unfoldable pub replace_credential : Uuid → Text → Bytes → Text → Bool → Time → Query (Unit {0})
unfolding upsert_credential
replace_credential cluster_id context_name enc api_server_url insecure now = transaction do
  upsert_credential cluster_id context_name enc
  update_cluster cluster_id (reset_status api_server_url insecure now)

pub record HealthUpdate : Type 0 where
  pub credential_status : Text
  pub status_detail : Text
  pub k8s_version : Text
  pub node_count : Option ℕ
  pub metrics_available : Bool

abbrev probed : HealthUpdate → Time → Cluster → Cluster
probed h now c = record c {
  credential_status = h.credential_status;
  status_detail = h.status_detail;
  k8s_version = h.k8s_version;
  node_count = h.node_count;
  metrics_available = h.metrics_available;
  last_validated_at = some now;
  updated_at = now;
}

abbrev valid_status : Text → Bool
valid_status s =
    any (text_eq s)
      (credential_valid ∷ credential_invalid ∷ credential_unreachable ∷ credential_unknown ∷ [])

unfoldable pub record_health : Uuid → HealthUpdate → Time → Query (Unit {0})
unfolding text_eq
record_health id h now = statement (λ db.
    if any (is_cluster id) db.clusters && not (valid_status h.credential_status)
    then (err database, db)
    else (ok tt, record db { clusters = update_where (is_cluster id) (probed h now) db.clusters }))

pub record ClusterSettings : Type 0 where
  pub name : Option Text
  pub environment : Option Text
  pub environment_label : Option Text
  pub color : Option Text
  pub read_only : Option Bool
  pub impersonation_enabled : Option Bool
  pub qps_limit : Option ℕ
  pub proxy_url : Option Text
  pub metrics_url : Option Text
  pub metrics_username : Option Text
  pub metrics_insecure_skip_verify : Option Bool
  pub logs_url : Option Text
  pub logs_index : Option Text
  pub logs_auth_scheme : Option Text
  pub logs_username : Option Text
  pub logs_insecure_skip_verify : Option Bool

-- COALESCE($n, column)
abbrev pub coalesce {ℓ} : {A : Type ℓ} → Option A → A → A
coalesce none old = old
coalesce (some new) old = new

unfoldable pub with_settings : ClusterSettings → Time → Cluster → Cluster
with_settings s now c = record c {
  name = coalesce s.name c.name;
  environment = coalesce s.environment c.environment;
  environment_label = coalesce s.environment_label c.environment_label;
  color = coalesce s.color c.color;
  read_only = coalesce s.read_only c.read_only;
  impersonation_enabled = coalesce s.impersonation_enabled c.impersonation_enabled;
  qps_limit = coalesce s.qps_limit c.qps_limit;
  proxy_url = if is_some s.proxy_url then s.proxy_url else c.proxy_url;
  metrics_url = coalesce s.metrics_url c.metrics_url;
  metrics_username = coalesce s.metrics_username c.metrics_username;
  metrics_insecure_skip_verify =
      coalesce s.metrics_insecure_skip_verify c.metrics_insecure_skip_verify;
  logs_url = coalesce s.logs_url c.logs_url;
  logs_index = coalesce s.logs_index c.logs_index;
  logs_auth_scheme = coalesce s.logs_auth_scheme c.logs_auth_scheme;
  logs_username = coalesce s.logs_username c.logs_username;
  logs_insecure_skip_verify = coalesce s.logs_insecure_skip_verify c.logs_insecure_skip_verify;
  updated_at = now;
}

-- The CHECK on `environment` and the unique index, for the row as it would be.
abbrev pub breaks_check : Option Text → Bool
breaks_check none = false
breaks_check (some e) = not (any (text_eq e) environments)

abbrev pub takes_name : (Text → Text) → Uuid → Option Text → List Cluster → Bool
takes_name lower id none cs = false
takes_name lower id (some name) cs = any (λ c. same_name lower name c && not (c.id == id)) cs

unfoldable pub update_settings : (Text → Text) → Uuid → ClusterSettings → Time → Query (Unit {0})
unfolding with_settings text_eq
update_settings lower id s now = statement (λ db.
    if any (is_cluster id) db.clusters && breaks_check s.environment
    then (err database, db)
    else if any (is_cluster id) db.clusters && takes_name lower id s.name db.clusters
    then (err cluster_name_in_use, db)
    else (
      ok tt,
      record db { clusters = update_where (is_cluster id) (with_settings s now) db.clusters },
    ))

-- ON DELETE CASCADE takes the credential and the grants along.
unfoldable pub delete : Uuid → Query (Unit {0})
delete id = statement (λ db. (
  affected (count_where (is_cluster id) db.clusters),
  record db {
    clusters = delete_where (is_cluster id) db.clusters;
    credentials = delete_where (of_cluster id) db.credentials;
    grants = delete_where (λ g. g.cluster_id == id) db.grants;
  },
))

-- A column of a credential, NULL where there is no row.
abbrev pub column : (CredentialRow → Option Bytes) → Option CredentialRow → Option Bytes
column f none = none
column f (some k) = f k

unfoldable pub metrics_password : Uuid → Query (Option Bytes)
metrics_password cluster_id = statement (λ db.
    (ok (column (λ k. k.metrics_password_enc) (find (of_cluster cluster_id) db.credentials)), db))

unfoldable pub set_metrics_password : Uuid → Option Bytes → Query (Unit {0})
set_metrics_password cluster_id enc = statement (λ db. (
  ok tt,
  record db {
    credentials =
        update_where (of_cluster cluster_id) (λ k. record k { metrics_password_enc = enc })
          db.credentials;
  },
))

unfoldable pub logs_secret : Uuid → Query (Option Bytes)
logs_secret cluster_id =
    statement (λ db.
      (ok (column (λ k. k.logs_secret_enc) (find (of_cluster cluster_id) db.credentials)), db))

unfoldable pub set_logs_secret : Uuid → Option Bytes → Query (Unit {0})
set_logs_secret cluster_id enc = statement (λ db. (
  ok tt,
  record db {
    credentials =
        update_where (of_cluster cluster_id) (λ k. record k { logs_secret_enc = enc })
          db.credentials;
  },
))
