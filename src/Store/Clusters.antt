-- ===== src/Store/Clusters.antt =====
-- server/internal/store/clusters.go: the repository `ClusterRepo`. The proofs are in
-- Store/Clusters/Access and Store/Clusters/Registration.
--
-- `lower` is PostgreSQL's lower(), whose index makes names unique; `now` is the statement's now(). A
-- CHECK or a foreign key that is not met is a driver error (server/migrations/00004_clusters.sql).
pub mod Settings
pub mod Access
pub mod Registration
use kubby.Prelude.{
  ℕ, zero, suc, Bool, true, false, ◌&&◌, ◌||◌, not, Option, none, some, List, [], ◌∷◌, ◌++◌, ◌==◌,
  if◌then◌else◌, any, codes, Text, text_eq, trim_space, sort_by,
}
use kubby.Store.Models.{User, Uuid, Time, Bytes}
use kubby.Store.Registry.{
  Cluster, credential_unknown, access_read, access_write, CredentialRow, GrantRow,
}
use kubby.Store.Db.{
  cluster_name_in_use, database, ok, err, Db, Query, pure, ◌>>=◌, ◌>>◌, statement, transaction,
  find, update_where, delete_where, count_where, or_not_found,
}

abbrev pub is_cluster : Uuid → Cluster → Bool
is_cluster id c = c.id == id

abbrev is_user : Uuid → User → Bool
is_user id u = u.id == id

abbrev pub of_cluster : Uuid → CredentialRow → Bool
of_cluster id k = k.cluster_id == id

abbrev pub is_grant : Uuid → Uuid → GrantRow → Bool
is_grant user_id cluster_id g = g.user_id == user_id && g.cluster_id == cluster_id

pub record NewCluster : Type 0 where
  pub name : Text
  pub environment : Text
  pub environment_label : Text
  pub color : Text
  pub auth_source : Text
  pub api_server_url : Text
  pub insecure_skip_tls_verify : Bool
  pub proxy_url : Option Text
  pub context_name : Text
  pub kubeconfig_enc : Bytes
  pub created_by : Uuid

-- The zero UUID stands for no creator.
abbrev pub creator : Uuid → Option Uuid
creator zero = none
creator (suc n) = some (suc n)

-- A cluster as an INSERT makes it, with the column defaults.
abbrev pub cluster_row : Uuid → NewCluster → Time → Cluster
cluster_row id n now = record {
  id = id;
  name = trim_space n.name;
  environment = n.environment;
  environment_label = n.environment_label;
  color = n.color;
  auth_source = n.auth_source;
  api_server_url = n.api_server_url;
  insecure_skip_tls_verify = n.insecure_skip_tls_verify;
  proxy_url = n.proxy_url;
  credential_status = credential_unknown;
  status_detail = [];
  k8s_version = [];
  node_count = none;
  metrics_available = false;
  last_validated_at = none;
  impersonation_enabled = false;
  qps_limit = 50;
  read_only = false;
  metrics_url = [];
  metrics_username = [];
  metrics_insecure_skip_verify = false;
  logs_url = [];
  logs_index = [];
  logs_auth_scheme = [];
  logs_username = [];
  logs_insecure_skip_verify = false;
  created_by = creator n.created_by;
  created_at = now;
  updated_at = now;
}

-- The words of the CHECK on `environment`.
abbrev pub environments : List Text
environments = codes "prod" ∷ codes "preprod" ∷ codes "test" ∷ codes "dr" ∷ []

abbrev valid_row : NewCluster → Bool
valid_row n =
    any (text_eq n.environment) environments
    && (text_eq n.auth_source (codes "kubeconfig") || text_eq n.auth_source (codes "in-cluster"))

-- A foreign key to `users` that may be NULL.
abbrev pub refers : Option Uuid → List User → Bool
refers none users = true
refers (some id) users = any (is_user id) users

abbrev pub credential_row : Uuid → Text → Bytes → CredentialRow
credential_row id context_name enc = record {
  cluster_id = id;
  context_name = context_name;
  kubeconfig_enc = enc;
  metrics_password_enc = none;
  logs_secret_enc = none;
}

-- The second statement of `CreateWithID`, where there is something to store.
unfoldable pub insert_credential : Bytes → Text → Cluster → Query Cluster
insert_credential [] context_name c = pure c
insert_credential (b ∷ enc) context_name c = statement (λ db.
    if any (of_cluster c.id) db.credentials then (err database, db) else (
      ok c,
      record db {
        credentials = db.credentials ++ (credential_row c.id context_name (b ∷ enc) ∷ []);
      },
    ))

module _ (lower : Text → Text) where
  -- Two rows with this key clash in the unique index.
  abbrev pub same_name : Text → Cluster → Bool
  same_name name c = text_eq (lower c.name) (lower name)

  -- Every unique violation is read as a name in use, that of the primary key as well.
  unfoldable pub insert_cluster : Uuid → NewCluster → Time → Query Cluster
  unfolding text_eq trim_space
  insert_cluster id n now = statement (λ db.
      let c = cluster_row id n now in
      if not (valid_row n)
      then (err database, db)
      else if any (is_cluster id) db.clusters || any (same_name c.name) db.clusters
      then (err cluster_name_in_use, db)
      else if not (refers c.created_by db.users)
      then (err database, db)
      else (ok c, record db { clusters = db.clusters ++ (c ∷ []) }))

  unfoldable pub create_with_id : Uuid → NewCluster → Time → Query Cluster
  unfolding insert_cluster insert_credential
  create_with_id id n now =
      transaction
        do c ← insert_cluster id n now; insert_credential n.kubeconfig_enc n.context_name c

unfoldable pub by_id : Uuid → Query Cluster
by_id id = statement (λ db. (or_not_found (find (is_cluster id) db.clusters), db))

unfoldable pub repeated : ℕ → Cluster → List Cluster → List Cluster
repeated zero c cs = cs
repeated (suc n) c cs = c ∷ repeated n c cs

-- JOIN user_cluster_grants: a cluster once for each of the user's grants to it.
unfoldable pub joined : Uuid → List GrantRow → List Cluster → List Cluster
unfolding repeated
joined user_id grants [] = []
joined user_id grants (c ∷ cs) =
    repeated (count_where (is_grant user_id c.id) grants) c (joined user_id grants cs)

-- `collates` is the order of the database's collation.
module _ (collates : Text → Text → Bool) where
  unfoldable pub list : Query (List Cluster)
  list = statement (λ db. (ok (sort_by (λ a b. collates a.name b.name) db.clusters), db))

  unfoldable pub list_for_user : Uuid → Query (List Cluster)
  unfolding joined
  list_for_user user_id = statement (λ db.
      (ok (sort_by (λ a b. collates a.name b.name) (joined user_id db.grants db.clusters)), db))

-- Empty where nothing is granted.
abbrev pub level_of : Option GrantRow → Text
level_of none = []
level_of (some g) = g.access_level

unfoldable pub access_level : Uuid → Uuid → Query Text
access_level user_id cluster_id =
    statement (λ db. (ok (level_of (find (is_grant user_id cluster_id) db.grants)), db))

abbrev pub grant_row : Uuid → Uuid → Uuid → Text → GrantRow
grant_row user_id cluster_id granted_by level = record {
  user_id = user_id;
  cluster_id = cluster_id;
  access_level = level;
  granted_by = some granted_by;
}

abbrev pub regrant : Uuid → Text → GrantRow → GrantRow
regrant granted_by level g = record g { access_level = level; granted_by = some granted_by }

-- The CHECK and the foreign keys of a grant.
abbrev pub valid_grant : Uuid → Uuid → Uuid → Text → Db → Bool
valid_grant user_id cluster_id granted_by level db =
    (text_eq level access_read || text_eq level access_write)
    && any (is_user user_id) db.users
    && any (is_cluster cluster_id) db.clusters
    && any (is_user granted_by) db.users

-- INSERT … ON CONFLICT … DO UPDATE
unfoldable pub set_grant : Uuid → Uuid → Uuid → Text → Query (Unit {0})
unfolding text_eq
set_grant user_id cluster_id granted_by level = statement (λ db.
    if not (valid_grant user_id cluster_id granted_by level db)
    then (err database, db)
    else if any (is_grant user_id cluster_id) db.grants
    then (
      ok tt,
      record db {
        grants = update_where (is_grant user_id cluster_id) (regrant granted_by level) db.grants;
      },
    )
    else (
      ok tt,
      record db { grants = db.grants ++ (grant_row user_id cluster_id granted_by level ∷ []) },
    ))

unfoldable pub remove_grant : Uuid → Uuid → Query (Unit {0})
remove_grant user_id cluster_id =
    statement
      (λ db. (ok tt, record db { grants = delete_where (is_grant user_id cluster_id) db.grants }))

pub record Grant : Type 0 where
  pub user_id : Uuid
  pub email : Text
  pub display_name : Text
  pub access_level : Text
