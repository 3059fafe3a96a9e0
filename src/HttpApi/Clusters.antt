-- ===== src/HttpApi/Clusters.antt =====
-- server/internal/httpapi/cluster_handlers.go: who reaches a registered cluster, and its grants. What
-- changes clusters is in HttpApi/Clusters/Changes, and the proofs in HttpApi/Clusters/Reach.
--
-- A request is what decoding yields: the UUID of the URL (none where it does not parse), the caller
-- and the fields of the body. A refusal is its status with its message. The audit records, the caches
-- that a change releases, the log sweeper's view and the probe of a log source decide no reply here and
-- are left out; so is the copying of a cluster's fields into the JSON of a reply.
pub mod Changes
pub mod Reach
use kubby.Prelude.{
  ℕ, String, Bool, true, false, ◌&&◌, ◌||◌, not, Option, none, some, List, [], ◌∷◌, if◌then◌else◌,
  any, Text, text_eq, is_empty,
}
use kubby.Rbac.{cluster_manage, can}
use kubby.Crypto.{Randomness}
use kubby.Store.Models.{User, Uuid, Time, Bytes}
use kubby.Store.Registry.{Cluster, access_read, access_write}
use kubby.Store.Db.{Error, not_found, cluster_name_in_use}
use kubby.Cluster.Kubeconfig.{
  exec_plugin_used, blocked_address, no_contexts, unknown_context, invalid_kubeconfig,
}
use kubby.Store.Flow.{Flow, go, stop, Call, pure, leave, ◌>>=◌, ◌>>◌, run, under, refuse_if, when}
use kubby.Store.Clusters.{
  Grant, environments, by_id, list, list_for_user, access_level, set_grant, remove_grant,
}
use kubby.Store.Clusters.Settings.{
  list_grants, ClusterSettings, update_settings, delete, set_metrics_password, set_logs_secret,
}
use kubby.Cluster.Service.{
  ServiceError, kubeconfig, store, Settings, Service, CreateInput, refresh, create, replace,
  seal_metrics_password, seal_logs_secret,
}

pub data Reply : Type 0 where
  cluster_shown : Cluster → Text → Reply
  cluster_made : Cluster → Reply
  clusters_shown : List (Cluster × Text) → Reply
  grants_shown : List Grant → Reply
  no_content : Reply
  refused : ℕ → String → Reply
  unprocessable : Text → Reply

abbrev pub Handler : Type 0 → Type 0
Handler A = Call Reply A

abbrev pub missing : Reply
missing = refused 404 "cluster not found"

abbrev pub is_manager : User → Bool
is_manager u = can u.role cluster_manage

abbrev pub load_error : Error → Reply
load_error Error.not_found = missing
load_error other = refused 500 "could not load the cluster"

abbrev pub parsed_id : Option Uuid → Handler Uuid
parsed_id none = leave (refused 400 "invalid identifier")
parsed_id (some id) = pure id

-- The part of `resolve` for those who do not manage clusters.
unfoldable pub granted_level : User → Cluster → Text → Handler Text
unfolding text_eq
granted_level user c needed = do
  level ← run (λ e. refused 500 "could not check cluster access") (access_level user.id c.id)
  refuse_if (is_empty level) missing
  refuse_if (text_eq needed access_write && not (text_eq level access_write))
      (refused 403 "you have read-only access to this cluster")
  pure level

unfoldable pub level_for : User → Cluster → Text → Handler Text
unfolding granted_level
level_for user c needed = if is_manager user then pure access_write else granted_level user c needed

-- The cluster and the level.
unfoldable pub resolve : User → Option Uuid → Text → Handler (Cluster × Text)
unfolding level_for
resolve user param needed = do
  id ← parsed_id param
  c ← run load_error (by_id id)
  level ← level_for user c needed
  pure (c, level)

unfoldable pub get : User → Option Uuid → Handler Reply
unfolding resolve
get user param = do found ← resolve user param access_read; pure (cluster_shown found.0 found.1)

abbrev pub level_shown : Flow Reply Text → Text
level_shown (go level) = level
level_shown (stop e) = []

unfoldable pub level_of_cluster : User → Cluster → Handler Text
level_of_cluster user c =
    if is_manager user then pure access_write else run (λ e. no_content) (access_level user.id c.id)

-- The loop over the clusters; an error of a level is ignored.
unfoldable pub with_levels : User → List Cluster → Handler (List (Cluster × Text))
unfolding level_of_cluster
with_levels user [] db = (go [], db)
with_levels user (c ∷ cs) db =
    let (level, db') = level_of_cluster user c db in
    let (rest, db'') = with_levels user cs db' in
    elim rest [ go shown ↦ (go ((c, level_shown level) ∷ shown), db'') | stop e ↦ (stop e, db'') ]

module _ (collates : Text → Text → Bool) where
  unfoldable pub list_clusters : User → Handler Reply
  unfolding with_levels
  list_clusters user = do
    cs ←
        run (λ e. refused 500 "could not list clusters")
          (if is_manager user then list collates else list_for_user collates user.id)
    shown ← with_levels user cs
    pure (clusters_shown shown)

  unfoldable pub list_of_grants : User → Option Uuid → Handler Reply
  unfolding resolve
  list_of_grants user param = do
    found ← resolve user param access_write
    grants ←
        run (λ e. refused 500 "could not list cluster access") (list_grants collates found.0.id)
    pure (grants_shown grants)

  -- An empty level takes the grant away.
  unfoldable pub change_grant : User → Cluster → Uuid → Text → Handler (Unit {0})
  unfolding text_eq
  change_grant actor c target level =
      if is_empty level
      then run (λ e. refused 500 "could not remove access") (remove_grant target c.id)
      else do
        refuse_if (not (text_eq level access_read) && not (text_eq level access_write))
            (refused 422 "access level must be read or write")
        run (λ e. refused 500 "could not grant access") (set_grant target c.id actor.id level)

  abbrev parsed_target : Option Uuid → Handler Uuid
  parsed_target none = leave (refused 400 "invalid user identifier")
  parsed_target (some id) = pure id

  -- What `setGrant` does behind `resolve`.
  unfoldable pub put_grant_on :
      User → Option Uuid → Option Uuid → Text → Cluster × Text → Handler Reply
  unfolding change_grant list_of_grants
  put_grant_on actor param target level found = do
    target_id ← parsed_target target
    change_grant actor found.0 target_id level
    list_of_grants actor param

  unfoldable pub put_grant : User → Option Uuid → Option Uuid → Text → Handler Reply
  unfolding resolve put_grant_on
  put_grant actor param target level =
      resolve actor param access_write >>= put_grant_on actor param target level
