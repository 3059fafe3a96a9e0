-- ===== src/HttpApi/Clusters/Changes.antt =====
-- server/internal/httpapi/cluster_handlers.go: registering a cluster, changing it and taking it away.
use kubby.Prelude.{
  String, Bool, true, false, ◌||◌, not, Option, none, some, any, Text, text_eq, is_empty,
}
use kubby.Crypto.{Randomness}
use kubby.Store.Models.{User, Uuid, Time, Bytes}
use kubby.Store.Registry.{Cluster, access_read, access_write}
use kubby.Store.Db.{Error}
use kubby.Cluster.Kubeconfig.{
  exec_plugin_used, blocked_address, no_contexts, unknown_context, invalid_kubeconfig,
}
use kubby.Store.Flow.{Flow, go, stop, pure, leave, ◌>>=◌, ◌>>◌, run, under, refuse_if, when}
use kubby.Store.Clusters.{environments, by_id}
use kubby.Store.Clusters.Settings.{
  ClusterSettings, update_settings, delete, set_metrics_password, set_logs_secret,
}
use kubby.Cluster.Service.{
  ServiceError, kubeconfig, store, Service, CreateInput, refresh, create, replace,
  seal_metrics_password, seal_logs_secret,
}
use kubby.HttpApi.Clusters.{
  Reply, cluster_shown, cluster_made, no_content, refused, unprocessable, Handler, resolve,
}

unfoldable pub valid_environment : Text → Bool
unfolding text_eq
valid_environment env = any (text_eq env) environments

abbrev pub kubeconfig_reply : ServiceError → Reply
kubeconfig_reply (kubeconfig (exec_plugin_used t)) = unprocessable t
kubeconfig_reply (kubeconfig (blocked_address t)) = unprocessable t
kubeconfig_reply (kubeconfig (no_contexts t)) = unprocessable t
kubeconfig_reply (kubeconfig (unknown_context t)) = unprocessable t
kubeconfig_reply (kubeconfig (invalid_kubeconfig t)) = unprocessable t
kubeconfig_reply _ = refused 500 "could not process the kubeconfig"

abbrev pub name_in_use : Reply
name_in_use = refused 409 "a cluster with that name already exists"

abbrev create_reply : ServiceError → Reply
create_reply (store Error.cluster_name_in_use) = name_in_use
create_reply other = kubeconfig_reply other

abbrev settings_reply : Error → Reply
settings_reply Error.cluster_name_in_use = name_in_use
settings_reply other = refused 500 "could not update the cluster"

abbrev pub bad_environment : Reply
bad_environment = refused 422 "environment must be prod, preprod, test or dr"

abbrev breaks_environment : Option Text → Bool
breaks_environment none = false
breaks_environment (some env) = not (valid_environment env)

pub record UpdateRequest : Type 0 where
  pub settings : ClusterSettings
  pub metrics_password : Bytes
  pub clear_metrics_password : Bool
  pub logs_secret : Bytes
  pub clear_logs_secret : Bool

-- What is stored for a secret: none to clear it, and otherwise what sealing it yields.
abbrev sealed_value : Bool → Flow ServiceError (Option Bytes) → String → Handler (Option Bytes)
sealed_value true sealed message = pure none
sealed_value false (go sealed) message = pure sealed
sealed_value false (stop e) message = leave (refused 500 message)

module _ (svc : Service) where
  unfoldable pub create_cluster : User → CreateInput → Uuid → Randomness → Time → Handler Reply
  unfolding create valid_environment
  create_cluster actor input id r now = do
    refuse_if (not (valid_environment input.environment)) bad_environment
    c ← under create_reply (create svc (record input { created_by = actor.id }) id r now)
    pure (cluster_made c)

  unfoldable pub put_credential_on :
      Bytes → Text → Randomness → Time → Cluster × Text → Handler Reply
  unfolding replace
  put_credential_on raw context_name r now found = do
    under kubeconfig_reply (replace svc found.0.id raw context_name r now)
    c ←
        run (λ e. refused 500 "credential replaced but the cluster could not be reloaded")
          (by_id found.0.id)
    pure (cluster_shown c access_write)

  unfoldable pub put_credential :
      User → Option Uuid → Bytes → Text → Randomness → Time → Handler Reply
  unfolding resolve put_credential_on
  put_credential actor param raw context_name r now =
      resolve actor param access_write >>= put_credential_on raw context_name r now

  abbrev store_secret :
      Bool → Handler (Option Bytes) → (Option Bytes → Handler (Unit {0})) → Handler (Unit {0})
  store_secret wanted sealed keep = when wanted (sealed >>= keep)

  unfoldable pub store_metrics_password : Cluster → UpdateRequest → Randomness → Handler (Unit {0})
  unfolding seal_metrics_password
  store_metrics_password c req r =
      store_secret (not (is_empty req.metrics_password) || req.clear_metrics_password)
        (sealed_value req.clear_metrics_password
          (seal_metrics_password svc c.id req.metrics_password r)
          "could not store the metrics password")
        (λ sealed.
          run (λ e. refused 500 "could not store the metrics password")
            (set_metrics_password c.id sealed))

  unfoldable pub store_logs_secret : Cluster → UpdateRequest → Randomness → Handler (Unit {0})
  unfolding seal_logs_secret
  store_logs_secret c req r =
      store_secret (not (is_empty req.logs_secret) || req.clear_logs_secret)
        (sealed_value req.clear_logs_secret (seal_logs_secret svc c.id req.logs_secret r)
          "could not store the log source secret")
        (λ sealed.
          run (λ e. refused 500 "could not store the log source secret")
            (set_logs_secret c.id sealed))

  unfoldable pub update_settings_on :
      UpdateRequest → Randomness → Randomness → Time → Cluster × Text → Handler Reply
  unfolding store_metrics_password store_logs_secret valid_environment
  update_settings_on req r1 r2 now found = do
    refuse_if (breaks_environment req.settings.environment) bad_environment
    run settings_reply
        (update_settings svc.lower found.0.id (record req.settings { proxy_url = none }) now)
    store_metrics_password found.0 req r1
    store_logs_secret found.0 req r2
    c ← run (λ e. refused 500 "could not reload the cluster") (by_id found.0.id)
    pure (cluster_shown c access_write)

  unfoldable pub update_cluster_settings :
      User → Option Uuid → UpdateRequest → Randomness → Randomness → Time → Handler Reply
  unfolding resolve update_settings_on
  update_cluster_settings actor param req r1 r2 now =
      resolve actor param access_write >>= update_settings_on req r1 r2 now

  unfoldable pub test : User → Option Uuid → Time → Handler Reply
  unfolding resolve refresh
  test user param now = do
    found ← resolve user param access_read
    c ← under (λ e. refused 500 "could not test the connection") (refresh svc found.0 now)
    pure (cluster_shown c found.1)

unfoldable pub remove_on : Cluster × Text → Handler Reply
remove_on found = do
  run (λ e. refused 500 "could not delete the cluster") (delete found.0.id)
  pure no_content

unfoldable pub remove : User → Option Uuid → Handler Reply
unfolding resolve remove_on
remove actor param = resolve actor param access_write >>= remove_on
