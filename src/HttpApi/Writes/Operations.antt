-- ===== src/HttpApi/Writes/Operations.antt =====
-- server/internal/httpapi/operation_handlers.go: the operations that write. planDrain and rolloutHistory
-- only read, and are left out.
use kubby.Prelude.{String, Bool, Option, if◌then◌else◌, ℤ, codes, Text}
use kubby.Store.Models.{User, Uuid}
use kubby.Cluster.Types.{lookup_type}
use kubby.Cluster.WriteGuard.{patch, create}
use kubby.Cluster.WriteGuard
use kubby.HttpApi.Resources.{CallError, error_text, told}
use kubby.HttpApi.Writes.{
  Operation, restore_scale, trigger, drain, suspend, cordon, rollback, Action, object_scaled,
  object_restarted, pod_evicted, cronjob_suspended, cronjob_triggered, node_cordoned, node_drained,
  object_rolled_back, Reply, turned_away, Handler, ◌>>=◌, Calls, perform_on, cluster_error, known,
}

-- The object of a request, and its key where the request gives one.
pub record Target : Type 0 where
  pub type_key : Text
  pub namespace : String
  pub name : String

-- A budget that refuses is a conflict.
abbrev pub conflict : CallError → Reply
conflict e = turned_away (told 409 (error_text e))

abbrev pub scaling : Bool → ℤ → Operation
scaling restore replicas = if restore then restore_scale else Operation.scale replicas

module _ (calls : Calls) (global_read_only : Bool) (user : User) (param : Option Uuid) where
  unfoldable pub scale : Target → ℤ → Bool → Handler Reply
  unfolding lookup_type perform_on
  scale t replicas restore = do
    type ← known (lookup_type t.type_key) 404 "unknown resource type"
    perform_on calls global_read_only user param object_scaled cluster_error patch
        (scaling restore replicas) type t.namespace t.name (λ result. codes t.name)

  unfoldable pub restart : Target → Handler Reply
  unfolding lookup_type perform_on
  restart t = do
    type ← known (lookup_type t.type_key) 404 "unknown resource type"
    perform_on calls global_read_only user param object_restarted cluster_error patch
        Operation.restart type t.namespace t.name (λ result. codes t.name)

  unfoldable pub evict : String → String → Handler Reply
  unfolding lookup_type perform_on
  evict namespace name = do
    type ← known (lookup_type (codes "pods")) 500 "pods are not registered"
    perform_on calls global_read_only user param pod_evicted conflict WriteGuard.delete
        Operation.evict type namespace name (λ result. codes name)

  unfoldable pub suspend_cronjob : String → String → Bool → Handler Reply
  unfolding lookup_type perform_on
  suspend_cronjob namespace name suspended = do
    type ← known (lookup_type (codes "batch/cronjobs")) 500 "cronjobs are not registered"
    perform_on calls global_read_only user param cronjob_suspended cluster_error patch
        (suspend suspended) type namespace name (λ result. codes name)

  -- The result is the name of the job, which the cluster is asked leave to create.
  unfoldable pub trigger_cronjob : String → String → Handler Reply
  unfolding lookup_type perform_on
  trigger_cronjob namespace name = do
    type ← known (lookup_type (codes "batch/jobs")) 500 "jobs are not registered"
    perform_on calls global_read_only user param cronjob_triggered cluster_error create trigger type
        namespace name (λ result. result)

  abbrev on_node : Action → Operation → String → Handler Reply
  on_node action operation name = do
    type ← known (lookup_type (codes "nodes")) 500 "nodes are not registered"
    perform_on calls global_read_only user param action cluster_error patch operation type "" name
        (λ result. codes name)

  unfoldable pub cordon_node : String → Bool → Handler Reply
  unfolding lookup_type perform_on
  cordon_node name unschedulable = on_node node_cordoned (cordon unschedulable) name

  unfoldable pub drain_node : String → Handler Reply
  unfolding lookup_type perform_on
  drain_node name = on_node node_drained drain name

  unfoldable pub roll_back : String → String → ℤ → Handler Reply
  unfolding lookup_type perform_on
  roll_back namespace name revision = do
    type ← known (lookup_type (codes "apps/deployments")) 500 "deployments are not registered"
    perform_on calls global_read_only user param object_rolled_back cluster_error patch
        (rollback revision) type namespace name (λ result. codes name)
