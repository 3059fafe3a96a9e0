-- ===== src/HttpApi/Writes/Requests.antt =====
-- server/internal/httpapi/router.go: the routes that write to a cluster, behind the guards of a signed-in
-- user, as one type of requests. Opening a terminal and forwarding a port are not among them.
use kubby.Prelude.{String, Bool, Option, ℤ, Text}
use kubby.Store.Models.{User, Uuid}
use kubby.HttpApi.Writes.{Reply, Handler, Calls}
use kubby.HttpApi.Writes.Manifests.{Yaml, apply_object, delete_object}
use kubby.HttpApi.Writes.Operations.{
  Target, scale, restart, evict, suspend_cronjob, trigger_cronjob, cordon_node, drain_node,
  roll_back,
}

pub data WriteCall : Type 0 where
  to_apply : Text → Text → Bool → WriteCall
  to_delete : Text → String → String → String → WriteCall
  to_scale : Target → ℤ → Bool → WriteCall
  to_restart : Target → WriteCall
  to_evict : String → String → WriteCall
  to_suspend : String → String → Bool → WriteCall
  to_trigger : String → String → WriteCall
  to_cordon : String → Bool → WriteCall
  to_drain : String → WriteCall
  to_roll_back : String → String → ℤ → WriteCall

module _ (yaml : Yaml) (calls : Calls) (global_read_only : Bool) (user : User)
    (param : Option Uuid) where
  unfoldable pub handle : WriteCall → Handler Reply
  handle (to_apply url_key manifest dry_run) =
      apply_object calls global_read_only user param yaml url_key manifest dry_run
  handle (to_delete url_key namespace name propagation) =
      delete_object calls global_read_only user param url_key namespace name propagation
  handle (to_scale t replicas restore) = scale calls global_read_only user param t replicas restore
  handle (to_restart t) = restart calls global_read_only user param t
  handle (to_evict namespace name) = evict calls global_read_only user param namespace name
  handle (to_suspend namespace name suspended) =
      suspend_cronjob calls global_read_only user param namespace name suspended
  handle (to_trigger namespace name) =
      trigger_cronjob calls global_read_only user param namespace name
  handle (to_cordon name unschedulable) =
      cordon_node calls global_read_only user param name unschedulable
  handle (to_drain name) = drain_node calls global_read_only user param name
  handle (to_roll_back namespace name revision) =
      roll_back calls global_read_only user param namespace name revision
