-- ===== src/HttpApi/Writes/Steps.antt =====
-- What the step that reaches a cluster preserves, every request to write preserves
-- (server/internal/httpapi/write_handlers.go and operation_handlers.go).
use kubby.Cluster.Types.{ResourceType, lookup_type}
use kubby.Prelude.{
  ℕ, String, ◌≡◌, refl, ◌⊎◌, inl, inr, Bool, true, false, Option, none, some, List, [], ◌∷◌, str_eq,
  ℤ, codes, Text,
}
use kubby.HttpApi.Writes.Manifests.{
  Yaml, apply_one, apply_typed, apply_to, apply_all, some_objects, apply_object, delete_object,
  split_manifest, trim_slashes, type_of, propagation_from,
}
use kubby.HttpApi.Writes.Operations.{
  scale, restart, evict, suspend_cronjob, trigger_cronjob, cordon_node, drain_node, roll_back,
  scaling, conflict,
}
use kubby.HttpApi.Writes.Requests.{
  WriteCall, to_apply, to_delete, to_scale, to_restart, to_evict, to_suspend, to_trigger, to_cordon,
  to_drain, to_roll_back, handle,
}
use kubby.HttpApi.Writes.{
  Object, Operation, apply, Action, Reply, World, Handler, pure, ◌>>=◌, ◌>>◌, results, Calls,
  authorise_write, perform_on, known, refuse_if, cluster_error, suspend, cordon, drain, trigger,
  rollback, object_deleted, object_scaled, object_restarted, pod_evicted, cronjob_suspended,
  cronjob_triggered, node_cordoned, node_drained, object_rolled_back,
}
use kubby.Store.Models.{User, Uuid}
use kubby.Store.Registry.{Cluster}
use kubby.Store.Flow.{Flow, go, stop}
use kubby.Cluster.WriteGuard
use kubby.Cluster.WriteGuard.{patch, create, WriteRequest, Review, check_write, Verb, update}
use kubby.HttpApi.Resources.{CallError}

-- A run that the cluster is asked not to carry out.
abbrev pub is_dry : Operation → Bool
is_dry (apply manifest dry_run) = dry_run
is_dry other = false

is_dry-scaling : (restore : Bool) (replicas : ℤ) → is_dry (scaling restore replicas) ≡ false
is_dry-scaling true replicas = refl
is_dry-scaling false replicas = refl

module _ (calls : Calls) (global_read_only : Bool) (user : User) (param : Option Uuid)
    (Inv : World → Type 0) where
  abbrev pub Keeps : {A : Type 0} → Handler A → Type 0
  Keeps m = (w : World) → Inv w → Inv (m w).1

  Keeps-bound :
      {A B : Type 0} (r : Flow Reply A) (w : World) (f : A → Handler B)
      → Inv w
      → ((a : A) → Keeps (f a))
      → (start : World) → Inv (((λ s. (r, w)) >>= f) start).1
  Keeps-bound (go a) w f h k start = k a w h
  Keeps-bound (stop e) w f h k start = h

  Keeps-bind :
      {A B : Type 0} (m : Handler A) (f : A → Handler B)
      → Keeps m
      → ((a : A) → Keeps (f a))
      → Keeps (m >>= f)
  Keeps-bind m f h k w c = Keeps-bound (m w).0 (m w).1 f (h w c) k w

  through :
      {B : Type 0} (r : Flow Reply Cluster) (w : World) (f : Cluster → Handler B)
      → Inv w
      → ((c : Cluster) → r ≡ go c → Inv (f c w).1)
      → (start : World) → Inv (((λ s. (r, w)) >>= f) start).1
  through (go c) w f h k start = k c refl
  through (stop e) w f h k start = h

  -- What stands behind the gate runs where the gate let a cluster through.
  pub authorised-Keeps :
      {B : Type 0} (request : WriteRequest) (f : Cluster → Handler B)
      → Keeps (authorise_write calls global_read_only user param request)
      → ((c : Cluster) (w : World)
          → Inv w
          → (authorise_write calls global_read_only user param request w).0 ≡ go c
          → Inv (f c (authorise_write calls global_read_only user param request w).1).1)
      → Keeps (authorise_write calls global_read_only user param request >>= f)
  authorised-Keeps request f gate behind w h =
      let a = authorise_write calls global_read_only user param request w in
      through a.0 a.1 f (gate w h) (λ c e. behind c w h e) w

  module _
      (performs : (action : Action) (on_error : CallError → Reply) (verb : Verb)
          (operation : Operation) (type : ResourceType) (namespace name : String)
          (named : Text → Text)
        → is_dry operation ≡ false
        → Keeps (
            perform_on calls global_read_only user param action on_error verb operation type
              namespace name named))
      (applies : (o : Object) (dry_run : Bool) (type : ResourceType)
        → Keeps (apply_to calls global_read_only user param type o dry_run)) where
    typed-Keeps :
        (o : Object) (dry_run : Bool) (t : Option ResourceType)
        → Keeps (apply_typed calls global_read_only user param o dry_run t)
    unfolding apply_typed
    typed-Keeps o dry_run none = λ w clean. clean
    typed-Keeps o dry_run (some type) = applies o dry_run type

    apply_one-Keeps :
        (type_key : Text) (dry_run : Bool) (o : Object)
        → Keeps (apply_one calls global_read_only user param type_key dry_run o)
    unfolding apply_one
    apply_one-Keeps type_key dry_run o = typed-Keeps o dry_run (type_of type_key o)

    apply_all-Keeps :
        (type_key : Text) (dry_run : Bool) (os : List Object)
        → Keeps (apply_all calls global_read_only user param type_key dry_run os)
    unfolding apply_all
    apply_all-Keeps type_key dry_run [] = λ w clean. clean
    apply_all-Keeps type_key dry_run (o ∷ os) =
        let others = apply_all calls global_read_only user param type_key dry_run os in
        Keeps-bind (apply_one calls global_read_only user param type_key dry_run o)
          (λ first. others >>= λ rest. pure (first ∷ rest)) (apply_one-Keeps type_key dry_run o)
          (λ first.
            Keeps-bind others (λ rest. pure (first ∷ rest)) (apply_all-Keeps type_key dry_run os)
              (λ rest w clean. clean))

    some_objects-Keeps :
        (found : Text ⊎ List Object) → Keeps (some_objects calls global_read_only user param found)
    some_objects-Keeps (inl e) w clean = clean
    some_objects-Keeps (inr []) w clean = clean
    some_objects-Keeps (inr (o ∷ os)) w clean = clean

    on_known-Keeps :
        (t : Option ResourceType) (status : ℕ) (message : String) (action : Action)
        (on_error : CallError → Reply) (verb : Verb) (operation : Operation)
        (namespace name : String) (named : Text → Text)
        → is_dry operation ≡ false
        → Keeps (
            known t status message >>= λ type.
            perform_on calls global_read_only user param action on_error verb operation type
              namespace name named)
    on_known-Keeps none status message action on_error verb operation namespace name named d =
        λ w clean. clean
    on_known-Keeps (some type) status message action on_error verb operation namespace name named
          d =
        performs action on_error verb operation type namespace name named d

    refuse_if-Keeps :
        (b : Bool) (status : ℕ) (message : String) (m : Handler Reply)
        → Keeps m
        → Keeps (refuse_if b status message >> m)
    refuse_if-Keeps true status message m keeps = λ w clean. clean
    refuse_if-Keeps false status message m keeps = keeps

    -- Every request to write is made of these steps and of replies.
    pub handle-Keeps :
        (yaml : Yaml) (request : WriteCall)
        → Keeps (handle yaml calls global_read_only user param request)
    unfolding handle apply_object delete_object scale restart evict suspend_cronjob trigger_cronjob
        cordon_node drain_node roll_back
    handle-Keeps yaml (to_apply url_key manifest dry_run) =
        let applied = λ (os : List Object).
          apply_all calls global_read_only user param (trim_slashes url_key) dry_run os in
        Keeps-bind (some_objects calls global_read_only user param (split_manifest yaml manifest))
          (λ os. applied os >>= λ done. pure (results done dry_run))
          (some_objects-Keeps (split_manifest yaml manifest))
          (λ os.
            Keeps-bind (applied os) (λ done. pure (results done dry_run))
              (apply_all-Keeps (trim_slashes url_key) dry_run os) (λ done w clean. clean))
    handle-Keeps yaml (to_delete url_key namespace name propagation) =
        let key : Option ResourceType = lookup_type (trim_slashes url_key) in
        let operation : Operation = Operation.delete (propagation_from propagation) in
        refuse_if-Keeps (str_eq name "") 400 "name is required"
          (known key 404 "unknown resource type" >>= λ type.
            perform_on calls global_read_only user param object_deleted cluster_error
              WriteGuard.delete operation type namespace name (λ result. codes name))
          (on_known-Keeps key 404 "unknown resource type" object_deleted cluster_error
            WriteGuard.delete operation namespace name (λ result. codes name) refl)
    handle-Keeps yaml (to_scale t replicas restore) =
        on_known-Keeps (lookup_type t.type_key) 404 "unknown resource type" object_scaled
          cluster_error patch (scaling restore replicas) t.namespace t.name (λ result. codes t.name)
          (is_dry-scaling restore replicas)
    handle-Keeps yaml (to_restart t) =
        on_known-Keeps (lookup_type t.type_key) 404 "unknown resource type" object_restarted
          cluster_error patch (Operation.restart) t.namespace t.name (λ result. codes t.name) refl
    handle-Keeps yaml (to_evict namespace name) =
        on_known-Keeps (lookup_type (codes "pods")) 500 "pods are not registered" pod_evicted
          conflict WriteGuard.delete (Operation.evict) namespace name (λ result. codes name) refl
    handle-Keeps yaml (to_suspend namespace name suspended) =
        on_known-Keeps (lookup_type (codes "batch/cronjobs")) 500 "cronjobs are not registered"
          cronjob_suspended cluster_error patch (suspend suspended) namespace name
          (λ result. codes name) refl
    handle-Keeps yaml (to_trigger namespace name) =
        on_known-Keeps (lookup_type (codes "batch/jobs")) 500 "jobs are not registered"
          cronjob_triggered cluster_error create (trigger) namespace name (λ result. result) refl
    handle-Keeps yaml (to_cordon name unschedulable) =
        on_known-Keeps (lookup_type (codes "nodes")) 500 "nodes are not registered" node_cordoned
          cluster_error patch (cordon unschedulable) "" name (λ result. codes name) refl
    handle-Keeps yaml (to_drain name) =
        on_known-Keeps (lookup_type (codes "nodes")) 500 "nodes are not registered" node_drained
          cluster_error patch (drain) "" name (λ result. codes name) refl
    handle-Keeps yaml (to_roll_back namespace name revision) =
        on_known-Keeps (lookup_type (codes "apps/deployments")) 500 "deployments are not registered"
          object_rolled_back cluster_error patch (rollback revision) namespace name
          (λ result. codes name) refl
