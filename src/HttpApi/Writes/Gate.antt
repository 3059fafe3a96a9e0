-- ===== src/HttpApi/Writes/Gate.antt =====
-- No write reaches a cluster but through the gate (server/internal/httpapi/write_handlers.go and
-- operation_handlers.go).
use kubby.Cluster.Types.{ResourceType}
use kubby.Prelude.{
  String, ◌≡◌, refl, ap, ◌∙◌, ◌⊎◌, inl, inr, Bool, true, false, ◌||◌, codes, Option, none, some,
  List, arith, ==_iff, Option-cases, All, All-append, Text, text_eq,
}
use kubby.HttpApi.Writes.Manifests.{Yaml, outcome_of, apply_to}
use kubby.HttpApi.Writes.Requests.{WriteCall, handle}
use kubby.HttpApi.Writes.{
  Touched, reviewed, touched_by, drain, trigger, restore_scale, suspend, cordon, rollback, Object,
  Operation, apply, Action, Sent, Reply, World, Handler, ◌>>=◌, Calls, request_for, authorise_write,
  object_of, send, ended, perform_on, may_write,
}
use kubby.Rbac.{cluster_manage, cluster_write, can}
use kubby.Store.Models.{User, Uuid}
use kubby.Store.Registry.{Cluster, access_write, GrantRow}
use kubby.Store.Db.{find, find-holds}
use kubby.Store.Flow.{go}
use kubby.Store.Clusters.{is_cluster, is_grant, by_id, level_of, access_level}
use kubby.Cluster.WriteGuard.{WriteRequest, Review, check_write, update}
use kubby.HttpApi.Writes.Coverage.{IsCovered, drain-IsOwn, drain_objects-IsCovered}
use kubby.HttpApi.Writes.Steps.{Keeps, authorised-Keeps, handle-Keeps}
use kubby.HttpApi.Resources.{CallError, resolve_cluster, impersonation_for}

abbrev pub says_yes : Option Review → Bool
says_yes none = false
says_yes (some r) = r.is_allowed

abbrev pub holds_write : Uuid → Uuid → List GrantRow → Bool
holds_write user_id cluster_id grants =
    text_eq (level_of (find (is_grant user_id cluster_id) grants)) access_write

-- A row that is found is found under its own identity.
find_self :
    (id : Uuid) (cs : List Cluster) {c : Cluster}
    → find (is_cluster id) cs ≡ some c
    → find (is_cluster c.id) cs ≡ some c
find_self id cs {c} h =
    ap (λ k. find (is_cluster k) cs) ((==_iff c.id id).0 (find-holds (is_cluster id) cs h)) ∙ h

module _ (calls : Calls) (global_read_only : Bool) (user : User) (param : Option Uuid) where
  -- Kubby is not read-only, the role may write, the user manages clusters or holds a grant to write to
  -- this one, it is not locked, and it said itself that the request is allowed.
  abbrev pub IsPermitted : List Cluster → List GrantRow → Cluster → WriteRequest → Type 0
  IsPermitted clusters grants c request =
      (global_read_only ≡ false)
      × (can user.role cluster_write ≡ true)
      × ((can user.role cluster_manage || holds_write user.id c.id grants) ≡ true)
      × (find (is_cluster c.id) clusters ≡ some c)
      × (c.read_only ≡ false)
      × (says_yes ((calls.api c (impersonation_for user c)).review request) ≡ true)

  pub authorise_write-IsPermitted :
      (request : WriteRequest) (w : World) {c : Cluster}
      → (authorise_write calls global_read_only user param request w).0 ≡ go c
      → IsPermitted w.db.clusters w.db.grants c request
  unfolding authorise_write resolve_cluster may_write check_write by_id access_level
  authorise_write-IsPermitted request w {c} h = elim (Option-cases param) [
    | inl e ↦ absurd (ground (arith, e, h))
    | inr (id, e) ↦ elim (Option-cases (find (is_cluster id) w.db.clusters)) [
      | inl n ↦ absurd (ground (arith, e, n, h))
      | inr (d, f) ↦
          let same : d ≡ c = ground (arith, e, f, h) in
          let own : find (is_cluster c.id) w.db.clusters ≡ some c =
            rw (← same) (find_self id w.db.clusters f) in
          (
            ground (arith, e, f, h),
            ground (arith, e, f, h),
            ground (arith, e, f, h),
            own,
            ground (arith, e, f, h),
            ground (arith, e, f, h),
          )
    ]
  ]

  pub authorise_write-keeps :
      (request : WriteRequest) (w : World)
      → let w' = (authorise_write calls global_read_only user param request w).1 in
        (w'.db.clusters ≡ w.db.clusters)
        × (w'.db.grants ≡ w.db.grants)
        × (w'.sent ≡ w.sent)
        × (w'.audited ≡ w.audited)
  unfolding authorise_write resolve_cluster may_write check_write by_id access_level
  authorise_write-keeps request w = ground arith

  -- What was sent is what the gate lets through, and changes what was asked for.
  abbrev pub IsGuarded : List Cluster → List GrantRow → Sent → Type 0
  IsGuarded clusters grants s =
      (c : Cluster) × (c.id ≡ s.cluster)
      × IsPermitted clusters grants c s.request
      × All (IsCovered s.operation s.request) s.touched

  touched_by-IsCovered :
      (operation : Operation) (c : Cluster) (request : WriteRequest) (sent : List Sent)
      → All
          (IsCovered operation request)
          (touched_by calls global_read_only user param operation c (reviewed request) sent)
  touched_by-IsCovered drain c request sent =
      drain_objects-IsCovered request _
        (drain-IsOwn (calls.drains c (impersonation_for user c) sent) (codes request.name))
  touched_by-IsCovered trigger c request sent = (inr (inr (refl, refl, refl, refl)), tt)
  touched_by-IsCovered (apply manifest dry_run) c request sent = (inl refl, tt)
  touched_by-IsCovered (Operation.delete propagation) c request sent = (inl refl, tt)
  touched_by-IsCovered (Operation.scale replicas) c request sent = (inl refl, tt)
  touched_by-IsCovered restore_scale c request sent = (inl refl, tt)
  touched_by-IsCovered Operation.restart c request sent = (inl refl, tt)
  touched_by-IsCovered Operation.evict c request sent = (inl refl, tt)
  touched_by-IsCovered (suspend on) c request sent = (inl refl, tt)
  touched_by-IsCovered (cordon on) c request sent = (inl refl, tt)
  touched_by-IsCovered (rollback revision) c request sent = (inl refl, tt)

  abbrev IsClean : List Cluster → List GrantRow → World → Type 0
  IsClean clusters grants w =
      (w.db.clusters ≡ clusters) × (w.db.grants ≡ grants) × All (IsGuarded clusters grants) w.sent

  module _ (clusters : List Cluster) (grants : List GrantRow) where
    authorise_write-IsClean :
        (request : WriteRequest)
        → Keeps calls global_read_only user param
            (IsClean clusters grants)
            (authorise_write calls global_read_only user param request)
    authorise_write-IsClean request w clean =
        let same = authorise_write-keeps request w in
        (same.0 ∙ clean.0, same.1 ∙ clean.1, rw same.2 clean.2)

    sent-IsClean :
        (request : WriteRequest) (object : Touched) (operation : Operation) (c : Cluster)
        (w : World)
        → reviewed request ≡ object
        → IsClean clusters grants w
        → IsPermitted w.db.clusters w.db.grants c request
        → IsClean clusters grants
            (send calls global_read_only user param c request object operation w).1
    sent-IsClean request object operation c w same clean permitted = (
      clean.0,
      clean.1,
      All-append (IsGuarded clusters grants) w.sent _ clean.2 (
        (
          c,
          refl,
          rw (← clean.0, ← clean.1) permitted,
          rw (← same) (touched_by-IsCovered operation c request w.sent),
        ),
        tt,
      ),
    )

    behind-IsClean :
        {B : Type 0} (request : WriteRequest) (object : Touched) (operation : Operation)
        (k : Cluster → CallError ⊎ Text → Handler B)
        → reviewed request ≡ object
        → ((c : Cluster) (r : CallError ⊎ Text)
            → Keeps calls global_read_only user param (IsClean clusters grants) (k c r))
        → Keeps calls global_read_only user param (IsClean clusters grants) (
            authorise_write calls global_read_only user param request >>= λ c.
            send calls global_read_only user param c request object operation >>= k c)
    behind-IsClean request object operation k named keeps =
        authorised-Keeps calls global_read_only user param (IsClean clusters grants) request
          (λ c. send calls global_read_only user param c request object operation >>= k c)
          (authorise_write-IsClean request)
          (λ c w clean e.
            let same = authorise_write-keeps request w in
            let w' = (authorise_write calls global_read_only user param request w).1 in
            keeps c _ _ (
              sent-IsClean request object operation c w' named
                (authorise_write-IsClean request w clean)
                (rw (same.0, same.1) (authorise_write-IsPermitted request w e))))

    ended-IsClean :
        (action : Action) (on_error : CallError → Reply) (operation : Operation)
        (type : ResourceType) (namespace name : String) (named : Text → Text) (c : Cluster)
        (r : CallError ⊎ Text)
        → Keeps calls global_read_only user param (IsClean clusters grants) (
            ended calls global_read_only user param action on_error operation c type namespace name
              named r)
    ended-IsClean action on_error operation type namespace name named c (inl e) w clean = clean
    ended-IsClean action on_error operation type namespace name named c (inr t) w clean = clean

    outcome_of-IsClean :
        (type : ResourceType) (o : Object) (dry_run : Bool) (c : Cluster) (r : CallError ⊎ Text)
        → Keeps calls global_read_only user param
            (IsClean clusters grants)
            (outcome_of calls global_read_only user param c type o dry_run r)
    outcome_of-IsClean type o true c (inl e) w clean = clean
    outcome_of-IsClean type o false c (inl e) w clean = clean
    outcome_of-IsClean type o true c (inr t) w clean = clean
    outcome_of-IsClean type o false c (inr t) w clean = clean

    handle-IsClean :
        (yaml : Yaml) (request : WriteCall)
        → Keeps calls global_read_only user param
            (IsClean clusters grants)
            (handle yaml calls global_read_only user param request)
    unfolding perform_on apply_to
    handle-IsClean yaml request =
        handle-Keeps calls global_read_only user param (IsClean clusters grants)
          (λ action on_error verb operation type namespace name named d.
            behind-IsClean (request_for type namespace name verb) (object_of type namespace name)
              operation
              (λ c r.
                ended calls global_read_only user param action on_error operation c type namespace
                  name named r)
              refl (ended-IsClean action on_error operation type namespace name named))
          (λ o dry_run type.
            behind-IsClean (request_for type o.namespace o.name update)
              (object_of type o.namespace o.name) (apply o.manifest dry_run)
              (λ c r. outcome_of calls global_read_only user param c type o dry_run r) refl
              (outcome_of-IsClean type o dry_run))
          yaml request

  -- Whatever a request to write does, each call of the cluster service that it sends to change a cluster
  -- was let through by every gate for the object that was asked for: Kubby is not read-only, the role may
  -- write, the user manages clusters or holds a grant to write to this one, the cluster is not locked,
  -- and it said itself that the request is allowed. The call asks to change that very object and no
  -- other, with two exceptions: a drain, which was reviewed for the node, also evicts pods, and a
  -- trigger creates, in the namespace that was reviewed, a job under a name of its own. The tables of
  -- clusters and grants stay as they were.
  pub handle-IsGuarded :
      (yaml : Yaml) (request : WriteCall) (w : World)
      → All (IsGuarded w.db.clusters w.db.grants) w.sent
      → let w' = (handle yaml calls global_read_only user param request w).1 in
        (w'.db.clusters ≡ w.db.clusters)
        × (w'.db.grants ≡ w.db.grants)
        × All (IsGuarded w.db.clusters w.db.grants) w'.sent
  handle-IsGuarded yaml request w h =
      handle-IsClean w.db.clusters w.db.grants yaml request w (refl, refl, h)
