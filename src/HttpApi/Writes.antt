-- ===== src/HttpApi/Writes.antt =====
-- server/internal/httpapi/write_handlers.go: what stands before every write to a cluster. The handlers
-- that apply and delete objects are in HttpApi/Writes/Manifests, those of operation_handlers.go in
-- HttpApi/Writes/Operations, and the proofs in Steps,
-- Coverage, Gate and Trail beside them.
--
-- A handler runs over the database, the reviews that were asked of clusters, the calls of the cluster
-- service that change something, and the audit entries, newest last. `Calls` is the cluster service:
-- `api` is how a cluster answers CheckWrite under an identity, and `perform` what a call yields after the
-- calls before it, an error or the text of its result. A drain is Cluster/Drain over the answers of
-- `drains`; `timestamp` is the time in the name of a job. The audit recorder is there: `h.audit` is not
-- nil, and the details, a GitOps owner, are the owner.
pub mod Manifests
pub mod Operations
pub mod Requests
pub mod Steps
pub mod Coverage
pub mod Gate
pub mod Trail
use kubby.Prelude.{
  ℕ, String, ◌⊎◌, inl, inr, Bool, true, false, Option, none, some, List, [], ◌∷◌, ◌++◌, ℤ, codes,
  Text, text_eq,
}
use kubby.Rbac.{cluster_manage, cluster_write, can}
use kubby.Store.Models.{User, Uuid}
use kubby.Store.Registry.{Cluster, access_write}
use kubby.Store.Db.{Db}
use kubby.Store.Db
use kubby.Store.Flow.{Flow, go, stop, Call}
use kubby.Store.Clusters.{access_level}
use kubby.Cluster.Types.{ResourceType}
use kubby.Cluster.WriteGuard.{
  Verb, WriteRequest, Permission, Reason, allowed, CheckError, Api, Checked, verdict, failed,
  check_write, Labels, GitOpsOwner,
}
use kubby.Cluster.WriteGuard
use kubby.Cluster.Drain.{
  EvictResult, set_unschedulable, list_pods, evict_pod, Answer, answered, Answers,
}
use kubby.Cluster.Drain
use kubby.HttpApi.Resources.{
  CallError, Refusal, refused, resource_error, resolve_cluster, impersonation_for,
}

pub data Propagation : Type 0 where
  background foreground orphan : Propagation

-- A decoded document: its metadata, and the whole of it.
pub record Object : Type 0 where
  pub api_version : String
  pub group : String
  pub version : String
  pub kind : String
  pub namespace : String
  pub name : String
  pub labels : Labels
  pub annotations : Labels
  pub manifest : Text

pub data Operation : Type 0 where
  apply : Text → Bool → Operation
  delete : Propagation → Operation
  scale : ℤ → Operation
  restore_scale restart evict trigger drain : Operation
  suspend cordon : Bool → Operation
  rollback : ℤ → Operation

-- An object that a call asks the cluster to change.
pub record Touched : Type 0 where
  pub group : String
  pub resource : String
  pub namespace : Text
  pub name : Text

-- A call of the service, with the request that was reviewed before it and the objects that it asks to
-- change: a drain its node and the pods that it evicts, a trigger the job that it creates.
pub record Sent : Type 0 where
  pub cluster : Uuid
  pub request : WriteRequest
  pub operation : Operation
  pub touched : List Touched

pub data Action : Type 0 where
  object_applied object_deleted object_scaled object_restarted pod_evicted : Action
  cronjob_suspended cronjob_triggered node_cordoned node_drained object_rolled_back : Action
  port_forwarded : Action

-- Who acted, `kind`, `namespace` and `name` of the object, and the owner where one is known.
pub record Entry : Type 0 where
  pub action : Action
  pub succeeded : Bool
  pub actor_id : Uuid
  pub actor_email : Text
  pub cluster : Uuid
  pub kind : String
  pub namespace : String
  pub name : Text
  pub owner : Option GitOpsOwner

-- One document's outcome.
pub data Applied : Type 0 where
  rejected : String → String → CallError → Applied
  unknown_kind : String → String → Applied
  accepted : Object → Text → Option GitOpsOwner → Applied

pub data Reply : Type 0 where
  turned_away : Refusal → Reply
  denied : Reason → Reply
  performed : Operation → Text → Reply
  results : List Applied → Bool → Reply

pub record World : Type 0 where
  pub db : Db
  pub asked : List WriteRequest
  pub sent : List Sent
  pub audited : List Entry

abbrev pub Handler : Type 0 → Type 0
Handler A = World → Flow Reply A × World

abbrev pub pure : {A : Type 0} → A → Handler A
pure a w = (go a, w)

abbrev pub leave : {A : Type 0} → Reply → Handler A
leave r w = (stop r, w)

infixl 5 ◌>>=◌ ◌>>◌
abbrev pub ◌>>=◌ : {A B : Type 0} → Handler A → (A → Handler B) → Handler B
◌>>=◌ m f w = let (r, w') = m w in elim r [ go a ↦ f a w' | stop e ↦ (stop e, w') ]

abbrev pub ◌>>◌ : {B : Type 0} → Handler (Unit {0}) → Handler B → Handler B
m >> k = m >>= λ _. k

abbrev replied : {A : Type 0} → Flow Refusal A → Flow Reply A
replied (go a) = go a
replied (stop e) = stop (turned_away e)

-- A call that runs over the database alone.
abbrev pub lift : {A : Type 0} → Call Refusal A → Handler A
lift m w = let (r, db') = m w.db in (replied r, record w { db = db' })

abbrev pub refuse : {A : Type 0} → ℕ → String → Handler A
refuse status message = leave (turned_away (refused status message))

abbrev pub refuse_if : Bool → ℕ → String → Handler (Unit {0})
refuse_if true status message = refuse status message
refuse_if false status message = pure tt

-- CheckWrite, which may send the request to the cluster for a review.
abbrev ask : (List WriteRequest → Checked × List WriteRequest) → Handler Checked
ask check w = let (r, asked') = check w.asked in (go r, record w { asked = asked' })

abbrev is_write_grant : Db.Result Text → Bool
is_write_grant (Db.ok level) = text_eq level access_write
is_write_grant (Db.err e) = false

-- Fails closed: a grant that cannot be read permits nothing.
unfoldable pub may_write_to_cluster : User → Cluster → Handler Bool
unfolding text_eq
may_write_to_cluster user c w = elim (can user.role cluster_manage) [
  | true ↦ (go true, w)
  | false ↦
      let (r, db') = access_level user.id c.id w.db in
      (go (is_write_grant r), record w { db = db' })
]

unfoldable pub may_write : User → Cluster → Handler Bool
unfolding may_write_to_cluster
may_write user c w = elim (can user.role cluster_write) [
  | true ↦ may_write_to_cluster user c w
  | false ↦ (go false, w)
]

pub record Calls : Type 0 where
  pub api : Cluster → Option Text → Api
  pub check_error : CheckError → CallError
  pub perform : Cluster → Option Text → Sent → List Sent → CallError ⊎ Text
  pub drains : Cluster → Option Text → List Sent → Answers
  pub drain_error : Text → CallError
  pub drain_text : List EvictResult → Text
  pub timestamp : List Sent → Text

abbrev pub request_for : ResourceType → String → String → Verb → WriteRequest
request_for type namespace name verb = record {
  group = type.group;
  version = type.version;
  resource = type.resource;
  namespace = namespace;
  name = name;
  verb = verb;
}

-- The object that a handler hands to the service.
abbrev pub object_of : ResourceType → String → String → Touched
object_of type namespace name = record {
  group = type.group;
  resource = type.resource;
  namespace = codes namespace;
  name = codes name;
}

-- The object that a review was about.
abbrev pub reviewed : WriteRequest → Touched
reviewed request = record {
  group = request.group;
  resource = request.resource;
  namespace = codes request.namespace;
  name = codes request.name;
}

abbrev pub pod_object : Text → Text → Touched
pod_object namespace name = record {
  group = "";
  resource = "pods";
  namespace = namespace;
  name = name;
}

-- What the calls of a drain ask to change: the node, of the kind that was asked for, and the pods.
unfoldable pub drain_objects : Touched → List Drain.Call → List Touched
drain_objects object [] = []
drain_objects object (set_unschedulable node on ∷ log) =
    record object { name = node } ∷ drain_objects object log
drain_objects object (list_pods node ∷ log) = drain_objects object log
drain_objects object (evict_pod namespace name ∷ log) =
    pod_object namespace name ∷ drain_objects object log

module _ (calls : Calls) (global_read_only : Bool) (user : User) (param : Option Uuid) where
  abbrev judged : Cluster → Checked → Handler Cluster
  judged c (failed e) = leave (turned_away (resource_error (calls.check_error e)))
  judged c (verdict allowed) = pure c
  judged c (verdict (WriteGuard.refused reason)) = leave (denied reason)

  unfoldable pub authorise_write : WriteRequest → Handler Cluster
  unfolding resolve_cluster may_write check_write
  authorise_write request = do
    c ← lift (resolve_cluster user param)
    granted ← may_write user c
    checked ← ask (
        check_write (calls.api c (impersonation_for user c)) c.read_only request
          (record { global_read_only = global_read_only; may_write = granted }))
    judged c checked

  -- `Drain` as the cluster service runs it.
  abbrev pub drained : Cluster → Text → List Sent → Answer (List EvictResult) × List Drain.Call
  drained c node sent = Drain.drain (calls.drains c (impersonation_for user c) sent) node []

  -- The name that `TriggerCronJob` gives the job.
  abbrev job_name : Text → List Sent → Text
  job_name name sent = name ++ (codes "-manual-" ++ calls.timestamp sent)

  abbrev pub touched_by : Operation → Cluster → Touched → List Sent → List Touched
  touched_by drain c object sent = drain_objects object ((drained c object.name sent).1)
  touched_by trigger c object sent = record object { name = job_name object.name sent } ∷ []
  touched_by other c object sent = object ∷ []

  abbrev drain_outcome : Answer (List EvictResult) → CallError ⊎ Text
  drain_outcome (answered pods) = inr (calls.drain_text pods)
  drain_outcome (Drain.refused e) = inl (calls.drain_error e)

  abbrev trigger_outcome : Text → CallError ⊎ Text → CallError ⊎ Text
  trigger_outcome name (inl e) = inl e
  trigger_outcome name (inr created) = inr name

  abbrev outcome : Operation → Cluster → Touched → Sent → List Sent → CallError ⊎ Text
  outcome drain c object s sent = drain_outcome ((drained c object.name sent).0)
  outcome trigger c object s sent =
      trigger_outcome (job_name object.name sent)
        (calls.perform c (impersonation_for user c) s sent)
  outcome other c object s sent = calls.perform c (impersonation_for user c) s sent

  -- A call of the cluster service that changes something, on an object, behind the review of a request.
  abbrev pub send : Cluster → WriteRequest → Touched → Operation → Handler (CallError ⊎ Text)
  send c request object operation w =
      let s : Sent = record {
        cluster = c.id;
        request = request;
        operation = operation;
        touched = touched_by operation c object w.sent;
      } in
      (go (outcome operation c object s w.sent), record w { sent = w.sent ++ (s ∷ []) })

  abbrev pub record_write : Entry → Handler (Unit {0})
  record_write e w = (go tt, record w { audited = w.audited ++ (e ∷ []) })

  abbrev pub entry :
      Action → Bool → Cluster → ResourceType → String → Text → Option GitOpsOwner → Entry
  entry action succeeded c type namespace name owner = record {
    action = action;
    succeeded = succeeded;
    actor_id = user.id;
    actor_email = user.email;
    cluster = c.id;
    kind = type.kind;
    namespace = namespace;
    name = name;
    owner = owner;
  }

  -- The call with its audit entry, and the reply: what handlers do behind `authorise_write`. The entry
  -- of a success names the object by `named`, of what the call returned.
  abbrev pub ended :
      Action
      → (CallError → Reply)
      → Operation
      → Cluster
      → ResourceType
      → String
      → String
      → (Text → Text)
      → CallError ⊎ Text
      → Handler Reply
  ended action on_error operation c type namespace name named (inl e) = do
    record_write (entry action false c type namespace (codes name) none)
    leave (on_error e)
  ended action on_error operation c type namespace name named (inr result) = do
    record_write (entry action true c type namespace (named result) none)
    pure (performed operation result)

  unfoldable pub perform_on :
      Action
      → (CallError → Reply)
      → Verb
      → Operation
      → ResourceType
      → String
      → String
      → (Text → Text)
      → Handler Reply
  unfolding authorise_write
  perform_on action on_error verb operation type namespace name named = do
    let request = request_for type namespace name verb
    c ← authorise_write request
    r ← send c request (object_of type namespace name) operation
    ended action on_error operation c type namespace name named r

abbrev pub cluster_error : CallError → Reply
cluster_error e = turned_away (resource_error e)

-- A type that LookupType has to know; the request is refused with the message otherwise.
abbrev pub known : Option ResourceType → ℕ → String → Handler ResourceType
known none status message = refuse status message
known (some type) status message = pure type
