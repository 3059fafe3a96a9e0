-- ===== src/HttpApi/Writes/Coverage.antt =====
-- What a call of the cluster service changes, against the object that was reviewed
-- (server/internal/httpapi/operation_handlers.go over server/internal/cluster/drain.go).
use kubby.Cluster.WriteGuard.{WriteRequest}
use kubby.Prelude.{
  ◌≡◌, refl, ◌⊎◌, inl, inr, true, [], ◌∷◌, codes, List, arith, All, All-append, Text,
}
use kubby.Cluster.Drain
use kubby.Cluster.Drain.{
  DrainPod, plan_of, Answers, set_unschedulable, list_pods, evict_pod, plan_drain, evict_all,
  evict_planned,
}
use kubby.Cluster.Drain.Evictions.{answer-cases}
use kubby.HttpApi.Writes.{Touched, reviewed, drain_objects, drain, trigger, Operation}

-- The object of the request; or a pod, of a drain; or a job under the request's kind and namespace, of a
-- trigger.
abbrev pub IsCovered : Operation → WriteRequest → Touched → Type 0
IsCovered operation request t =
    (t ≡ reviewed request)
    ⊎ (((operation ≡ drain) × (t.group ≡ "") × (t.resource ≡ "pods"))
        ⊎ ((operation ≡ trigger)
            × (t.group ≡ request.group)
            × (t.resource ≡ request.resource)
            × (t.namespace ≡ codes request.namespace)))

-- A call of the drain of this node.
abbrev IsOwn : Text → Drain.Call → Type 0
IsOwn node (set_unschedulable other on) = other ≡ node
IsOwn node call = Unit

evict_all-IsOwn :
    (cluster : Answers) (node : Text) (ps : List DrainPod) (log : List Drain.Call)
    → All (IsOwn node) log
    → All (IsOwn node) (evict_all cluster ps log).1
unfolding evict_all
evict_all-IsOwn cluster node [] log h = h
evict_all-IsOwn cluster node (p ∷ ps) log h =
    evict_all-IsOwn cluster node ps _ (All-append (IsOwn node) log _ h (tt, tt))

-- What a drain asks of the cluster, by where it ends.
drain-log :
    (cluster : Answers) (node : Text)
    → let log = (Drain.drain cluster node []).1 in
      (log ≡ set_unschedulable node true ∷ [])
      ⊎ ((log ≡ set_unschedulable node true ∷ list_pods node ∷ [])
          ⊎ ((ps : List DrainPod) × (log
                ≡ (evict_all cluster ps (set_unschedulable node true ∷ list_pods node ∷ [])).1)))
unfolding Drain.drain plan_drain evict_planned
drain-log cluster node = elim (answer-cases (cluster.to_patch [])) [
  | inr (e, h) ↦ inl (ground (arith, h))
  | inl (u, h) ↦ elim (answer-cases (cluster.to_list (set_unschedulable node true ∷ []))) [
    | inr (e, k) ↦ inr (inl (ground (arith, h, k)))
    | inl (pods, k) ↦ inr (inr ((plan_of node pods).evict, ground (arith, h, k)))
  ]
]

pub drain-IsOwn :
    (cluster : Answers) (node : Text) → All (IsOwn node) (Drain.drain cluster node []).1
drain-IsOwn cluster node = elim (drain-log cluster node) [
  | inl e ↦ rw e (refl, tt)
  | inr (inl e) ↦ rw e (refl, (tt, tt))
  | inr (inr (ps, e)) ↦ rw e (evict_all-IsOwn cluster node ps _ (refl, (tt, tt)))
]

pub drain_objects-IsCovered :
    (request : WriteRequest) (log : List Drain.Call)
    → All (IsOwn (codes request.name)) log
    → All (IsCovered drain request) (drain_objects (reviewed request) log)
unfolding drain_objects
drain_objects-IsCovered request [] h = tt
drain_objects-IsCovered request (set_unschedulable node on ∷ log) (same, h) =
    (inl (rw same refl), drain_objects-IsCovered request log h)
drain_objects-IsCovered request (list_pods node ∷ log) (own, h) =
    drain_objects-IsCovered request log h
drain_objects-IsCovered request (evict_pod namespace name ∷ log) (own, h) =
    (inr (inl (refl, refl, refl)), drain_objects-IsCovered request log h)
