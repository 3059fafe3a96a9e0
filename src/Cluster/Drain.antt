-- ===== src/Cluster/Drain.antt =====
-- server/internal/cluster/drain.go: planning and running the drain of a node. The proofs are in
-- Cluster/Drain/Evictions.
--
-- The cluster answers each call by what was called before: `Answers`. The node's patch, the list and
-- the eviction are calls of the Kubernetes API; an error is its text. `sort.Slice` may order pods of
-- one name either way, and here keeps them.
pub mod Evictions
use kubby.Prelude.{
  Bool, true, false, ◌||◌, not, Option, none, some, List, [], ◌∷◌, ◌++◌, if◌then◌else◌, codes, Text,
  text_eq, is_empty, text_lt, sort_by,
}

pub record OwnerReference : Type 0 where
  pub name : Text
  pub kind : Text
  pub is_controller : Bool

pub record NodePod : Type 0 where
  pub namespace : Text
  pub name : Text
  pub owners : List OwnerReference
  pub has_mirror_annotation : Bool
  pub phase : Text

pub record DrainPod : Type 0 where
  pub namespace : Text
  pub name : Text
  pub owner : Text
  pub reason : Text

pub record DrainPlan : Type 0 where
  pub node : Text
  pub evict : List DrainPod
  pub skip : List DrainPod

pub record EvictResult : Type 0 where
  pub namespace : Text
  pub name : Text
  pub evicted : Bool
  pub reason : Text

pub data Call : Type 0 where
  set_unschedulable : Text → Bool → Call
  list_pods : Text → Call
  evict_pod : Text → Text → Call

pub data Answer (A : Type 0) : Type 0 where
  answered : A → Answer A
  refused : Text → Answer A

pub record Answers : Type 0 where
  pub to_patch : List Call → Answer (Unit {0})
  pub to_list : List Call → Answer (List NodePod)
  pub to_evict : List Call → Answer (Unit {0})

abbrev first_controller : List OwnerReference → Option OwnerReference
first_controller [] = none
first_controller (r ∷ rs) =
    let rest = first_controller rs in if r.is_controller then some r else rest

-- The name and the kind.
unfoldable pub owner_of_pod : List OwnerReference → Text × Text
owner_of_pod [] = ([], [])
owner_of_pod (r ∷ rs) = elim (first_controller (r ∷ rs)) [
  | some c ↦ (c.name, c.kind)
  | none ↦ (r.name, r.kind)
]

unfoldable pub why_it_stays : NodePod → Text → Text
unfolding text_eq
why_it_stays pod owner_kind =
    if text_eq owner_kind (codes "DaemonSet")
    then codes "Managed by a DaemonSet"
    else if pod.has_mirror_annotation
    then codes "Static pod, managed by the kubelet"
    else if text_eq pod.phase (codes "Succeeded") || text_eq pod.phase (codes "Failed")
    then codes "Already finished"
    else []

-- Why the pod stays, under the kind of its own owner.
unfoldable pub stays : NodePod → Text
unfolding why_it_stays owner_of_pod
stays pod = why_it_stays pod ((owner_of_pod pod.owners).1)

unfoldable pub entry_of : NodePod → DrainPod
unfolding owner_of_pod stays
entry_of pod =
    let (owner, owner_kind) = owner_of_pod pod.owners in
    record {
      namespace = pod.namespace;
      name = pod.name;
      owner = if is_empty owner then [] else owner_kind ++ (codes "/" ++ owner);
      reason =
          if not (is_empty (stays pod))
          then stays pod
          else if is_empty owner
          then codes "Nothing will recreate it"
          else [];
    }

-- The loop: what leaves and what stays.
unfoldable pub leaving : List NodePod → List DrainPod
unfolding entry_of stays
leaving [] = []
leaving (p ∷ ps) = let rest = leaving ps in if is_empty (stays p) then entry_of p ∷ rest else rest

unfoldable pub staying : List NodePod → List DrainPod
unfolding entry_of stays
staying [] = []
staying (p ∷ ps) = let rest = staying ps in if is_empty (stays p) then rest else entry_of p ∷ rest

abbrev pub by_name : DrainPod → DrainPod → Bool
by_name a b = text_lt a.name b.name

unfoldable pub plan_of : Text → List NodePod → DrainPlan
unfolding leaving staying text_lt
plan_of node pods = record {
  node = node;
  evict = sort_by by_name (leaving pods);
  skip = sort_by by_name (staying pods);
}

module _ (cluster : Answers) where
  unfoldable pub plan_drain : Text → List Call → Answer DrainPlan × List Call
  unfolding plan_of
  plan_drain node log =
      let log' = log ++ (list_pods node ∷ []) in
      elim (cluster.to_list log) [
        | answered pods ↦ (answered (plan_of node pods), log')
        | refused e ↦ (refused e, log')
      ]

  abbrev result_of : DrainPod → Answer (Unit {0}) → EvictResult
  result_of pod (answered u) = record {
    namespace = pod.namespace;
    name = pod.name;
    evicted = true;
    reason = [];
  }
  result_of pod (refused e) = record {
    namespace = pod.namespace;
    name = pod.name;
    evicted = false;
    reason = e;
  }

  unfoldable pub evict_all : List DrainPod → List Call → List EvictResult × List Call
  evict_all [] log = ([], log)
  evict_all (p ∷ ps) log =
      let (results, log') = evict_all ps (log ++ (evict_pod p.namespace p.name ∷ [])) in
      (result_of p (cluster.to_evict log) ∷ results, log')

  unfoldable pub evict_planned :
      Answer DrainPlan × List Call → Answer (List EvictResult) × List Call
  unfolding evict_all
  evict_planned (answered plan, log) =
      let (results, log') = evict_all plan.evict log in (answered results, log')
  evict_planned (refused e, log) = (refused e, log)

  unfoldable pub drain : Text → List Call → Answer (List EvictResult) × List Call
  unfolding plan_drain evict_planned
  drain node log =
      let log' = log ++ (set_unschedulable node true ∷ []) in
      elim (cluster.to_patch log) [
        | refused e ↦ (refused (codes "cordon " ++ (node ++ (codes ": " ++ e))), log')
        | answered u ↦ evict_planned (plan_drain node log')
      ]
