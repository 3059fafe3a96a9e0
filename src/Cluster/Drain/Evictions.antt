-- ===== src/Cluster/Drain/Evictions.antt =====
-- What the drain of a node asks of the cluster (server/internal/cluster/drain.go).
use mathlib.Core.List.{append_assoc, append-nil, Perm, perm_middle}
use mathlib.Core.List.Perm
use kubby.Prelude.{
  ◌≡◌, refl, sym, ◌∙◌, ◌⊎◌, inl, inr, Bool, true, false, List, [], ◌∷◌, ◌++◌, map, arith,
  if◌then◌else◌, Bool-cases, All, In, Text, is_empty, perm-sort_by, All-sort_by,
}
use kubby.Cluster.Drain.{
  Answer, EvictResult, NodePod, DrainPod, Call, set_unschedulable, list_pods, evict_pod, answered,
  refused, Answers, stays, entry_of, leaving, staying, by_name, plan_of, plan_drain, evict_all,
  evict_planned, drain,
}

-- The evictions that a plan asks for, in its order.
unfoldable pub evictions : List DrainPod → List Call
evictions [] = []
evictions (p ∷ ps) = evict_pod p.namespace p.name ∷ evictions ps

evict_all-calls :
    (cluster : Answers) (ps : List DrainPod) (log : List Call)
    → (evict_all cluster ps log).1 ≡ log ++ evictions ps
unfolding evict_all evictions
evict_all-calls cluster [] log = sym (append-nil log)
evict_all-calls cluster (p ∷ ps) log =
    evict_all-calls cluster ps (log ++ (evict_pod p.namespace p.name ∷ []))
    ∙ append_assoc log (evict_pod p.namespace p.name ∷ []) (evictions ps)

-- The pod is one of the node's and nothing says that it stays.
abbrev pub IsMovable : List NodePod → DrainPod → Type 0
IsMovable pods d =
    (p : NodePod) × In p pods × (stays p ≡ []) × (d.namespace ≡ p.namespace) × (d.name ≡ p.name)

nil_of-is_empty : (s : Text) → is_empty s ≡ true → s ≡ []
nil_of-is_empty [] h = refl
nil_of-is_empty (c ∷ s) h = cc

leaving-IsMovable :
    (pods ps : List NodePod)
    → ((p : NodePod) → In p ps → In p pods)
    → All (IsMovable pods) (leaving ps)
unfolding leaving entry_of
leaving-IsMovable pods [] f = tt
leaving-IsMovable pods (p ∷ ps) f = elim (Bool-cases (is_empty (stays p))) [
  | inl e ↦ rw e (
    (p, f p (inl refl), nil_of-is_empty (stays p) e, refl, refl),
    leaving-IsMovable pods ps (λ q h. f q (inr h)),
  )
  | inr e ↦ rw e (leaving-IsMovable pods ps (λ q h. f q (inr h)))
]

pick-Perm :
    (b : Bool) (d : DrainPod) (xs ys zs : List DrainPod)
    → Perm (xs ++ ys) zs
    → Perm ((if b then d ∷ xs else xs) ++ (if b then ys else d ∷ ys)) (d ∷ zs)
pick-Perm true d xs ys zs h = Perm.cons d h
pick-Perm false d xs ys zs h = Perm.trans (perm_middle {a = d} xs ys) (Perm.cons d h)

leaving_staying-Perm :
    (pods : List NodePod) → Perm (leaving pods ++ staying pods) (map entry_of pods)
unfolding leaving staying
leaving_staying-Perm [] = Perm.refl []
leaving_staying-Perm (p ∷ ps) =
    pick-Perm (is_empty (stays p)) (entry_of p) (leaving ps) (staying ps) (map entry_of ps)
      (leaving_staying-Perm ps)

-- A plan evicts only pods of the node that do not stay; between the pods it evicts and those it skips
-- it names every pod of the node once.
plan_of-partition :
    (node : Text) (pods : List NodePod)
    → All (IsMovable pods) ((plan_of node pods).evict)
      × Perm ((plan_of node pods).evict ++ (plan_of node pods).skip) (map entry_of pods)
unfolding plan_of
plan_of-partition node pods = (
  All-sort_by by_name (IsMovable pods) (leaving pods) (leaving-IsMovable pods pods (λ p h. h)),
  Perm.trans
      (Perm.append (perm-sort_by by_name (leaving pods)) (perm-sort_by by_name (staying pods)))
      (leaving_staying-Perm pods),
)

-- The results are the pods, in their order and each once, and each says what the cluster answered when
-- it was asked to evict that pod.
unfoldable pub IsReported : Answers → List Call → List DrainPod → List EvictResult → Type 0
IsReported cluster log [] rs = rs ≡ []
IsReported cluster log (p ∷ ps) rs =
    (r : EvictResult) × (rest : List EvictResult) × (rs ≡ r ∷ rest)
    × (r.namespace ≡ p.namespace)
    × (r.name ≡ p.name)
    × (((r.evicted ≡ true) × (cluster.to_evict log ≡ answered tt))
        ⊎ ((r.evicted ≡ false) × (cluster.to_evict log ≡ refused r.reason)))
    × IsReported cluster (log ++ (evict_pod p.namespace p.name ∷ [])) ps rest

pub answer-cases :
    {A : Type 0} (a : Answer A) → ((x : A) × (a ≡ answered x)) ⊎ ((e : Text) × (a ≡ refused e))
answer-cases (answered x) = inl (x, refl)
answer-cases (refused e) = inr (e, refl)

evict_all-IsReported :
    (cluster : Answers) (ps : List DrainPod) (log : List Call)
    → IsReported cluster log ps (evict_all cluster ps log).0
unfolding evict_all IsReported
evict_all-IsReported cluster [] log = refl
evict_all-IsReported cluster (p ∷ ps) log =
    let log' = log ++ (evict_pod p.namespace p.name ∷ []) in
    let rest = evict_all-IsReported cluster ps log' in
    elim (answer-cases (cluster.to_evict log)) [
      | inl (u, e) ↦ rw e (_, _, refl, refl, refl, inl (refl, refl), rest)
      | inr (text, e) ↦ rw e (_, _, refl, refl, refl, inr (refl, refl), rest)
    ]

-- Once the node is cordoned and its pods are listed, a drain asks to evict each pod of the plan once,
-- in the plan's order, whatever the cluster answers to an eviction, and returns one result for each of
-- them in that order: the pod was evicted, or why it was not, as the cluster answered that eviction.
pub drain-calls :
    (cluster : Answers) (node : Text) (log : List Call) (pods : List NodePod)
    → cluster.to_patch log ≡ answered tt
    → cluster.to_list (log ++ (set_unschedulable node true ∷ [])) ≡ answered pods
    → ((drain cluster node log).1
        ≡ log
          ++ (set_unschedulable node true ∷ list_pods node ∷ evictions ((plan_of node pods).evict)))
      × ((rs : List EvictResult) × ((drain cluster node log).0 ≡ answered rs)
          × IsReported cluster
              (log ++ (set_unschedulable node true ∷ list_pods node ∷ []))
              ((plan_of node pods).evict)
              rs)
unfolding drain plan_drain evict_planned
drain-calls cluster node log pods h k =
    let asked = (log ++ (set_unschedulable node true ∷ [])) ++ (list_pods node ∷ []) in
    let same = append_assoc log (set_unschedulable node true ∷ []) (list_pods node ∷ []) in
    (
      ground (
        arith,
        evict_all-calls cluster ((plan_of node pods).evict) asked,
        same,
        append_assoc log (set_unschedulable node true ∷ list_pods node ∷ [])
            (evictions ((plan_of node pods).evict)),
      ),
      (
        (evict_all cluster ((plan_of node pods).evict) asked).0,
        ground (arith, h, k),
        rw (← same) (evict_all-IsReported cluster ((plan_of node pods).evict) asked),
      ),
    )

-- A drain that is refused the cordon, or the list of pods, has evicted nothing.
drain-refused :
    (cluster : Answers) (node : Text) (log : List Call) {e : Text}
    → (drain cluster node log).0 ≡ refused e
    → ((drain cluster node log).1 ≡ log ++ (set_unschedulable node true ∷ []))
      ⊎ ((drain cluster node log).1 ≡ log ++ (set_unschedulable node true ∷ list_pods node ∷ []))
unfolding drain plan_drain evict_planned
drain-refused cluster node log {e} h =
    ground (arith, append_assoc log (set_unschedulable node true ∷ []) (list_pods node ∷ []))
