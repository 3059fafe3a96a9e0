-- ===== src/K8s/Trouble/Workloads.antt =====
-- server/internal/k8s/trouble.go: what is wrong with a workload. Replica counts are natural numbers.
use kubby.Prelude.{
  ℕ, true, false, ◌&&◌, ◌||◌, Option, none, some, List, [], ◌∷◌, ◌++◌, ltb, ◌==◌, if◌then◌else◌,
  codes, Text, text_eq,
}
use kubby.K8s.Trouble.{
  severity_error, severity_warning, Trouble, Condition, trouble, or_else, is_text,
}

-- A round of the loop over a workload's conditions.
unfoldable pub condition_trouble : Condition → Option Trouble
unfolding text_eq
condition_trouble c =
    if (is_text c.type "Available" && is_text c.status "False")
      || (is_text c.type "ReplicaFailure" && is_text c.status "True")
      || (is_text c.type "Failed" && is_text c.status "True")
    then some (
        trouble (or_else c.reason c.type)
          (or_else c.message (codes "The controller reports it is not available.")) []
          severity_error false)
    else if is_text c.type "Progressing" && is_text c.status "False"
    then some (
        trouble (or_else c.reason (codes "NotProgressing"))
          (or_else c.message (codes "The rollout has stopped making progress.")) [] severity_error
          false)
    else none

unfoldable pub conditions_trouble : List Condition → Option Trouble
unfolding condition_trouble
conditions_trouble [] = none
conditions_trouble (c ∷ cs) =
    let rest = conditions_trouble cs in elim (condition_trouble c) [ some t ↦ some t | none ↦ rest ]

unfoldable pub workload_trouble : (ℕ → Text) → List Condition → ℕ → ℕ → Option Trouble
unfolding conditions_trouble
workload_trouble decimal conditions desired ready = elim (conditions_trouble conditions) [
  | some t ↦ some t
  | none ↦
      if ltb 0 desired && ready == 0
      then some (
          trouble (codes "Unavailable")
            (codes "None of the " ++ (decimal desired ++ codes " wanted replicas are ready.")) []
            severity_error false)
      else if ltb ready desired
      then some (
          trouble (codes "Degraded")
            (decimal ready
              ++ (codes " of "
                  ++ (decimal desired
                      ++ codes " replicas are ready; the rest are starting or failing.")))
            [] severity_warning true)
      else none
]
