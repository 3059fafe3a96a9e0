-- ===== src/K8s/Trouble/Marks.antt =====
-- The list's mark, the status column and the health panel agree on a pod
-- (server/internal/k8s/trouble.go).
use kubby.Prelude.{
  ℕ, ◌≤◌, ◌≡◌, refl, ◌↔◌, false, ◌&&◌, none, List, [], ◌∷◌, arith, if◌then◌else◌, is_some, All,
  codes, Text,
}
use kubby.K8s.Trouble.{
  Condition, ContainerStatus, Pod, or_else, is_text, termination_trouble, ended_trouble,
  status_trouble, container_trouble, phase_trouble, pod_trouble, waiting_reason, terminated_reason,
  state_reason, first_state_reason, pod_status,
}
use kubby.K8s.Trouble.Workloads.{conditions_trouble, workload_trouble}

-- The API's promise for a container's state: at most one of its members is set.
abbrev pub IsOneOf : ContainerStatus → Type 0
IsOneOf s = is_some s.waiting && is_some s.terminated ≡ false

-- What `PodTrouble` passes over has no reason of its own.
status_trouble-none :
    (decimal : ℕ → Text) (prefix : Text) (s : ContainerStatus)
    → IsOneOf s
    → status_trouble decimal prefix s ≡ none
    → state_reason s ≡ []
unfolding status_trouble state_reason waiting_reason terminated_reason ended_trouble
    termination_trouble
status_trouble-none decimal prefix s h k = ground arith

container_trouble-none :
    (decimal : ℕ → Text) (prefix : Text) (ss : List ContainerStatus)
    → All IsOneOf ss
    → container_trouble decimal prefix ss ≡ none
    → first_state_reason ss ≡ []
unfolding container_trouble first_state_reason
container_trouble-none decimal prefix [] h k = refl
container_trouble-none decimal prefix (s ∷ ss) h k =
    ground (
      arith,
      status_trouble-none decimal prefix s h.0,
      container_trouble-none decimal prefix ss h.1,
    )

-- Where no container has two states at once, a pod without a mark is settled: it is not evicted, its
-- phase is neither Pending nor Failed, and its status column shows no state of a container but, unless
-- it is being deleted, the pod's own reason or phase.
pod_trouble-none :
    (decimal : ℕ → Text) (pod : Pod)
    → All IsOneOf pod.containers
    → All IsOneOf pod.init_containers
    → pod_trouble decimal pod ≡ none
    → (is_text pod.reason "Evicted" ≡ false)
      × (is_text pod.phase "Pending" ≡ false)
      × (is_text pod.phase "Failed" ≡ false)
      × (pod_status pod
          ≡ (if pod.is_deleting then codes "Terminating" else or_else pod.reason pod.phase))
unfolding pod_trouble pod_status phase_trouble
pod_trouble-none decimal pod h k e = ground (
  arith,
  container_trouble-none decimal [] pod.containers h,
  container_trouble-none decimal (codes "Init container ") pod.init_containers k,
)

-- A workload has no mark exactly if none of its conditions says that something failed and no fewer
-- replicas are ready than wanted.
workload_trouble-none :
    (decimal : ℕ → Text) (cs : List Condition) (desired ready : ℕ)
    → (workload_trouble decimal cs desired ready ≡ none)
      ↔ ((conditions_trouble cs ≡ none) × (desired ≤ ready))
unfolding workload_trouble
workload_trouble-none decimal cs desired ready = ground arith
