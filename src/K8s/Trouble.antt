-- ===== src/K8s/Trouble.antt =====
-- server/internal/k8s/trouble.go: what is wrong with a pod. Its workloads are in
-- K8s/Trouble/Workloads, and the proofs in K8s/Trouble/Marks.
--
-- An object is the fields that the code reads off it, a missing string being the empty one, and a
-- missing map `none`. An `int` is its 64-bit pattern; printing one is package fmt's: `decimal`.
pub mod Workloads
pub mod Marks
use kubby.Prelude.{
  ℕ, ◌+◌, String, Bool, true, false, ◌&&◌, ◌||◌, not, Option, none, some, List, [], ◌∷◌, ◌++◌, map,
  ltb, leb, ◌==◌, if◌then◌else◌, codes, Text, text_eq, is_empty, has_prefix,
}

pub data Severity : Type 0 where
  severity_error severity_warning : Severity

pub record Trouble : Type 0 where
  pub reason : Text
  pub detail : Text
  pub container : Text
  pub severity : Severity
  pub transient : Bool

pub record Condition : Type 0 where
  pub type : Text
  pub status : Text
  pub reason : Text
  pub message : Text

pub record Waiting : Type 0 where
  pub reason : Text
  pub message : Text

pub record Terminated : Type 0 where
  pub reason : Text
  pub exit_code : ℕ

pub record ContainerStatus : Type 0 where
  pub name : Text
  pub waiting : Option Waiting
  pub terminated : Option Terminated
  pub last_terminated : Option Terminated

pub record Pod : Type 0 where
  pub is_deleting : Bool
  pub reason : Text
  pub phase : Text
  pub message : Text
  pub conditions : List Condition
  pub containers : List ContainerStatus
  pub init_containers : List ContainerStatus

abbrev pub or_else : Text → Text → Text
or_else value fallback = if is_empty value then fallback else value

abbrev pub is_text : Text → String → Bool
is_text t s = text_eq t (codes s)

unfoldable pub waiting_is_normal : Text → Bool
unfolding text_eq
waiting_is_normal reason = is_text reason "ContainerCreating" || is_text reason "PodInitializing"

abbrev pub trouble : Text → Text → Text → Severity → Bool → Trouble
trouble r d c s t = record { reason = r; detail = d; container = c; severity = s; transient = t }

unfoldable pub scheduling_trouble : List Condition → Option Trouble
unfolding text_eq
scheduling_trouble [] = none
scheduling_trouble (c ∷ cs) =
    let rest = scheduling_trouble cs in
    if not (is_text c.type "PodScheduled") || is_text c.status "True"
    then rest
    else some (
        trouble (or_else c.reason (codes "Unschedulable"))
          (or_else c.message (codes "No node can accept this pod.")) [] severity_error false)

unfoldable pub not_ready_trouble : List Condition → Option Trouble
unfolding text_eq
not_ready_trouble [] = none
not_ready_trouble (c ∷ cs) =
    let rest = not_ready_trouble cs in
    if not (is_text c.type "Ready") || is_text c.status "True"
    then rest
    else some (
        trouble (codes "NotReady")
          (or_else c.message
            (codes "Running, but failing its readiness probe, so it receives no traffic."))
          [] severity_warning false)

-- `strings.ToLower` of the first byte, an ASCII letter where it is called.
abbrev lower_first : Text → Text
lower_first [] = []
lower_first (c ∷ s) = (if leb 65 c && leb c 90 then c + 32 else c) ∷ s

unfoldable pub waiting_detail : Text → Text
unfolding text_eq has_prefix
waiting_detail reason =
    if has_prefix reason (codes "ErrImagePull")
      || is_text reason "ImagePullBackOff"
      || is_text reason "InvalidImageName"
    then codes "The image could not be pulled. Check the name, the tag and the pull secret."
    else if is_text reason "CrashLoopBackOff"
    then codes "The container keeps exiting; Kubernetes is backing off before trying again."
    else if is_text reason "CreateContainerConfigError"
    then codes "A referenced ConfigMap, Secret or key is missing."
    else if is_text reason "CreateContainerError"
    then codes "The container could not be created. The kubelet's message says what it objected to."
    else codes "Waiting: " ++ (reason ++ codes ".")

module _ (decimal : ℕ → Text) where
  unfoldable pub explain_exit : Text → ℕ → Text
  unfolding text_eq
  explain_exit reason exit_code =
      if is_text reason "OOMKilled"
      then codes "Killed for exceeding its memory limit."
      else if is_text reason "Error" && exit_code == 1
      then codes "The process exited with code 1. Its last log lines say why."
      else if exit_code == 137
      then codes "Exit code 137: killed by SIGKILL, most often the memory limit."
      else if exit_code == 143
      then codes "Exit code 143: terminated by SIGTERM during shutdown."
      else if not (exit_code == 0)
      then codes "The process exited with code " ++ (decimal exit_code ++ codes ".")
      else or_else reason (codes "The container stopped.")

  unfoldable pub termination_trouble : Terminated → Text → Text → Bool → Option Trouble
  unfolding explain_exit text_eq
  termination_trouble t name prefix past =
      let told = explain_exit t.reason t.exit_code in
      if is_text t.reason "Completed" || (is_empty t.reason && t.exit_code == 0)
      then none
      else if past && not (is_text t.reason "OOMKilled")
      then none
      else some (
          trouble (or_else t.reason (codes "Exit " ++ decimal t.exit_code))
            (prefix ++ (if past then codes "Was " ++ lower_first told else told)) name
            severity_error false)

  -- The part of a round that a `terminated` or a `lastState` decides.
  unfoldable pub ended_trouble : Text → Text → Option Terminated → Bool → Option Trouble
  unfolding termination_trouble
  ended_trouble name prefix none past = none
  ended_trouble name prefix (some t) past = termination_trouble t name prefix past

  -- A round of the loop over the statuses: none where it goes on to the next.
  unfoldable pub status_trouble : Text → ContainerStatus → Option Trouble
  unfolding ended_trouble waiting_is_normal waiting_detail
  status_trouble prefix s = elim s.waiting [
    | some w ↦
        if is_empty w.reason || waiting_is_normal w.reason
        then none
        else some (
            trouble w.reason (prefix ++ or_else w.message (waiting_detail w.reason)) s.name
              severity_error false)
    | none ↦ elim (ended_trouble s.name prefix s.terminated false) [
      | some t ↦ some t
      | none ↦ ended_trouble s.name prefix s.last_terminated true
    ]
  ]

  unfoldable pub container_trouble : Text → List ContainerStatus → Option Trouble
  unfolding status_trouble
  container_trouble prefix [] = none
  container_trouble prefix (s ∷ ss) =
      let rest = container_trouble prefix ss in
      elim (status_trouble prefix s) [ some t ↦ some t | none ↦ rest ]

  -- What the phase alone says.
  unfoldable pub phase_trouble : Pod → Option Trouble
  unfolding not_ready_trouble text_eq
  phase_trouble pod =
      if is_text pod.phase "Failed"
      then some (
          trouble (or_else pod.reason (codes "Failed"))
            (or_else pod.message (codes "The pod ran and did not succeed.")) [] severity_error
            false)
      else if is_text pod.phase "Pending"
      then some (
          trouble (codes "Pending")
            (codes "Waiting to be scheduled or for its containers to be created.") []
            severity_warning true)
      else if is_text pod.phase "Running"
      then not_ready_trouble pod.conditions
      else none

  abbrev pub or_next : Option Trouble → Option Trouble → Option Trouble
  or_next none next = next
  or_next (some t) next = some t

  unfoldable pub pod_trouble : Pod → Option Trouble
  unfolding scheduling_trouble container_trouble phase_trouble text_eq
  pod_trouble pod =
      if is_text pod.reason "Evicted"
      then some (
          trouble (codes "Evicted") (or_else pod.message (codes "The node evicted this pod.")) []
            severity_warning false)
      else or_next (if is_text pod.phase "Pending" then scheduling_trouble pod.conditions else none)
          (or_next (container_trouble [] pod.containers) (
            or_next (container_trouble (codes "Init container ") pod.init_containers)
              (phase_trouble pod)))

-- The reason of a state that is worth more than the phase; empty where there is none.
unfoldable pub waiting_reason : Option Waiting → Text
unfolding waiting_is_normal
waiting_reason none = []
waiting_reason (some w) = if waiting_is_normal w.reason then [] else w.reason

unfoldable pub terminated_reason : Option Terminated → Text
unfolding text_eq
terminated_reason none = []
terminated_reason (some t) = if is_text t.reason "Completed" then [] else t.reason

unfoldable pub state_reason : ContainerStatus → Text
unfolding waiting_reason terminated_reason
state_reason s = or_else (waiting_reason s.waiting) (terminated_reason s.terminated)

unfoldable pub first_state_reason : List ContainerStatus → Text
unfolding state_reason
first_state_reason [] = []
first_state_reason (s ∷ ss) = or_else (state_reason s) (first_state_reason ss)

unfoldable pub pod_status : Pod → Text
unfolding first_state_reason
pod_status pod =
    if pod.is_deleting
    then codes "Terminating"
    else or_else (first_state_reason pod.init_containers)
        (or_else (first_state_reason pod.containers) (or_else pod.reason pod.phase))
