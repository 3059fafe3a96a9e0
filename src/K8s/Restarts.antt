-- ===== src/K8s/Restarts.antt =====
-- server/internal/k8s/restarts.go: what a pod's restarts say. The proofs are in K8s/Restarts/Totals.
--
-- An int32 is its 32-bit pattern, so additions wrap. Printing a number is package fmt's: `decimal`.
-- A time of a termination is a text.
pub mod Totals
use kubby.Prelude.{
  ℕ, ◌+◌, ◌%◌, ◌^◌, Bool, ◌&&◌, not, Option, none, some, List, [], ◌∷◌, ◌++◌, ltb, ◌==◌,
  if◌then◌else◌, codes, Text, text_eq,
}
use kubby.K8s.Containers.{ContainerRole, app, sidecar, initial, Classifier, is_sidecar}

pub record Termination : Type 0 where
  pub reason : Text
  pub exit_code : ℕ
  pub signal : ℕ
  pub message : Text
  pub started_at : Text
  pub finished_at : Text

pub record ContainerRestarts : Type 0 where
  pub name : Text
  pub role : ContainerRole
  pub count : ℕ
  pub last : Option Termination

pub record RestartSummary : Type 0 where
  pub own : ℕ
  pub platform : ℕ
  pub before_start : ℕ
  pub details : List ContainerRestarts

abbrev pub add32 : ℕ → ℕ → ℕ
add32 a b = (a + b) % 2 ^ 32

-- `> 0` on an int32.
abbrev pub is_positive32 : ℕ → Bool
is_positive32 n = ltb 0 n && ltb n (2 ^ 31)

unfoldable pub explain : (ℕ → Text) → Option Termination → Text
unfolding text_eq
explain decimal none = []
explain decimal (some t) =
    if text_eq t.reason (codes "OOMKilled")
    then codes "Killed for exceeding its memory limit."
    else if text_eq t.reason (codes "Completed") && t.exit_code == 0
    then codes "Exited normally."
    else if t.signal == 9
    then codes "Killed (SIGKILL) — usually the node or an operator, not the process itself."
    else if t.signal == 15
    then codes "Terminated (SIGTERM) — a shutdown it did not finish in time."
    else if t.exit_code == 1
    then codes "Exited with code 1: the process failed. Its last log lines say why."
    else if t.exit_code == 137
    then codes "Exit code 137: killed by SIGKILL, most often the memory limit."
    else if t.exit_code == 143
    then codes "Exit code 143: terminated by SIGTERM during shutdown."
    else if not (t.exit_code == 0)
    then codes "Exited with code " ++ (decimal t.exit_code ++ codes ".")
    else []

abbrev pub no_restarts : RestartSummary
no_restarts = record { own = 0; platform = 0; before_start = 0; details = [] }

-- A round of the first loop.
unfoldable pub add_container : Classifier → RestartSummary → ContainerRestarts → RestartSummary
unfolding is_sidecar
add_container c s r =
    if is_sidecar c r.name
    then record s {
      platform = add32 s.platform r.count;
      details = s.details ++ (record r { role = sidecar } ∷ []);
    }
    else record s {
      own = add32 s.own r.count;
      details = s.details ++ (record r { role = app } ∷ []);
    }

-- A round of the second loop.
unfoldable pub add_initial : RestartSummary → ContainerRestarts → RestartSummary
add_initial s r = record s {
  before_start = add32 s.before_start r.count;
  details = s.details ++ (record r { role = initial } ∷ []);
}

unfoldable pub add_all :
    (RestartSummary → ContainerRestarts → RestartSummary)
    → RestartSummary
    → List ContainerRestarts
    → RestartSummary
add_all add s [] = s
add_all add s (r ∷ rs) = add_all add (add s r) rs

unfoldable pub summarise :
    Classifier → List ContainerRestarts → List ContainerRestarts → RestartSummary
unfolding add_container add_initial add_all
summarise c containers init_containers =
    add_all add_initial
      (add_all (add_container c) (record { own = 0; platform = 0; before_start = 0; details = [] })
        containers)
      init_containers

-- The count and the note.
unfoldable pub badge : (ℕ → Text) → RestartSummary → ℕ × Text
badge decimal s =
    if is_positive32 s.platform
    then (s.own, codes "+" ++ (decimal s.platform ++ codes " sidecar"))
    else (s.own, [])
