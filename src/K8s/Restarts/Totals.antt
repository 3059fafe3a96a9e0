-- ===== src/K8s/Restarts/Totals.antt =====
-- The three counts of a restart summary are those of its details
-- (server/internal/k8s/restarts.go).
use kubby.Prelude.{ℕ, ◌≡◌, refl, List, [], ◌∷◌, ◌++◌, arith, if◌then◌else◌}
use kubby.K8s.Containers.{ContainerRole, app, sidecar, initial, role_eq, Classifier}
use kubby.K8s.Restarts.{
  ContainerRestarts, RestartSummary, add32, no_restarts, add_container, add_initial, add_all,
  summarise,
}

-- The restarts of one role among the details, as an int32.
unfoldable pub total_of : ContainerRole → List ContainerRestarts → ℕ
total_of k [] = 0
total_of k (r ∷ rs) =
    let rest = total_of k rs in if role_eq r.role k then add32 r.count rest else rest

-- The counts agree with the details.
abbrev pub IsTallied : RestartSummary → Type 0
IsTallied s =
    (s.own ≡ total_of app s.details)
    × (s.platform ≡ total_of sidecar s.details)
    × (s.before_start ≡ total_of initial s.details)

total_of-append_one :
    (k : ContainerRole) (rs : List ContainerRestarts) (r : ContainerRestarts)
    → total_of k (rs ++ (r ∷ []))
      ≡ (if role_eq r.role k then add32 (total_of k rs) r.count else total_of k rs)
unfolding total_of
total_of-append_one k [] r = ground arith
total_of-append_one k (x ∷ rs) r = ground (arith, total_of-append_one k rs r)

add_all-IsTallied :
    (add : RestartSummary → ContainerRestarts → RestartSummary)
    → ((s : RestartSummary) (r : ContainerRestarts) → IsTallied s → IsTallied (add s r))
    → (s : RestartSummary) (rs : List ContainerRestarts) → IsTallied s
    → IsTallied (add_all add s rs)
unfolding add_all
add_all-IsTallied add step s [] h = h
add_all-IsTallied add step s (r ∷ rs) h = add_all-IsTallied add step (add s r) rs (step s r h)

add_initial-IsTallied :
    (s : RestartSummary) (r : ContainerRestarts) → IsTallied s → IsTallied (add_initial s r)
unfolding add_initial role_eq
add_initial-IsTallied s r h = ground (
  arith,
  total_of-append_one app s.details (record r { role = initial }),
  total_of-append_one sidecar s.details (record r { role = initial }),
  total_of-append_one initial s.details (record r { role = initial }),
)

add_container-IsTallied :
    (c : Classifier) (s : RestartSummary) (r : ContainerRestarts)
    → IsTallied s
    → IsTallied (add_container c s r)
unfolding add_container role_eq
add_container-IsTallied c s r h = ground (
  arith,
  total_of-append_one app s.details (record r { role = app }),
  total_of-append_one sidecar s.details (record r { role = app }),
  total_of-append_one initial s.details (record r { role = app }),
  total_of-append_one app s.details (record r { role = sidecar }),
  total_of-append_one sidecar s.details (record r { role = sidecar }),
  total_of-append_one initial s.details (record r { role = sidecar }),
)

-- The summary of a pod is consistent: each of its three counts is the sum, as an int32, of the counts
-- of the details of that role.
summarise-IsTallied :
    (c : Classifier) (containers inits : List ContainerRestarts)
    → IsTallied (summarise c containers inits)
unfolding summarise total_of
summarise-IsTallied c containers inits =
    add_all-IsTallied add_initial add_initial-IsTallied
      (add_all (add_container c) no_restarts containers) inits
      (add_all-IsTallied (add_container c) (add_container-IsTallied c) no_restarts containers
        (refl, refl, refl))
