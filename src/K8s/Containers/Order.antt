-- ===== src/K8s/Containers/Order.antt =====
-- How the containers of a pod are grouped and which one a view opens
-- (server/internal/k8s/containers.go).
use mathlib.Core.List.{Perm, append-nil, append_assoc}
use mathlib.Core.List.Perm
use kubby.Prelude.{
  ◌≡◌, refl, inl, inr, some, List, [], ◌∷◌, ◌++◌, map, arith, if◌then◌else◌, Bool-cases, Text,
  text_lt, insert_by, sort_by, perm-sort_by,
}
use kubby.K8s.Containers.{
  app, sidecar, initial, role_eq, Container, container, Classifier, is_sidecar, role_of, classify,
  first_app, default_container, is_before, ordered,
}

-- The names of the pod's own containers and of the platform's, in the order of the pod.
unfoldable pub own_names : Classifier → List Text → List Text
own_names c [] = []
own_names c (n ∷ ns) = let rest = own_names c ns in if is_sidecar c n then rest else n ∷ rest

unfoldable pub platform_names : Classifier → List Text → List Text
platform_names c [] = []
platform_names c (n ∷ ns) =
    let rest = platform_names c ns in if is_sidecar c n then n ∷ rest else rest

abbrev grouped : List Text → List Text → List Container
grouped xs ys = map (container app) xs ++ map (container sidecar) ys

insert_app :
    (x : Text) (xs ys : List Text)
    → insert_by is_before (container app x) (grouped xs ys) ≡ grouped (insert_by text_lt x xs) ys
unfolding insert_by is_before role_eq
insert_app x [] [] = refl
insert_app x [] (y ∷ ys) = refl
insert_app x (z ∷ xs) ys = ground (arith, insert_app x xs ys)

insert_sidecar :
    (x : Text) (xs ys : List Text)
    → insert_by is_before (container sidecar x) (grouped xs ys)
      ≡ grouped xs (insert_by text_lt x ys)
unfolding insert_by is_before role_eq
insert_sidecar x [] [] = refl
insert_sidecar x [] (y ∷ ys) = ground (arith, insert_sidecar x [] ys)
insert_sidecar x (z ∷ xs) ys = rw (insert_sidecar x xs ys) refl

sort_by-classified :
    (c : Classifier) (ns : List Text)
    → sort_by is_before (map (λ n. container (role_of c n) n) ns)
      ≡ grouped (sort_by text_lt (own_names c ns)) (sort_by text_lt (platform_names c ns))
unfolding sort_by own_names platform_names
sort_by-classified c [] = refl
sort_by-classified c (n ∷ ns) = elim (Bool-cases (is_sidecar c n)) [
  | inl e ↦
      rw (e, sort_by-classified c ns)
        (insert_sidecar n (sort_by text_lt (own_names c ns))
          (sort_by text_lt (platform_names c ns)))
  | inr e ↦
      rw (e, sort_by-classified c ns)
        (insert_app n (sort_by text_lt (own_names c ns)) (sort_by text_lt (platform_names c ns)))
]

-- The one sort of `Ordered` by role and name yields three groups: the pod's own containers by name,
-- those of the platform by name, and the init containers in the order they were given.
ordered-groups :
    (c : Classifier) (containers inits : List Text)
    → ordered c containers inits
      ≡ map (container app) (sort_by text_lt (own_names c containers))
        ++ (map (container sidecar) (sort_by text_lt (platform_names c containers))
            ++ map (container initial) inits)
unfolding ordered classify
ordered-groups c containers inits =
    rw
      (
        append-nil (map (λ n. container (role_of c n) n) containers),
        sort_by-classified c containers,
      )
      (append_assoc (map (container app) (sort_by text_lt (own_names c containers)))
        (map (container sidecar) (sort_by text_lt (platform_names c containers)))
        (map (container initial) inits))

-- Nothing is lost: the listed containers are those classified, in another order.
ordered-Perm :
    (c : Classifier) (containers inits : List Text)
    → Perm (ordered c containers inits) (classify c containers inits)
unfolding ordered classify
ordered-Perm c containers inits =
    rw (append-nil (map (λ n. container (role_of c n) n) containers)) (
      Perm.append_right (map (container initial) inits)
        (perm-sort_by is_before (map (λ n. container (role_of c n) n) containers)))

first_app-own :
    (c : Classifier) (ns : List Text) {x : Text} {xs : List Text}
    → own_names c ns ≡ x ∷ xs
    → first_app c ns ≡ some x
unfolding first_app own_names
first_app-own c [] h = cc
first_app-own c (n ∷ ns) {x} {xs} h = ground (arith, first_app-own c ns {x = x} {xs = xs})

-- A view opens one of the pod's own containers wherever the pod has one: the first of them.
default_container-own :
    (c : Classifier) (x : Text) (containers xs : List Text)
    → own_names c containers ≡ x ∷ xs
    → default_container c containers ≡ x
unfolding default_container first_app own_names
default_container-own c x [] xs h = cc
default_container-own c x (n ∷ ns) xs h =
    let e : first_app c (n ∷ ns) ≡ some x = first_app-own c (n ∷ ns) h in
    rw (e, default_container) refl
