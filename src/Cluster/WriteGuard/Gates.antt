-- ===== src/Cluster/WriteGuard/Gates.antt =====
-- What passes the gates before a write (server/internal/cluster/write_guard.go).
use kubby.Prelude.{
  ◌≡◌, ◌↔◌, ◌⊎◌, inl, inr, Bool, true, false, ◌||◌, not, some, List, [], ◌∷◌, ◌++◌, arith,
  if◌then◌else◌, Option-cases,
}
use kubby.Cluster.WriteGuard.{
  WriteRequest, Permission, allowed, Review, Api, verdict, check_write, argocd, flux, GitOpsOwner,
  Labels, argo_sync_disabled, owner_of,
}

-- A write is allowed exactly if Kubby is not read-only, the role may write, the cluster is not
-- locked, a client can be made, and the cluster's own review of this request allows it.
pub check_write_allowed :
    (api : Api) (read_only : Bool) (req : WriteRequest) (perm : Permission)
    (asked : List WriteRequest)
    → ((check_write api read_only req perm asked).0 ≡ verdict allowed) ↔ (
        (perm.global_read_only ≡ false)
        × (perm.may_write ≡ true)
        × (read_only ≡ false)
        × (api.has_config ≡ true)
        × (api.has_client ≡ true)
        × ((r : Review) × (api.review req ≡ some r) × (r.is_allowed ≡ true)))
unfolding check_write
check_write_allowed api read_only req perm asked = elim (Option-cases (api.review req)) [
  | inl e ↦ (λ h. absurd (ground arith), λ (_, _, _, _, _, (r, found, _)). absurd (ground arith))
  | inr (r, e) ↦ (
    λ h. (
      ground arith,
      ground arith,
      ground arith,
      ground arith,
      ground arith,
      (r, e, ground arith),
    ),
    λ (a, b, c, f, g, (v, found, good)). ground arith,
  )
]

-- The cluster is asked at most once, about this very request, and only where no lock and no missing
-- right refuses the write already.
check_write_asks :
    (api : Api) (read_only : Bool) (req : WriteRequest) (perm : Permission)
    (asked : List WriteRequest)
    → (check_write api read_only req perm asked).1 ≡ (
        if perm.global_read_only
          || not perm.may_write
          || read_only
          || not api.has_config
          || not api.has_client
        then asked
        else asked ++ req ∷ [])
unfolding check_write
check_write_asks api read_only req perm asked = ground arith

-- An owner is Argo CD, which will revert a change unless the object opts out, or Flux, which will in
-- any case.
owner_of_self_heal :
    (labels annotations : Labels) {owner : GitOpsOwner}
    → owner_of labels annotations ≡ some owner
    → ((owner.controller ≡ argocd) × (owner.self_heal ≡ not (argo_sync_disabled annotations)))
      ⊎ ((owner.controller ≡ flux) × (owner.self_heal ≡ true))
unfolding owner_of
owner_of_self_heal labels annotations h = ground arith
