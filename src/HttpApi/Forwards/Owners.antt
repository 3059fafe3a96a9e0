-- ===== src/HttpApi/Forwards/Owners.antt =====
-- A tunnel is its reader's alone, and is closed when it is let go
-- (server/internal/httpapi/forward_handlers.go).
use kubby.Prelude.{
  ◌≡◌, ap, ◌∙◌, inl, inr, Bool, true, false, ◌&&◌, not, Option, some, List, [], ◌∷◌, arith, ◌==◌,
  Option-cases, any, codes, Text, text_eq, text_eq_iff,
}
use kubby.Store.Models.{Uuid, Time, User}
use kubby.Store.Registry.{Cluster, GrantRow}
use kubby.Cluster.Types.{ResourceType, lookup_type}
use kubby.Store.Flow.{go, Flow-cases}
use kubby.Cluster.WriteGuard.{create}
use kubby.HttpApi.Writes.{Calls, World, authorise_write, request_for}
use kubby.HttpApi.Writes.Gate.{IsPermitted, authorise_write-IsPermitted}
use kubby.HttpApi.Forwards.{
  add, ForwardSession, Registry, is_idle, kept, expire, session_of, get, remove, StartForward,
  Start, new_forward_session, forwarded_port, opened, opening, start_forward,
}
use kubby.HttpApi.Forwards.Lifetime.{session_of-id, session_of-without, session_of-put_self}

-- A session that may be used under this identity by this reader.
abbrev pub is_usable : Time → Text → Uuid → ForwardSession → Bool
is_usable now id owner s = text_eq s.id id && s.owner == owner && not (is_idle now s)

session_of-usable :
    (now : Time) (id : Text) (owner : Uuid) (ss : List ForwardSession) {s : ForwardSession}
    → session_of id (kept now ss) ≡ some s
    → (s.owner == owner) ≡ true
    → any (is_usable now id owner) ss ≡ true
unfolding session_of kept
session_of-usable now id owner [] h e = ground arith
session_of-usable now id owner (x ∷ ss) {s} h e =
    ground (arith, session_of-usable now id owner ss {s = s})

-- What a reader is handed is a session of that identity, which is the reader's own and was used within
-- the last half hour; it counts as used now.
get-usable :
    (now : Time) (id : Text) (owner : Uuid) (reg : Registry) {s : ForwardSession}
    → (get now id owner reg).0 ≡ some s
    → (s.owner ≡ owner)
      × (s.touched ≡ now)
      × (text_eq s.id id ≡ true)
      × (any (is_usable now id owner) reg.sessions ≡ true)
unfolding get expire
get-usable now id owner reg {s} h = elim (Option-cases (session_of id (kept now reg.sessions))) [
  | inl e ↦ absurd (ground (arith, e, h))
  | inr (x, e) ↦ (
    ground (arith, e, h),
    ground (arith, e, h),
    ground (arith, e, h, session_of-id id (kept now reg.sessions) e),
    ground (arith, e, h, session_of-usable now id owner reg.sessions e),
  )
]

-- Stopping a tunnel leaves every session of other readers, whatever identity is asked for.
remove-others :
    (id j : Text) (owner : Uuid) (reg : Registry) {s : ForwardSession}
    → session_of j reg.sessions ≡ some s
    → (s.owner == owner) ≡ false
    → session_of j (remove id owner reg).1.sessions ≡ some s
unfolding remove
remove-others id j owner reg {s} h e = elim (Option-cases (session_of id reg.sessions)) [
  | inl n ↦ ground (arith, n, h)
  | inr (x, f) ↦ ground (
    arith,
    f,
    h,
    session_of-without x.id j reg.sessions,
    text_eq_iff x.id j,
    text_eq_iff x.id id,
    text_eq_iff s.id j,
    session_of-id id reg.sessions f,
    session_of-id j reg.sessions h,
  )
]

module _ (calls : Calls) (global_read_only : Bool) (user : User) (param : Option Uuid) where
  -- The gate let the user create pods in the cluster, under the namespace and the name that were asked for.
  abbrev pub MayOpen : List Cluster → List GrantRow → StartForward → Uuid → Type 0
  MayOpen clusters grants body cluster_id =
      (pods : ResourceType) × (lookup_type (codes "pods") ≡ some pods)
      × ((c : Cluster) × (c.id ≡ cluster_id)
          × IsPermitted calls global_read_only user param clusters grants c
              (request_for pods body.namespace body.name create))

  opening-MayOpen :
      (d : Start) (body : StartForward) (w : World) {s : ForwardSession}
      → (opening calls global_read_only user param d body w).0 ≡ go s
      → (s.owner ≡ user.id) × MayOpen w.db.clusters w.db.grants body s.cluster_id
  unfolding opening new_forward_session
  opening-MayOpen d body w {s} h = elim (Option-cases (forwarded_port body.port)) [
    | inl e ↦ absurd (ground (arith, e, h))
    | inr (n, e) ↦ elim (Option-cases (lookup_type (codes "pods"))) [
      | inl f ↦ absurd (ground (arith, e, f, h))
      | inr (pods, f) ↦
          let request = request_for pods body.namespace body.name create in
          elim (Flow-cases ((authorise_write calls global_read_only user param request w).0)) [
            | inr (x, g) ↦ absurd (ground (arith, e, f, g, h))
            | inl (c, g) ↦ (
              ground (arith, e, f, g, h),
              (
                pods,
                f,
                (
                  c,
                  ground (arith, e, f, g, h),
                  authorise_write-IsPermitted calls global_read_only user param request w g,
                ),
              ),
            )
          ]
    ]
  ]

  -- A tunnel is opened for the reader who asked, in a cluster where every gate let that reader create pods,
  -- and what is opened is what the registry's map then holds under its identity.
  pub start_forward-MayOpen :
      (d : Start) (body : StartForward) (w : World) (reg : Registry) {s : ForwardSession}
      → (start_forward calls global_read_only user param d body w reg).0 ≡ opened s
      → (s.owner ≡ user.id)
        × MayOpen w.db.clusters w.db.grants body s.cluster_id
        × (session_of s.id (start_forward calls global_read_only user param d body w reg).2.sessions
            ≡ some s)
  unfolding start_forward add
  start_forward-MayOpen d body w reg {s} h =
      elim (Flow-cases ((opening calls global_read_only user param d body w).0)) [
        | inr (x, e) ↦ absurd (ground (arith, e, h))
        | inl (t, e) ↦
            let same : t ≡ s = ground (arith, e, h) in
            let may = opening-MayOpen d body w (e ∙ ap go same) in
            (
              may.0,
              may.1,
              ground (arith, e, same, session_of-put_self s (expire d.now reg).sessions),
            )
      ]
