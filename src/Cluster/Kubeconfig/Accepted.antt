-- ===== src/Cluster/Kubeconfig/Accepted.antt =====
-- What a kubeconfig that is accepted cannot do (server/internal/cluster/kubeconfig.go).
use kubby.Prelude.{
  ◌≡◌, refl, ◌⊎◌, inl, inr, true, not, none, List, [], ◌∷◌, arith, if◌then◌else◌, Bool-cases,
  Sum-cases, any, All, In, Text, text_eq, is_empty,
}
use kubby.Store.Models.{Bytes}
use kubby.Cluster.Ssrf.{AddressPolicy, Resolver}
use kubby.Cluster.Kubeconfig.{
  AuthInfo, Config, ContextInfo, usable, ParsedKubeconfig, ok, exec_used, parse_kubeconfig,
  context_named, context,
}

-- The user authenticates neither through a command nor through a provider.
abbrev pub IsPlain : Text × AuthInfo → Type 0
IsPlain u = (u.1.exec ≡ none) × (u.1.auth_provider ≡ none)

All-IsPlain :
    (quoted : Text → Text) (us : List (Text × AuthInfo))
    → exec_used quoted us ≡ none
    → All IsPlain us
unfolding exec_used
All-IsPlain quoted [] h = tt
All-IsPlain quoted (u ∷ us) h = (ground (arith, h), All-IsPlain quoted us (ground (arith, h)))

module _ {Ip : Type 0} (net : Resolver Ip) (policy : AddressPolicy)
    (load : Bytes → Text ⊎ Config) where
  -- A kubeconfig that is accepted decodes, no user in it runs a command or asks a provider, whatever
  -- context is picked, and one of the contexts that are listed may be used.
  pub parse_kubeconfig-IsPlain :
      (raw : Bytes) {p : ParsedKubeconfig}
      → parse_kubeconfig net policy load raw ≡ ok p
      → (config : Config) × (load raw ≡ inr config)
        × All IsPlain config.auth_infos
        × (any usable p.contexts ≡ true)
        × (p.raw ≡ raw)
  unfolding parse_kubeconfig
  parse_kubeconfig-IsPlain raw {p} h = elim (Sum-cases (load raw)) [
    | inl (e, l) ↦ absurd (ground (arith, l, h))
    | inr (config, l) ↦ (
      config,
      l,
      All-IsPlain net.quoted config.auth_infos (ground (arith, l, h)),
      ground (arith, l, h),
      ground (arith, l, h),
    )
  ]

context_named-usable :
    (name : Text) (cs : List ContextInfo) {c : ContextInfo}
    → context_named name cs ≡ ok c
    → In c cs × (usable c ≡ true) × (text_eq c.name name ≡ true)
unfolding context_named usable
context_named-usable name [] h = cc
context_named-usable name (d ∷ cs) {c} h = elim (Bool-cases (text_eq d.name name)) [
  | inl e ↦
      let same : d ≡ c = ground (arith, e, h) in
      let open_to_use : not d.blocked ≡ true = ground (arith, e, h) in
      rw (← same) (inl refl, open_to_use, e)
  | inr e ↦
      let (i, u, t) = context_named-usable name cs {c = c} (ground (arith, e, h)) in (inr i, u, t)
]

-- The context that is picked is one of those listed, may be used, and has the name that was asked for,
-- or that of the current context where no name was given.
context-usable :
    (p : ParsedKubeconfig) (name : Text) {c : ContextInfo}
    → context p name ≡ ok c
    → In c p.contexts
      × (usable c ≡ true)
      × (text_eq c.name (if is_empty name then p.current_context else name) ≡ true)
unfolding context
context-usable p name {c} h =
    context_named-usable (if is_empty name then p.current_context else name) p.contexts h
