-- ===== src/Cluster/Kubeconfig.antt =====
-- server/internal/cluster/kubeconfig.go: what is accepted of a pasted kubeconfig. The proofs are in
-- Cluster/Kubeconfig/Accepted.
--
-- `load` is clientcmd.Load: it decodes the text, or gives the text of an error. Its maps are lists of
-- names with what they hold, a context that is null being none. An error is its kind with its text.
pub mod Accepted
use kubby.Prelude.{
  ℕ, ◌⊎◌, inl, inr, Bool, true, ◌&&◌, ◌||◌, not, Option, none, some, List, [], ◌∷◌, ◌++◌, ltb,
  if◌then◌else◌, length, any, codes, Text, text_eq, is_empty, contains, text_lt, sort_by,
}
use kubby.Store.Models.{Bytes}
use kubby.Cluster.Ssrf.{
  AddressPolicy, Resolver, ResolvedEndpoint, allowed, refused, validate_server_url,
}
use kubby.Cluster.Ssrf

pub record ContextEntry : Type 0 where
  pub cluster : Text
  pub auth_info : Text
  pub namespace : Text

pub record ClusterEntry : Type 0 where
  pub server : Text
  pub insecure_skip_tls_verify : Bool
  pub certificate_authority_data : Bytes
  pub certificate_authority : Text

-- `exec` holds the command of an exec plugin, and `auth_provider` the provider's name.
pub record AuthInfo : Type 0 where
  pub exec : Option Text
  pub auth_provider : Option Text
  pub token : Text
  pub token_file : Text
  pub client_certificate_data : Bytes
  pub client_certificate : Text
  pub username : Text

pub record Config : Type 0 where
  pub contexts : List (Text × Option ContextEntry)
  pub clusters : List (Text × ClusterEntry)
  pub auth_infos : List (Text × AuthInfo)
  pub current_context : Text

pub record ContextInfo : Type 0 where
  pub name : Text
  pub cluster_name : Text
  pub user_name : Text
  pub server : Text
  pub namespace : Text
  pub auth_method : Text
  pub insecure_skip_tls_verify : Bool
  pub has_certificate_authority : Bool
  pub blocked : Bool
  pub problem : Text

unfoldable pub usable : ContextInfo → Bool
usable c = not c.blocked

pub record ParsedKubeconfig : Type 0 where
  pub contexts : List ContextInfo
  pub current_context : Text
  pub raw : Bytes

pub data KubeconfigError : Type 0 where
  exec_plugin_used blocked_address no_contexts unknown_context invalid_kubeconfig :
      Text → KubeconfigError

pub data Outcome (A : Type 0) : Type 0 where
  ok : A → Outcome A
  err : KubeconfigError → Outcome A

abbrev max_kubeconfig_bytes : ℕ
max_kubeconfig_bytes = 262144

abbrev pub entry {ℓ} : {A : Type ℓ} → Text → List (Text × A) → Option A
entry key [] = none
entry key (e ∷ es) = let rest = entry key es in if text_eq key e.0 then some e.1 else rest

-- The loop over the users.
unfoldable pub exec_used : (Text → Text) → List (Text × AuthInfo) → Option Text
exec_used quoted [] = none
exec_used quoted (u ∷ us) =
    let rest = exec_used quoted us in
    elim u.1.exec [
      | some command ↦ some (
          codes "user "
          ++ (quoted u.0
              ++ (codes " uses an exec plugin (command " ++ (quoted command ++ codes ")"))))
      | none ↦ elim u.1.auth_provider [
        | some provider ↦ some (
            codes "user "
            ++ (quoted u.0
                ++ (codes " uses auth provider "
                    ++ (quoted provider ++ codes ", which is not supported"))))
        | none ↦ rest
      ]
    ]

unfoldable pub auth_method : Option AuthInfo → Text
auth_method none = codes "none"
auth_method (some u) =
    if not (is_empty u.token) || not (is_empty u.token_file)
    then codes "token"
    else if not (is_empty u.client_certificate_data) || not (is_empty u.client_certificate)
    then codes "client-certificate"
    else if not (is_empty u.username)
    then codes "basic"
    else codes "none"

-- The text of the problem; empty where the address is accepted.
abbrev problem_of : {Ip : Type 0} → Ssrf.Outcome (ResolvedEndpoint Ip) → Text
problem_of (allowed e) = []
problem_of (refused t) = t

-- Every refusal wraps ErrBlockedAddress; one that says that the name does not resolve does not block.
abbrev blocks : Text → Bool
blocks problem = not (is_empty problem) && not (contains problem (codes "cannot resolve"))

module _ {Ip : Type 0} (net : Resolver Ip) (policy : AddressPolicy) where
  abbrev described : Config → Text → ContextEntry → ClusterEntry → ContextInfo
  described config name c k =
      let problem = problem_of (validate_server_url net policy k.server) in
      record {
        name = name;
        cluster_name = c.cluster;
        user_name = c.auth_info;
        server = k.server;
        namespace = c.namespace;
        auth_method = auth_method (entry c.auth_info config.auth_infos);
        insecure_skip_tls_verify = k.insecure_skip_tls_verify;
        has_certificate_authority =
            not (is_empty k.certificate_authority_data) || not (is_empty k.certificate_authority);
        blocked = blocks problem;
        problem = problem;
      }

  unfoldable pub describe_context : Config → Text × Option ContextEntry → Outcome ContextInfo
  unfolding auth_method validate_server_url contains text_eq
  describe_context config (name, none) = err (unknown_context [])
  describe_context config (name, some c) = elim (entry c.cluster config.clusters) [
    | none ↦ err (
        invalid_kubeconfig (
          codes "context "
          ++ (net.quoted name ++ (codes " references unknown cluster " ++ net.quoted c.cluster))))
    | some k ↦ ok (described config name c k)
  ]

  -- The loop over the sorted names.
  unfoldable pub describe_all :
      Config → List (Text × Option ContextEntry) → Outcome (List ContextInfo)
  unfolding describe_context
  describe_all config [] = ok []
  describe_all config (c ∷ cs) =
      let rest = describe_all config cs in
      elim (describe_context config c) [
        | err e ↦ err e
        | ok info ↦ elim rest [ err e ↦ err e | ok infos ↦ ok (info ∷ infos) ]
      ]

  abbrev reasons : List ContextInfo → Text
  reasons [] = []
  reasons (c ∷ []) = c.name ++ (codes ": " ++ c.problem)
  reasons (c ∷ d ∷ cs) = c.name ++ (codes ": " ++ (c.problem ++ (codes "; " ++ reasons (d ∷ cs))))

  abbrev with_contexts : Config → Bytes → Outcome (List ContextInfo) → Outcome ParsedKubeconfig
  with_contexts config raw (err e) = err e
  with_contexts config raw (ok infos) =
      if any usable infos
      then ok (record { contexts = infos; current_context = config.current_context; raw = raw })
      else err (no_contexts (reasons infos))

  abbrev by_context : Text × Option ContextEntry → Text × Option ContextEntry → Bool
  by_context a b = text_lt a.0 b.0

  abbrev accepted : Config → Bytes → Outcome ParsedKubeconfig
  accepted config raw = elim (exec_used net.quoted config.auth_infos) [
    | some text ↦ err (exec_plugin_used text)
    | none ↦ with_contexts config raw (describe_all config (sort_by by_context config.contexts))
  ]

  unfoldable pub parse_kubeconfig : (Bytes → Text ⊎ Config) → Bytes → Outcome ParsedKubeconfig
  unfolding describe_all exec_used usable sort_by text_lt
  parse_kubeconfig load raw =
      if is_empty raw
      then err (invalid_kubeconfig (codes "it is empty"))
      else if ltb max_kubeconfig_bytes (length raw)
      then err (invalid_kubeconfig (codes "larger than 262144 bytes"))
      else elim (load raw) [
        | inl e ↦ err (invalid_kubeconfig e)
        | inr config ↦
            if not (any (λ c. true) config.contexts)
            then err (no_contexts [])
            else accepted config raw
      ]

-- The loop over the contexts.
unfoldable pub context_named : Text → List ContextInfo → Outcome ContextInfo
unfolding text_eq
context_named name [] = err (unknown_context name)
context_named name (c ∷ cs) =
    let rest = context_named name cs in
    if not (text_eq c.name name)
    then rest
    else if c.blocked
    then err (blocked_address c.problem)
    else ok c

unfoldable pub context : ParsedKubeconfig → Text → Outcome ContextInfo
unfolding context_named
context p name = context_named (if is_empty name then p.current_context else name) p.contexts

-- ParseKubeconfig and then Context, as the service calls them.
unfoldable pub select :
    {Ip : Type 0}
    → Resolver Ip
    → AddressPolicy
    → (Bytes → Text ⊎ Config)
    → Bytes
    → Text
    → Outcome ContextInfo
unfolding parse_kubeconfig context
select net policy load raw name = elim (parse_kubeconfig net policy load raw) [
  | err e ↦ err e
  | ok p ↦ context p name
]
