-- ===== src/Cluster/Ssrf.antt =====
-- server/internal/cluster/ssrf.go: which addresses a pasted kubeconfig may name. The proofs are in
-- Cluster/Ssrf/Allowed.
--
-- Parsing URLs, addresses and networks, resolving names and printing is net/url's, package net's and
-- package fmt's: `Resolver` holds what is called. A refusal is the text of its error.
pub mod Allowed
use kubby.Prelude.{
  ◌⊎◌, inl, inr, Bool, false, ◌&&◌, not, Option, none, some, List, [], ◌∷◌, ◌++◌, if◌then◌else◌,
  codes, Text, text_eq, is_empty, trim_space,
}

pub record Url : Type 0 where
  pub scheme : Text
  pub hostname : Text

-- `lookup_ip` gives the addresses, or the text of an error; `quoted` is %q.
pub record Resolver (Ip : Type 0) : Type 0 where
  pub parse_url : Text → Option Url
  pub parse_ip : Text → Option Ip
  pub lookup_ip : Text → Text ⊎ List Ip
  pub is_loopback : Ip → Bool
  pub parse_cidr : Text → Option (Ip → Bool)
  pub ip_text : Ip → Text
  pub quoted : Text → Text

abbrev pub blocked_networks : List (Text × Text)
blocked_networks =
    (codes "169.254.0.0/16", codes "link-local, includes cloud instance metadata")
    ∷ (codes "fe80::/10", codes "IPv6 link-local")
    ∷ (codes "0.0.0.0/8", codes "unspecified")
    ∷ (codes "::/128", codes "unspecified")
    ∷ (codes "224.0.0.0/4", codes "multicast")
    ∷ (codes "ff00::/8", codes "IPv6 multicast")
    ∷ (codes "100.64.0.0/10", codes "carrier-grade NAT")
    ∷ []

pub record AddressPolicy : Type 0 where
  pub allow_loopback : Bool

pub record ResolvedEndpoint (Ip : Type 0) : Type 0 where
  pub url : Url
  pub host : Text
  pub addrs : List Ip

pub data Outcome (A : Type 0) : Type 0 where
  allowed : A → Outcome A
  refused : Text → Outcome A

-- `fmt.Errorf("%w: …", ErrBlockedAddress)`
abbrev pub blocked_error : Text → Text
blocked_error detail = codes "cluster address is not allowed: " ++ detail

abbrev pub in_network : {Ip : Type 0} → Option (Ip → Bool) → Ip → Bool
in_network none ip = false
in_network (some holds) ip = holds ip

module _ {Ip : Type 0} (net : Resolver Ip) where
  -- The loop over the networks: none where it ends.
  unfoldable pub blocked_by : Ip → List (Text × Text) → Option Text
  blocked_by ip [] = none
  blocked_by ip (b ∷ bs) =
      let rest = blocked_by ip bs in
      if in_network (net.parse_cidr b.0) ip
      then some (blocked_error (net.ip_text ip ++ (codes " is " ++ b.1)))
      else rest

  -- none where the address may be used.
  unfoldable pub check_ip : AddressPolicy → Ip → Option Text
  unfolding blocked_by
  check_ip p ip =
      if net.is_loopback ip
      then (if p.allow_loopback
          then none
          else some (blocked_error (net.ip_text ip ++ codes " is a loopback address")))
      else blocked_by ip blocked_networks

  abbrev pub looked_up : Text → Text ⊎ List Ip → Outcome (List Ip)
  looked_up host (inl e) =
      refused (blocked_error (codes "cannot resolve " ++ (net.quoted host ++ (codes ": " ++ e))))
  looked_up host (inr []) =
      refused (blocked_error (net.quoted host ++ codes " resolved to no addresses"))
  looked_up host (inr (ip ∷ ips)) = allowed (ip ∷ ips)

  unfoldable pub resolve_host : Text → Outcome (List Ip)
  resolve_host host = elim (net.parse_ip host) [
    | some ip ↦ allowed (ip ∷ [])
    | none ↦ looked_up host (net.lookup_ip host)
  ]

  -- The loop over the addresses: none where each may be used.
  unfoldable pub check_all : AddressPolicy → List Ip → Option Text
  unfolding check_ip
  check_all p [] = none
  check_all p (ip ∷ ips) =
      let rest = check_all p ips in elim (check_ip p ip) [ some e ↦ some e | none ↦ rest ]

  abbrev pub vetted : AddressPolicy → Url → Outcome (List Ip) → Outcome (ResolvedEndpoint Ip)
  vetted p url (refused e) = refused e
  vetted p url (allowed ips) = elim (check_all p ips) [
    | some e ↦ refused e
    | none ↦ allowed (record { url = url; host = url.hostname; addrs = ips })
  ]

  unfoldable pub validate_server_url : AddressPolicy → Text → Outcome (ResolvedEndpoint Ip)
  unfolding resolve_host check_all trim_space text_eq
  validate_server_url p raw = elim (net.parse_url (trim_space raw)) [
    | none ↦ refused (blocked_error (net.quoted raw ++ codes " is not a valid URL"))
    | some url ↦
        if not (text_eq url.scheme (codes "https")) && not (text_eq url.scheme (codes "http"))
        then refused
            (blocked_error (codes "scheme must be https (or http), got " ++ net.quoted url.scheme))
        else if is_empty url.hostname
        then refused (blocked_error (codes "address has no host"))
        else vetted p url (resolve_host url.hostname)
  ]
