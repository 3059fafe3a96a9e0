-- ===== src/HttpApi/RealIp.antt =====
-- server/internal/httpapi/realip.go: the client address behind trusted proxies. The proofs are in
-- HttpApi/RealIp/Spoofing.
--
-- Parsing and printing addresses and networks is package net's: `Net` holds what is called. An
-- absent header is the empty text, and the warning about an entry is left out.
pub mod Spoofing
use kubby.Prelude.{
  ℕ, Bool, true, false, not, Option, none, some, List, [], ◌∷◌, ◌==◌, if◌then◌else◌, any, codes,
  Text, trim_space,
}
use mathlib.Core.List.{reverse}

pub record Net (Ip Network : Type 0) : Type 0 where
  pub parse_ip : Text → Option Ip
  pub to_string : Ip → Text
  pub is_v4 : Ip → Bool
  pub parse_cidr : Text → Option Network
  pub masked : Ip → ℕ → Network
  pub in_network : Network → Ip → Bool
  pub split_host_port : Text → Option Text
  pub join_host_port : Text → Text → Text

pub record Request : Type 0 where
  pub remote_addr : Text
  pub x_forwarded_for : Text
  pub x_real_ip : Text

abbrev pub is_blank : Text → Bool
is_blank [] = true
is_blank (c ∷ s) = false

abbrev pub onto_first : ℕ → List Text → List Text
onto_first c [] = (c ∷ []) ∷ []
onto_first c (part ∷ parts) = (c ∷ part) ∷ parts

-- `strings.Split(s, ",")`
unfoldable pub split_commas : Text → List Text
split_commas [] = [] ∷ []
split_commas (c ∷ s) =
    let rest = split_commas s in if c == b',' then [] ∷ rest else onto_first c rest

module _ {Ip Network : Type 0} (n : Net Ip Network) where
  unfoldable pub contains_ip : List Network → Ip → Bool
  contains_ip networks ip = any (λ network. n.in_network network ip) networks

  -- The loop over the hops, the last of them first.
  unfoldable pub closest_untrusted : List Network → List Text → Option Ip
  unfolding contains_ip
  closest_untrusted trusted [] = none
  closest_untrusted trusted (hop ∷ hops) =
      let rest = closest_untrusted trusted hops in
      elim (n.parse_ip (trim_space hop)) [
        | none ↦ rest
        | some candidate ↦ if contains_ip trusted candidate then rest else some candidate
      ]

  -- none where the code returns the empty string.
  unfoldable pub client_from_headers : Request → List Network → Option Ip
  unfolding closest_untrusted split_commas
  client_from_headers r trusted =
      if is_blank r.x_forwarded_for
      then n.parse_ip (trim_space r.x_real_ip)
      else closest_untrusted trusted (reverse (split_commas r.x_forwarded_for))

  abbrev pub host_or : Text → Option Text → Text
  host_or remote_addr none = remote_addr
  host_or remote_addr (some host) = host

  unfoldable pub peer_ip : Text → Option Ip
  peer_ip remote_addr = n.parse_ip (host_or remote_addr (n.split_host_port remote_addr))

  abbrev pub forwarded : Request → Option Ip → Request
  forwarded r none = r
  forwarded r (some ip) = record r { remote_addr = n.join_host_port (n.to_string ip) (codes "0") }

  abbrev pub is_trusted_peer : List Network → Option Ip → Bool
  is_trusted_peer networks none = false
  is_trusted_peer networks (some peer) = contains_ip networks peer

  abbrev pub no_networks : List Network → Bool
  no_networks [] = true
  no_networks (network ∷ networks) = false

  -- The request that the next handler serves. An address prints as a text that is not empty.
  unfoldable pub real_ip : List Network → Request → Request
  unfolding client_from_headers peer_ip contains_ip
  real_ip networks r =
      if no_networks networks
      then r
      else if is_trusted_peer networks (peer_ip r.remote_addr)
      then forwarded r (client_from_headers r networks)
      else r

  abbrev bits_of : Ip → ℕ
  bits_of ip = if n.is_v4 ip then 32 else 128

  -- One entry of the list: a block, a bare address, or nothing.
  unfoldable pub entry_network : Text → Option Network
  entry_network entry = if is_blank entry then none else elim (n.parse_cidr entry) [
    | some network ↦ some network
    | none ↦ elim (n.parse_ip entry) [ some ip ↦ some (n.masked ip (bits_of ip)) | none ↦ none ]
  ]

  abbrev add : Option Network → List Network → List Network
  add none networks = networks
  add (some network) networks = network ∷ networks

  unfoldable pub parse_cidrs : List Text → List Network
  unfolding entry_network
  parse_cidrs [] = []
  parse_cidrs (entry ∷ entries) = add (entry_network (trim_space entry)) (parse_cidrs entries)
