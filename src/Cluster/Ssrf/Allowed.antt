-- ===== src/Cluster/Ssrf/Allowed.antt =====
-- Every address that a server's name resolves to is vetted (server/internal/cluster/ssrf.go).
use kubby.Prelude.{◌≡◌, ◌⊎◌, Bool, true, false, List, ltb, length, any}
use kubby.Cluster.Ssrf.{
  Resolver, blocked_networks, AddressPolicy, Outcome, allowed, refused, in_network,
}

module _ {Ip : Type 0} (net : Resolver Ip) where
  -- A loopback address under a policy that permits them, or one outside every blocked network.
  abbrev pub IsAllowed : AddressPolicy → Ip → Type 0
  IsAllowed p ip =
      ((net.is_loopback ip ≡ true) × (p.allow_loopback ≡ true))
      ⊎ ((net.is_loopback ip ≡ false)
          × (any (λ b. in_network (net.parse_cidr b.0) ip) blocked_networks ≡ false))

  abbrev has_address : Outcome (List Ip) → Bool
  has_address (allowed ips) = ltb 0 (length ips)
  has_address (refused e) = true
