-- ===== src/Cluster/Forward/Ports.antt =====
-- Ports stay in their range and no free one is missed (server/internal/cluster/forward_listen.go).
use kubby.Prelude.{
  ℕ, ℤ, zero, suc, ◌+◌, ◌-◌, ◌≤◌, ◌<◌, ◌≡◌, ap, ◌∙◌, ◌⊎◌, inl, inr, true, false, Option, none, some,
  arith, ◌==◌, ==_iff, Bool-cases, Option-cases, Text, is_empty, trim_space,
}
use kubby.Cluster.Forward.{PortRange, range, checked_range, parse_port_range, is_any, hunt, listen}

-- A range that was accepted is any free port, which only a blank text asks for, or lies inside the
-- ports there are and ascends.
pub parse_port_range_bounds :
    (atoi : Text → Option ℤ) (raw : Text) {r : PortRange}
    → parse_port_range atoi raw ≡ range r
    → ((is_any r ≡ true) × (is_empty (trim_space raw) ≡ true))
      ⊎ ((1 ≤ r.from) × (r.from ≤ r.to) × (r.to ≤ 65535))
unfolding parse_port_range checked_range is_any
parse_port_range_bounds atoi raw {r} h = ground arith

module _ {Listener : Type 0} (bind : ℕ → Option Listener) where
  hunt-none :
      (fuel port : ℕ)
      → hunt bind fuel port ≡ none
      → (p : ℕ) → port ≤ p
      → p < port + fuel
      → bind p ≡ none
  unfolding hunt
  hunt-none zero port h p lo hi = absurd (omega arith)
  hunt-none (suc fuel) port h p lo hi = elim (Bool-cases (p == port)) [
    | inl e ↦
        let first : bind port ≡ none = ground (arith, h) in
        let same : p ≡ port = (==_iff p port).0 e in rw same first
    | inr e ↦ hunt-none fuel (port + 1) (ground (arith, h)) p (ground arith) (omega arith)
  ]

  -- The first port that is free, where there is one: at `p` or before, or `p` is not free.
  hunt-some :
      (fuel port p : ℕ) {l : Listener}
      → hunt bind fuel port ≡ some l
      → port ≤ p
      → (q : ℕ) × (port ≤ q) × (q < port + fuel) × (bind q ≡ some l) × ((q ≤ p) ⊎ (bind p ≡ none))
  unfolding hunt
  hunt-some zero port p {l} h from = cc
  hunt-some (suc fuel) port p {l} h from = elim (Option-cases (bind port)) [
    | inr (m, e) ↦
        let same : m ≡ l = ground (arith, e, h) in
        (port, omega arith, omega arith, e ∙ ap some same, inl from)
    | inl e ↦ elim (Bool-cases (p == port)) [
      | inl f ↦
          let (q, lo, hi, found, rest) =
            hunt-some fuel (port + 1) (p + 1) {l = l} (ground (arith, e, h)) (omega arith) in
          (q, omega arith, omega arith, found, inr (rw ((==_iff p port).0 f) e))
      | inr f ↦
          let (q, lo, hi, found, rest) =
            hunt-some fuel (port + 1) p {l = l} (ground (arith, e, h)) (ground arith) in
          (q, omega arith, omega arith, found, rest)
    ]
  ]

  -- Let `p` be a port of the range. The search over the range ends in the error, and then `p` was refused;
  -- or it ends with a listener on a port of the range, and then `p` was refused unless that port is `p` or
  -- stands before it: the port is the first of the range that is free.
  pub listen-range :
      (within : PortRange) (p : ℕ)
      → is_any within ≡ false
      → within.from ≤ p
      → p ≤ within.to
      → ((listen bind 0 within ≡ none) × (bind p ≡ none))
        ⊎ ((l : Listener) × (q : ℕ) × (listen bind 0 within ≡ some l)
            × (within.from ≤ q)
            × (q ≤ within.to)
            × (bind q ≡ some l)
            × ((q ≤ p) ⊎ (bind p ≡ none)))
  unfolding listen
  listen-range within p a lo hi =
      elim (Option-cases (hunt bind (within.to + 1 - within.from) within.from)) [
        | inl e ↦ inl (
          ground (arith, a, e),
          hunt-none (within.to + 1 - within.from) within.from e p lo (omega arith),
        )
        | inr (l, e) ↦
            let (q, above, below, found, first) =
              hunt-some (within.to + 1 - within.from) within.from p e lo in
            inr (l, q, ground (arith, a, e), above, omega arith, found, first)
      ]
