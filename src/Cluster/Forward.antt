-- ===== src/Cluster/Forward.antt =====
-- server/internal/cluster/forward_listen.go: the range of local ports and the search for a free one. The
-- proofs are in Cluster/Forward/Ports.
--
-- `atoi` is strconv.Atoi, and `bind` net.Listen on a port of the host. Serving the connections is left
-- out.
pub mod Ports
use kubby.Prelude.{
  ℕ, zero, suc, ℤ, pos, negsuc, ◌+◌, ◌-◌, Bool, ◌&&◌, ◌||◌, Option, none, some, [], ◌∷◌, ltb, ◌==◌,
  if◌then◌else◌, Text, is_empty, trim_space,
}

pub record PortRange : Type 0 where
  pub from : ℕ
  pub to : ℕ

pub data PortError : Type 0 where
  not_a_range not_a_number out_of_range : PortError

pub data Parsed : Type 0 where
  range : PortRange → Parsed
  malformed : PortError → Parsed

-- `strings.Cut(s, "-")`
unfoldable pub cut_dash : Text → Option (Text × Text)
cut_dash [] = none
cut_dash (c ∷ s) =
    let rest = cut_dash s in
    if c == b'-'
    then some ([], s)
    else elim rest [ none ↦ none | some (before, after) ↦ some (c ∷ before, after) ]

unfoldable pub checked_range : Option ℤ → Option ℤ → Parsed
checked_range none high = malformed not_a_number
checked_range (some low) none = malformed not_a_number
checked_range (some (negsuc low)) (some high) = malformed out_of_range
checked_range (some (pos low)) (some (negsuc high)) = malformed out_of_range
checked_range (some (pos low)) (some (pos high)) =
    if ltb low 1 || ltb 65535 high || ltb high low
    then malformed out_of_range
    else range (record { from = low; to = high })

unfoldable pub parse_port_range : (Text → Option ℤ) → Text → Parsed
unfolding cut_dash checked_range trim_space
parse_port_range atoi raw =
    let trimmed = trim_space raw in
    if is_empty trimmed then range (record { from = 0; to = 0 }) else elim (cut_dash trimmed) [
      | none ↦ malformed not_a_range
      | some (low, high) ↦ checked_range (atoi (trim_space low)) (atoi (trim_space high))
    ]

unfoldable pub is_any : PortRange → Bool
is_any r = r.from == 0 && r.to == 0

module _ {Listener : Type 0} (bind : ℕ → Option Listener) where
  -- The loop, with as much fuel as there are ports left.
  unfoldable pub hunt : ℕ → ℕ → Option Listener
  hunt zero port = none
  hunt (suc fuel) port =
      let rest = hunt fuel (port + 1) in elim (bind port) [ some l ↦ some l | none ↦ rest ]

  -- none where the code returns an error.
  unfoldable pub listen : ℕ → PortRange → Option Listener
  unfolding hunt is_any
  listen wanted within =
      if ltb 0 wanted
      then bind wanted
      else if is_any within
      then bind 0
      else hunt (within.to + 1 - within.from) within.from
