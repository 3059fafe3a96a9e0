-- ===== src/Tests/Limits.antt =====
-- The rate limit and the search for a local port at concrete inputs.
use kubby.Prelude.{
  ℕ, zero, suc, ◌≤◌, ◌≡◌, refl, ◌⊎◌, Bool, true, false, Option, none, some, [], ◌∷◌, arith, ◌==◌,
  if◌then◌else◌, ℤ, pos, length, codes, Text, text_eq, is_empty, trim_space,
}
use kubby.HttpApi.RateLimit.{limiter_of, allow}
use kubby.HttpApi.RateLimit.Fairness.{Requests, answers, alone, answers-alone}
use kubby.Cluster.Forward.{parse_port_range, is_any, listen}
use kubby.Cluster.Forward.Ports.{parse_port_range_bounds, listen-range}

-- A bucket of two tokens that is never filled again.
abbrev take_token : ℕ → ℕ → Bool × ℕ
take_token now zero = (false, 0)
take_token now (suc n) = (true, n)

abbrev requests : Requests 2 take_token
requests = (1, codes "a") ∷ (2, codes "b") ∷ (3, codes "a") ∷ (4, codes "a") ∷ []

answers-alone_example :
    answers 2 take_token (codes "a") requests []
    ≡ alone 2 take_token (codes "a") requests (limiter_of 2 (codes "a") [])
answers-alone_example = answers-alone 2 take_token (codes "a") requests []

-- The answers that client gets.
answers_of_a : answers 2 take_token (codes "a") requests [] ≡ true ∷ true ∷ false ∷ []
unfolding answers text_eq allow
answers_of_a = refl

abbrev atoi : Text → Option ℤ
atoi s = some (pos (length s))

parse_port_range_bounds_example :
    ((is_any (record { from = 2; to = 3 }) ≡ true)
      × (is_empty (trim_space (codes "ab-abc")) ≡ true))
    ⊎ ((1 ≤ 2) × (2 ≤ 3) × (3 ≤ 65535))
unfolding parse_port_range
parse_port_range_bounds_example =
    parse_port_range_bounds atoi (codes "ab-abc") {r = record { from = 2; to = 3 }} refl

-- Only port 12 is free.
abbrev bind : ℕ → Option ℕ
bind port = if port == 12 then some port else none

listen-range_example :
    ((listen bind 0 (record { from = 10; to = 13 }) ≡ none) × (bind 11 ≡ none))
    ⊎ ((l : ℕ) × (q : ℕ) × (listen bind 0 (record { from = 10; to = 13 }) ≡ some l)
        × (10 ≤ q)
        × (q ≤ 13)
        × (bind q ≡ some l)
        × ((q ≤ 11) ⊎ (bind 11 ≡ none)))
unfolding is_any
listen-range_example =
    listen-range bind (record { from = 10; to = 13 }) 11 refl (omega arith) (omega arith)
