-- ===== src/HttpApi/RateLimit.antt =====
-- server/internal/httpapi/ratelimit.go: a token bucket for each client. The proofs are in
-- HttpApi/RateLimit/Fairness.
--
-- The bucket's limiter is golang.org/x/time/rate: a fresh one and `take_token`, which says whether a
-- request may pass. The map is a list of pairs, and each method runs under the mutex.
pub mod Fairness
use kubby.Prelude.{
  ◌-◌, Bool, Option, none, some, List, [], ◌∷◌, map, ltb, if◌then◌else◌, Text, text_eq,
}
use kubby.Store.Models.{Time, Duration}

abbrev idle_ttl : Duration
idle_ttl = 900000000000

pub record Bucket (L : Type 0) : Type 0 where
  pub limiter : L
  pub last_seen : Time

abbrev pub Buckets : Type 0 → Type 0
Buckets L = List (Text × Bucket L)

module _ {L : Type 0} where
  -- The limiter that a request of the client meets.
  unfoldable pub limiter_of : L → Text → Buckets L → L
  limiter_of fresh key [] = fresh
  limiter_of fresh key (b ∷ bs) =
      let rest = limiter_of fresh key bs in if text_eq key b.0 then b.1.limiter else rest

  -- `buckets[key] = …`
  unfoldable pub put : Text → Bucket L → Buckets L → Buckets L
  put key new [] = (key, new) ∷ []
  put key new (b ∷ bs) =
      let rest = put key new bs in if text_eq key b.0 then (b.0, new) ∷ bs else b ∷ rest

  unfoldable pub allow : L → (Time → L → Bool × L) → Time → Text → Buckets L → Bool × Buckets L
  unfolding limiter_of put
  allow fresh take_token now key bs =
      let (passes, limiter) = take_token now (limiter_of fresh key bs) in
      (passes, put key (record { limiter = limiter; last_seen = now }) bs)

  unfoldable pub reset : Text → Buckets L → Buckets L
  reset key [] = []
  reset key (b ∷ bs) = let rest = reset key bs in if text_eq key b.0 then rest else b ∷ rest

  -- A tick of the sweeper.
  unfoldable pub sweep : Time → Buckets L → Buckets L
  sweep now [] = []
  sweep now (b ∷ bs) =
      let rest = sweep now bs in if ltb b.1.last_seen (now - idle_ttl) then rest else b ∷ rest

-- The address without its port, if it has one.
abbrev pub client_key : Text → Option Text → Text
client_key remote_addr none = remote_addr
client_key remote_addr (some host) = host
