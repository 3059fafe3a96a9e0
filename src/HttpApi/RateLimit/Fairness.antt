-- ===== src/HttpApi/RateLimit/Fairness.antt =====
-- One client cannot use up the budget of another (server/internal/httpapi/ratelimit.go).
use kubby.Prelude.{
  ◌≡◌, refl, ap, Bool, true, false, List, [], ◌∷◌, arith, if◌then◌else◌, Text, text_eq, text_eq_iff,
}
use kubby.Store.Models.{Time}
use kubby.HttpApi.RateLimit.{Buckets, Bucket, limiter_of, put, allow, reset}

module _ {L : Type 0} (fresh : L) (take_token : Time → L → Bool × L) where
  -- The requests in the order in which they take the mutex: when, and of which client.
  abbrev pub Requests : Type 0
  Requests = List (Time × Text)

  -- What the requests of one client are told, among all of them.
  unfoldable pub answers : Text → Requests → Buckets L → List Bool
  answers key [] bs = []
  answers key (r ∷ rs) bs =
      let (passes, bs') = allow fresh take_token r.0 r.1 bs in
      let rest = answers key rs bs' in if text_eq key r.1 then passes ∷ rest else rest

  -- What a limiter alone tells to the requests of that client.
  unfoldable pub alone : Text → Requests → L → List Bool
  alone key [] l = []
  alone key (r ∷ rs) l = elim (text_eq key r.1) [
    | true ↦ (take_token r.0 l).0 ∷ alone key rs ((take_token r.0 l).1)
    | false ↦ alone key rs l
  ]

  limiter_of-put :
      (key other : Text) (b : Bucket L) (bs : Buckets L)
      → limiter_of fresh key (put other b bs)
        ≡ (if text_eq key other then b.limiter else limiter_of fresh key bs)
  unfolding limiter_of put
  limiter_of-put key other b [] = refl
  limiter_of-put key other b (c ∷ bs) = ground (
    arith,
    limiter_of-put key other b bs,
    text_eq_iff other c.0,
    text_eq_iff key other,
    text_eq_iff key c.0,
  )

  limiter_of-same :
      (key other : Text) (bs : Buckets L)
      → text_eq key other ≡ true
      → limiter_of fresh key bs ≡ limiter_of fresh other bs
  limiter_of-same key other bs h = ap (λ k. limiter_of fresh k bs) ((text_eq_iff key other).0 h)

  -- While no bucket is swept away or reset, the answers to a client are those that its own limiter gives
  -- to its own requests: neither the requests of others nor their order among them change any.
  pub answers-alone :
      (key : Text) (rs : Requests) (bs : Buckets L)
      → answers key rs bs ≡ alone key rs (limiter_of fresh key bs)
  unfolding answers alone allow
  answers-alone key [] bs = refl
  answers-alone key (r ∷ rs) bs =
      let taken : Bool × L = take_token r.0 (limiter_of fresh r.1 bs) in
      let bucket : Bucket L = record { limiter = taken.1; last_seen = r.0 } in
      ground (
        arith,
        answers-alone key rs (put r.1 bucket bs),
        limiter_of-put key r.1 bucket bs,
        limiter_of-same key r.1 bs,
      )

  -- After a reset the client starts with a fresh limiter, and every other keeps its own.
  limiter_of-reset :
      (key other : Text) (bs : Buckets L)
      → limiter_of fresh other (reset key bs)
        ≡ (if text_eq key other then fresh else limiter_of fresh other bs)
  unfolding limiter_of reset
  limiter_of-reset key other [] = ground arith
  limiter_of-reset key other (b ∷ bs) = ground (
    arith,
    limiter_of-reset key other bs,
    text_eq_iff key b.0,
    text_eq_iff other b.0,
    text_eq_iff key other,
  )
