-- ===== src/Audit/Shipper/Flushing.antt =====
-- What delivering a batch counts (server/internal/audit/shipper.go).
use kubby.Prelude.{
  ℕ, zero, suc, ◌+◌, ◌%◌, ◌≡◌, refl, inl, inr, true, List, [], ◌∷◌, arith, Bool-cases, length,
}
use kubby.Audit.Shipper.{
  Event, add64, ShipperOptions, Shipper, Answer, attempts_from, deliver, no_events, flush,
}

-- Delivering counts each event of the batch once, as sent or as dropped, and nothing else changes
-- but the counters of failures and retries.
attempts_from-counts :
    (sink : ℕ → Answer) (events : List Event) (attempt left : ℕ) (s : Shipper)
    → (((attempts_from sink events attempt left s).sent
            + (attempts_from sink events attempt left s).dropped)
          % 18446744073709551616
        ≡ (s.sent + s.dropped + length events) % 18446744073709551616)
      × ((attempts_from sink events attempt left s).queue ≡ s.queue)
      × ((attempts_from sink events attempt left s).closed ≡ s.closed)
      × ((attempts_from sink events attempt left s).cancelled ≡ s.cancelled)
      × ((attempts_from sink events attempt left s).ended ≡ s.ended)
unfolding attempts_from
attempts_from-counts sink events attempt zero s = (omega arith, refl, refl, refl, refl)
attempts_from-counts sink events zero (suc left) s =
    ground (arith, attempts_from-counts sink events 1 left (record s { failed = add64 s.failed 1 }))
attempts_from-counts sink events (suc attempt) (suc left) s = ground (
  arith,
  attempts_from-counts sink events (suc attempt + 1) left
      (record s { failed = add64 s.failed 1; retries = add64 s.retries 1 }),
)

no_events-nil : (es : List Event) → no_events es ≡ true → es ≡ []
no_events-nil [] h = refl
no_events-nil (e ∷ es) h = cc

pub flush-counts :
    (o : ShipperOptions) (sink : ℕ → Answer) (s : Shipper)
    → (((flush o sink s).sent + (flush o sink s).dropped) % 18446744073709551616
        ≡ (s.sent + s.dropped + length s.batch) % 18446744073709551616)
      × ((flush o sink s).queue ≡ s.queue)
      × ((flush o sink s).closed ≡ s.closed)
      × ((flush o sink s).cancelled ≡ s.cancelled)
      × ((flush o sink s).ended ≡ s.ended)
      × ((flush o sink s).batch ≡ [])
unfolding flush deliver
flush-counts o sink s = elim (Bool-cases (no_events s.batch)) [
  | inl e ↦
      let empty : s.batch ≡ [] = no_events-nil s.batch e in
      rw e (rw empty (omega arith), refl, refl, refl, refl, empty)
  | inr e ↦
      let (counted, queue, closed, cancelled, ended) =
        attempts_from-counts sink s.batch 0 o.max_tries s in
      rw e (counted, queue, closed, cancelled, ended, refl)
]
