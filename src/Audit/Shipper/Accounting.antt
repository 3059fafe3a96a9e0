-- ===== src/Audit/Shipper/Accounting.antt =====
-- Where the events go that are offered for shipping (server/internal/audit/shipper.go).
use kubby.Prelude.{
  ℕ, zero, suc, ◌+◌, ◌%◌, ◌≤◌, ◌<◌, ◌≡◌, refl, ◌∙◌, ◌⊎◌, inl, inr, true, false, List, [], ◌∷◌, ◌++◌,
  arith, ltb, leb, Bool-cases, length, length-append,
}
use kubby.Audit.Shipper.Flushing.{flush-counts}
use kubby.Audit.Shipper.{
  Event, ShipperOptions, or_default, with_defaults, Shipper, Answer, flush, enqueue, receive, Step,
  offer, close_queue, cancel, receive_event, timer_fired, drained, context_done, Reachable, start,
  next,
}

pub record IsAccounted (o : ShipperOptions) (n : ℕ) (s : Shipper) : Type 0 where
  pub conserved :
      (s.sent + s.dropped + length s.queue + length s.batch) % 18446744073709551616
      ≡ n % 18446744073709551616
  pub queue_fits : length s.queue ≤ o.queue_size
  pub batch_fits : length s.batch < o.batch_size
  pub closed_first : (s.cancelled ≡ false) ⊎ (s.closed ≡ true)
  pub ended_last :
      (s.ended ≡ false)
      ⊎ ((s.closed ≡ true) × ((s.cancelled ≡ true) ⊎ ((s.queue ≡ []) × (s.batch ≡ []))))

module _ (o : ShipperOptions) (n : ℕ) (s : Shipper) (h : IsAccounted o n s) where
  flush-IsAccounted : (sink : ℕ → Answer) → IsAccounted o n (flush o sink s)
  flush-IsAccounted sink =
      let (counted, queue, closed, cancelled, ended, batch) = flush-counts o sink s in
      record {
        conserved = rw (queue, batch) (omega (arith, counted, h.conserved));
        queue_fits = rw queue h.queue_fits;
        batch_fits = rw batch (omega (arith, h.batch_fits));
        closed_first = rw (cancelled, closed) h.closed_first;
        ended_last = ground (arith, h.ended_last, queue, closed, cancelled, ended, batch);
      }

  enqueue-IsAccounted : (e : Event) → s.closed ≡ false → IsAccounted o (n + 1) (enqueue o e s)
  unfolding enqueue
  enqueue-IsAccounted e still_open = elim (Bool-cases (ltb (length s.queue) o.queue_size)) [
    | inl r ↦ rw r (record {
      conserved = omega (arith, h.conserved, length-append {0} s.queue (e ∷ []));
      queue_fits = ground (arith, r, length-append {0} s.queue (e ∷ []));
      batch_fits = h.batch_fits;
      closed_first = h.closed_first;
      ended_last = ground (arith, h.ended_last, still_open);
    })
    | inr r ↦ rw r (record {
      conserved = omega (arith, h.conserved);
      queue_fits = h.queue_fits;
      batch_fits = h.batch_fits;
      closed_first = h.closed_first;
      ended_last = h.ended_last;
    })
  ]

  receive-IsAccounted :
      (sink : ℕ → Answer) (e : Event) (rest : List Event)
      → s.ended ≡ false
      → s.queue ≡ e ∷ rest
      → IsAccounted o n (receive o sink e rest s)
  unfolding receive
  receive-IsAccounted sink e rest running took =
      let s' : Shipper = record s { queue = rest; batch = s.batch ++ e ∷ [] } in
      let more : length s'.batch ≡ length s.batch + 1 =
        omega (arith, length-append {0} s.batch (e ∷ [])) in
      let left : length s.queue ≡ length rest + 1 = rw took (omega arith) in
      elim (Bool-cases (leb o.batch_size (length s'.batch))) [
        | inl r ↦ rw r (
            let (counted, queue, closed, cancelled, ended, batch) = flush-counts o sink s' in
            record {
              conserved = rw (queue, batch) (omega (arith, counted, h.conserved, more, left));
              queue_fits = rw queue (omega (arith, h.queue_fits, left));
              batch_fits = rw batch (omega (arith, h.batch_fits));
              closed_first = rw (cancelled, closed) h.closed_first;
              ended_last = inl (ended ∙ running);
            })
        | inr r ↦ rw r (record {
          conserved = omega (arith, h.conserved, more, left);
          queue_fits = omega (arith, h.queue_fits, left);
          batch_fits = ground (arith, r);
          closed_first = h.closed_first;
          ended_last = inl running;
        })
      ]

module _ (o : ShipperOptions) where
  close-IsAccounted :
      (n : ℕ) (s : Shipper) → IsAccounted o n s → IsAccounted o n (record s { closed = true })
  close-IsAccounted n s h = record {
    conserved = h.conserved;
    queue_fits = h.queue_fits;
    batch_fits = h.batch_fits;
    closed_first = inr refl;
    ended_last = ground (arith, h.ended_last);
  }

  cancel-IsAccounted :
      (n : ℕ) (s : Shipper)
      → IsAccounted o n s
      → s.closed ≡ true
      → IsAccounted o n (record s { cancelled = true })
  cancel-IsAccounted n s h closed = record {
    conserved = h.conserved;
    queue_fits = h.queue_fits;
    batch_fits = h.batch_fits;
    closed_first = inr closed;
    ended_last = inr (closed, inl refl);
  }

  end-IsAccounted :
      (n : ℕ) (s : Shipper)
      → IsAccounted o n s
      → s.closed ≡ true
      → (s.cancelled ≡ true) ⊎ ((s.queue ≡ []) × (s.batch ≡ []))
      → IsAccounted o n (record s { ended = true })
  end-IsAccounted n s h closed why = record {
    conserved = h.conserved;
    queue_fits = h.queue_fits;
    batch_fits = h.batch_fits;
    closed_first = h.closed_first;
    ended_last = inr (closed, why);
  }

  same_count : (n : ℕ) (s : Shipper) → IsAccounted o n s → IsAccounted o (n + 0) s
  same_count n s h = record {
    conserved = omega (arith, h.conserved);
    queue_fits = h.queue_fits;
    batch_fits = h.batch_fits;
    closed_first = h.closed_first;
    ended_last = h.ended_last;
  }

  Step-IsAccounted :
      (n m : ℕ) (s t : Shipper) → Step o m s t → IsAccounted o n s → IsAccounted o (n + m) t
  Step-IsAccounted n _ _ _ (offer s e still_open) h = enqueue-IsAccounted o n s h e still_open
  Step-IsAccounted n _ _ _ (close_queue s) h =
      same_count n (record s { closed = true }) (close-IsAccounted n s h)
  Step-IsAccounted n _ _ _ (cancel s closed) h =
      same_count n (record s { cancelled = true }) (cancel-IsAccounted n s h closed)
  Step-IsAccounted n _ _ _ (receive_event s sink e rest running took) h =
      same_count n (receive o sink e rest s) (receive-IsAccounted o n s h sink e rest running took)
  Step-IsAccounted n _ _ _ (timer_fired s sink running) h =
      same_count n (flush o sink s) (flush-IsAccounted o n s h sink)
  Step-IsAccounted n _ _ _ (drained s sink running closed empty) h =
      let (_, queue, closed', _, _, batch) = flush-counts o sink s in
      same_count n (record (flush o sink s) { ended = true })
        (end-IsAccounted n (flush o sink s) (flush-IsAccounted o n s h sink) (closed' ∙ closed)
          (inr (queue ∙ empty, batch)))
  Step-IsAccounted n _ _ _ (context_done s running cancelled) h =
      same_count n (record s { ended = true })
        (end-IsAccounted n s h (ground (arith, h.closed_first, cancelled)) (inl cancelled))

-- However callers, the worker and the sink interleave, the events that were offered are those that
-- were sent, dropped or still wait in the queue or the batch, modulo 2^64; the queue and the batch
-- keep to their sizes, the context is cancelled only after the queue is closed, and a worker that
-- has ended without being cancelled has left nothing behind.
reachable-IsAccounted :
    (opts : ShipperOptions) (n : ℕ) (s : Shipper)
    → Reachable (with_defaults opts) n s
    → IsAccounted (with_defaults opts) n s
reachable-IsAccounted opts _ _ start = record {
  conserved = refl;
  queue_fits = omega arith;
  batch_fits = some_batch opts.batch_size;
  closed_first = inl refl;
  ended_last = inl refl;
}
  where
    some_batch : (size : ℕ) → 0 < or_default size 100
    some_batch zero = omega arith
    some_batch (suc size) = omega arith
reachable-IsAccounted opts _ _ (next n m s t before step) =
    Step-IsAccounted (with_defaults opts) n m s t step (reachable-IsAccounted opts n s before)

-- Once the worker has ended, and nothing cancelled it, every event that was offered is counted as
-- sent or as dropped, modulo 2^64.
pub ended-accounted :
    (opts : ShipperOptions) (n : ℕ) (s : Shipper)
    → Reachable (with_defaults opts) n s
    → s.ended ≡ true
    → s.cancelled ≡ false
    → (s.sent + s.dropped) % 18446744073709551616 ≡ n % 18446744073709551616
ended-accounted opts n s reached ended not_cancelled =
    let h = reachable-IsAccounted opts n s reached in
    ground (arith, h.conserved, h.ended_last, ended, not_cancelled)
