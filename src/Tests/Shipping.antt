-- ===== src/Tests/Shipping.antt =====
-- A run of the audit shipper: an event is offered, sent at the second attempt, and the queue closed.
use kubby.Prelude.{ℕ, ◌+◌, ◌%◌, ◌≡◌, refl, true, [], ◌==◌}
use kubby.Audit.Shipper.{
  ShipperOptions, with_defaults, Shipper, new_shipper, Answer, attempts_from, deliver, flush,
  enqueue, receive, offer, close_queue, receive_event, drained, Reachable, start, next,
}
use kubby.Audit.Shipper.Accounting.{ended-accounted}

abbrev opts : ShipperOptions
opts = record { queue_size = 2; batch_size = 1; max_tries = 0 }

abbrev second_time : ℕ → Answer
second_time attempt = record { slept = true; accepted = attempt == 1 }

abbrev offered : Shipper
offered = enqueue (with_defaults opts) 5 new_shipper

abbrev received : Shipper
received = receive (with_defaults opts) second_time 5 [] offered

abbrev closing : Shipper
closing = record received { closed = true }

abbrev finished : Shipper
finished = record (flush (with_defaults opts) second_time closing) { ended = true }

finished-Reachable : Reachable (with_defaults opts) 1 finished
unfolding enqueue receive flush deliver attempts_from
finished-Reachable =
    next 1 0 closing finished
      (next 1 0 received closing
        (next 1 0 offered received (next 0 1 new_shipper offered start (offer new_shipper 5 refl))
          (receive_event offered second_time 5 [] refl refl))
        (close_queue received))
      (drained closing second_time refl refl refl)

ended-accounted_example :
    (finished.sent + finished.dropped) % 18446744073709551616 ≡ 1 % 18446744073709551616
unfolding enqueue receive flush deliver attempts_from
ended-accounted_example = ended-accounted opts 1 finished finished-Reachable refl refl
