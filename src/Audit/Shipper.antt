-- ===== src/Audit/Shipper.antt =====
-- server/internal/audit/shipper.go: the queue, the batches and the worker of `Shipper`. The proofs
-- are in Audit/Shipper/Flushing and Audit/Shipper/Accounting.
--
-- Callers of Enqueue and Close and the worker run side by side: `Step` lists what each may do next,
-- so that a run is any interleaving. An event is a number. The counters are of type uint64 and wrap.
-- How long a sleep lasts, what is logged and the text of the last failure are left out.
pub mod Flushing
pub mod Accounting
use kubby.Prelude.{
  ℕ, zero, suc, ◌+◌, ◌%◌, ◌≡◌, Bool, true, false, not, List, [], ◌∷◌, ◌++◌, ltb, leb, if◌then◌else◌,
  length, any,
}

abbrev pub Event : Type 0
Event = ℕ

abbrev pub add64 : ℕ → ℕ → ℕ
add64 a b = (a + b) % 18446744073709551616

-- An option that is 0 stands for one that is 0 or less.
pub record ShipperOptions : Type 0 where
  pub queue_size : ℕ
  pub batch_size : ℕ
  pub max_tries : ℕ

abbrev pub or_default : ℕ → ℕ → ℕ
or_default zero d = d
or_default (suc n) d = suc n

abbrev pub with_defaults : ShipperOptions → ShipperOptions
with_defaults o = record {
  queue_size = or_default o.queue_size 4096;
  batch_size = or_default o.batch_size 100;
  max_tries = or_default o.max_tries 4;
}

-- `queue` and `closed` are the channel, `batch` the worker's variable, `cancelled` its context, and
-- `ended` that it has closed `done`.
pub record Shipper : Type 0 where
  pub queue : List Event
  pub batch : List Event
  pub sent : ℕ
  pub failed : ℕ
  pub dropped : ℕ
  pub retries : ℕ
  pub closed : Bool
  pub cancelled : Bool
  pub ended : Bool

abbrev pub new_shipper : Shipper
new_shipper = record {
  queue = [];
  batch = [];
  sent = 0;
  failed = 0;
  dropped = 0;
  retries = 0;
  closed = false;
  cancelled = false;
  ended = false;
}

abbrev count_loss : List Event → Shipper → Shipper
count_loss events s = record s { dropped = add64 s.dropped (length events) }

-- What happens at an attempt: whether the sleep before it ran to its end, and whether the sink took
-- the batch.
pub record Answer : Type 0 where
  pub slept : Bool
  pub accepted : Bool

abbrev note_retry : ℕ → Shipper → Shipper
note_retry zero s = s
note_retry (suc n) s = record s { retries = add64 s.retries 1 }

abbrev interrupted : ℕ → Answer → Bool
interrupted zero a = false
interrupted (suc n) a = not a.slept

-- The loop of `deliver` from an attempt on, with the number of attempts that are left.
unfoldable pub attempts_from : (ℕ → Answer) → List Event → ℕ → ℕ → Shipper → Shipper
attempts_from sink events attempt zero s = count_loss events s
attempts_from sink events attempt (suc left) s =
    let s' = note_retry attempt s in
    let rest =
      attempts_from sink events (attempt + 1) left (record s' { failed = add64 s'.failed 1 }) in
    if interrupted attempt (sink attempt)
    then count_loss events s'
    else if (sink attempt).accepted
    then record s' { sent = add64 s'.sent (length events) }
    else rest

unfoldable pub deliver : ShipperOptions → (ℕ → Answer) → List Event → Shipper → Shipper
unfolding attempts_from
deliver o sink events s = attempts_from sink events 0 o.max_tries s

abbrev pub no_events : List Event → Bool
no_events [] = true
no_events (e ∷ es) = false

unfoldable pub flush : ShipperOptions → (ℕ → Answer) → Shipper → Shipper
flush o sink s = if no_events s.batch then s else record (deliver o sink s.batch s) { batch = [] }

-- `Enqueue` on a channel that is not closed.
unfoldable pub enqueue : ShipperOptions → Event → Shipper → Shipper
enqueue o e s =
    if ltb (length s.queue) o.queue_size
    then record s { queue = s.queue ++ e ∷ [] }
    else record s { dropped = add64 s.dropped 1 }

-- The case of the worker's loop that receives an event.
unfoldable pub receive : ShipperOptions → (ℕ → Answer) → Event → List Event → Shipper → Shipper
receive o sink e rest s =
    let s' = record s { queue = rest; batch = s.batch ++ e ∷ [] } in
    if leb o.batch_size (length s'.batch) then flush o sink s' else s'

-- A step, with the number of events that it offers. A send on a closed channel panics: no step.
pub data Step (o : ShipperOptions) : ℕ → Shipper → Shipper → Type 0 where
  offer : (s : Shipper) (e : Event) → s.closed ≡ false → Step o 1 s (enqueue o e s)
  close_queue : (s : Shipper) → Step o 0 s (record s { closed = true })
  cancel : (s : Shipper) → s.closed ≡ true → Step o 0 s (record s { cancelled = true })
  receive_event :
      (s : Shipper) (sink : ℕ → Answer) (e : Event) (rest : List Event)
      → s.ended ≡ false
      → s.queue ≡ e ∷ rest
      → Step o 0 s (receive o sink e rest s)
  timer_fired : (s : Shipper) (sink : ℕ → Answer) → s.ended ≡ false → Step o 0 s (flush o sink s)
  drained :
      (s : Shipper) (sink : ℕ → Answer)
      → s.ended ≡ false
      → s.closed ≡ true
      → s.queue ≡ []
      → Step o 0 s (record (flush o sink s) { ended = true })
  context_done :
      (s : Shipper) → s.ended ≡ false → s.cancelled ≡ true → Step o 0 s (record s { ended = true })

-- What a shipper can become, with the number of events that were offered to it.
pub data Reachable (o : ShipperOptions) : ℕ → Shipper → Type 0 where
  start : Reachable o 0 new_shipper
  next : (n m : ℕ) (s t : Shipper) → Reachable o n s → Step o m s t → Reachable o (n + m) t
