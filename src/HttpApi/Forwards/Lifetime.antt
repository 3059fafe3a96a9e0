-- ===== src/HttpApi/Forwards/Lifetime.antt =====
-- How long a tunnel stays in the registry (server/internal/httpapi/forward_handlers.go).
use kubby.Prelude.{
  ◌+◌, ◌≤◌, ◌≡◌, inl, inr, Bool, true, false, ◌&&◌, not, Option, none, some, List, [], ◌∷◌, arith,
  ◌==◌, leb, all, if◌then◌else◌, Bool-cases, Option-cases, Text, text_eq, text_eq_refl, text_eq_iff,
}
use kubby.Store.Models.{Uuid, Time}
use kubby.HttpApi.Forwards.{
  ForwardSession, Registry, idle_limit, is_idle, kept, expire, put, add, session_of, touch, owned,
  get, list, without, remove, touched_at,
}

-- What readers and the tunnels' own traffic do to the registry.
pub data Use : Type 0 where
  added : ForwardSession → Use
  got : Text → Uuid → Use
  listed : Uuid → Uuid → Use
  used : Text → Use
  stopped : Text → Uuid → Use

unfoldable pub apply_use : Time → Use → Registry → Registry
unfolding add get list touch remove
apply_use now (added s) reg = add now s reg
apply_use now (got id owner) reg = (get now id owner reg).1
apply_use now (listed cluster_id owner) reg = (list now cluster_id owner reg).1
apply_use now (used id) reg = record reg { sessions = touch now id reg.sessions }
apply_use now (stopped id owner) reg = (remove id owner reg).1

-- Each use at its time.
unfoldable pub run : List (Time × Use) → Registry → Registry
unfolding apply_use
run [] reg = reg
run (u ∷ us) reg = run us (apply_use u.0 u.1 reg)

-- The reader's own stop of this tunnel, or another tunnel put in its place.
abbrev pub replaces : Text → Uuid → Use → Bool
replaces id owner (added s) = text_eq s.id id
replaces id owner (stopped j reader) = text_eq j id && reader == owner
replaces id owner other = false

-- A use within the half hour from `start` on, which does not replace the tunnel.
abbrev pub spares : Text → Uuid → Time → Time × Use → Bool
spares id owner start (now, u) =
    leb start now && leb now (start + idle_limit) && not (replaces id owner u)

session_of-kept :
    (now : Time) (id : Text) (ss : List ForwardSession) {s : ForwardSession}
    → session_of id ss ≡ some s
    → is_idle now s ≡ false
    → session_of id (kept now ss) ≡ some s
unfolding session_of kept
session_of-kept now id [] h e = cc
session_of-kept now id (x ∷ ss) {s} h e = ground (arith, session_of-kept now id ss {s = s})

session_of-put :
    (id : Text) (new : ForwardSession) (ss : List ForwardSession)
    → text_eq new.id id ≡ false
    → session_of id (put new ss) ≡ session_of id ss
unfolding session_of put
session_of-put id new [] h = ground arith
session_of-put id new (s ∷ ss) h = ground (
  arith,
  session_of-put id new ss h,
  text_eq_iff s.id new.id,
  text_eq_iff s.id id,
  text_eq_iff new.id id,
)

pub session_of-put_self :
    (new : ForwardSession) (ss : List ForwardSession) → session_of new.id (put new ss) ≡ some new
unfolding session_of put
session_of-put_self new [] = ground (arith, text_eq_refl new.id)
session_of-put_self new (s ∷ ss) =
    ground (arith, session_of-put_self new ss, text_eq_refl new.id, text_eq_iff s.id new.id)

session_of-touch :
    (now : Time) (id j : Text) (ss : List ForwardSession) {s : ForwardSession}
    → session_of id ss ≡ some s
    → session_of id (touch now j ss)
      ≡ some (if text_eq s.id j then record s { touched = now } else s)
unfolding session_of touch
session_of-touch now id j [] h = cc
session_of-touch now id j (x ∷ ss) {s} h = ground (arith, session_of-touch now id j ss {s = s})

pub session_of-id :
    (id : Text) (ss : List ForwardSession) {s : ForwardSession}
    → session_of id ss ≡ some s
    → text_eq s.id id ≡ true
unfolding session_of
session_of-id id [] h = ground arith
session_of-id id (x ∷ ss) {s} h = ground (arith, session_of-id id ss {s = s})

pub session_of-without :
    (id j : Text) (ss : List ForwardSession)
    → session_of j (without id ss) ≡ (if text_eq id j then none else session_of j ss)
unfolding session_of without
session_of-without id j [] = ground arith
session_of-without id j (x ∷ ss) =
    ground
      (arith, session_of-without id j ss, text_eq_iff x.id id, text_eq_iff x.id j, text_eq_iff id j)

-- The tunnel is found, as it was but for the time of its last use, which is not before `start`.
abbrev pub IsKept : Text → Time → ForwardSession → Registry → Type 0
IsKept id start s reg =
    (t : Time) × (start ≤ t) × (session_of id reg.sessions ≡ some (record s { touched = t }))

expire-IsKept :
    (now : Time) (id : Text) (start : Time) (s : ForwardSession) (reg : Registry)
    → now ≤ start + idle_limit
    → IsKept id start s reg
    → IsKept id start s (expire now reg)
unfolding expire
expire-IsKept now id start s reg soon (t, after, h) =
    (t, after, session_of-kept now id reg.sessions h (ground arith))

touch-IsKept :
    (now : Time) (id j : Text) (start : Time) (s : ForwardSession) (reg : Registry)
    → start ≤ now
    → IsKept id start s reg
    → IsKept id start s (record reg { sessions = touch now j reg.sessions })
touch-IsKept now id j start s reg late (t, after, h) = elim (Bool-cases (text_eq s.id j)) [
  | inl e ↦ (now, late, ground (arith, e, session_of-touch now id j reg.sessions h))
  | inr e ↦ (t, after, ground (arith, e, session_of-touch now id j reg.sessions h))
]

touched_at-IsKept :
    (now : Time) (id : Text) (start : Time) (s : ForwardSession) (reg : Registry)
    (o : Option ForwardSession)
    → start ≤ now
    → IsKept id start s reg
    → IsKept id start s (touched_at now reg o).1
touched_at-IsKept now id start s reg none late h = h
touched_at-IsKept now id start s reg (some x) late h = touch-IsKept now id x.id start s reg late h

remove-IsKept :
    (id j : Text) (reader : Uuid) (start : Time) (s : ForwardSession) (reg : Registry)
    → (text_eq j id && reader == s.owner) ≡ false
    → IsKept id start s reg
    → IsKept id start s (remove j reader reg).1
unfolding remove
remove-IsKept id j reader start s reg e (t, after, h) = (
  t,
  after,
  elim (Option-cases (session_of j reg.sessions)) [
    | inl n ↦ ground (arith, n, h)
    | inr (x, f) ↦ ground (
      arith,
      f,
      h,
      session_of-without x.id id reg.sessions,
      text_eq_iff x.id id,
      text_eq_iff x.id j,
      text_eq_iff j id,
      session_of-id j reg.sessions f,
    )
  ],
)

apply_use-IsKept :
    (now : Time) (u : Use) (id : Text) (start : Time) (s : ForwardSession) (reg : Registry)
    → start ≤ now
    → now ≤ start + idle_limit
    → replaces id s.owner u ≡ false
    → IsKept id start s reg
    → IsKept id start s (apply_use now u reg)
unfolding apply_use add get list
apply_use-IsKept now (added x) id start s reg late soon spare h =
    let (t, after, found) = expire-IsKept now id start s reg soon h in
    (t, after, ground (arith, found, session_of-put id x (expire now reg).sessions spare))
apply_use-IsKept now (got j reader) id start s reg late soon spare h =
    touched_at-IsKept now id start s (expire now reg)
      (owned reader (session_of j (expire now reg).sessions)) late
      (expire-IsKept now id start s reg soon h)
apply_use-IsKept now (listed c reader) id start s reg late soon spare h =
    expire-IsKept now id start s reg soon h
apply_use-IsKept now (used j) id start s reg late soon spare h =
    touch-IsKept now id j start s reg late h
apply_use-IsKept now (stopped j reader) id start s reg late soon spare h =
    remove-IsKept id j reader start s reg spare h

-- A tunnel that was used at `start` or later stays in the registry over any sequence of uses within the
-- half hour from `start` on, where none of them is its own reader's stop of it or opens another tunnel
-- under its identity: whatever other readers ask for, it is found there, the same in every field but the
-- time of its last use.
pub run-IsKept :
    (us : List (Time × Use)) (id : Text) (start : Time) (s : ForwardSession) (reg : Registry)
    → all (spares id s.owner start) us ≡ true
    → IsKept id start s reg
    → IsKept id start s (run us reg)
unfolding run
run-IsKept [] id start s reg spared h = h
run-IsKept ((now, u) ∷ us) id start s reg spared h =
    run-IsKept us id start s (apply_use now u reg) (ground (arith, spared)) (
      apply_use-IsKept now u id start s reg (ground (arith, spared)) (ground (arith, spared))
        (ground (arith, spared)) h)
