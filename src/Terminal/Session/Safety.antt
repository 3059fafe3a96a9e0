-- ===== src/Terminal/Session/Safety.antt =====
-- What a session can have started, and where the reader stands in the history
-- (server/internal/kubectlsh/session.go).
use kubby.Prelude.{
  ℕ, suc, ◌+◌, ◌-◌, ◌≤◌, ◌≡◌, refl, inl, inr, Bool, true, false, ◌||◌, List, [], ◌∷◌, ◌++◌, arith,
  ltb, ◌==◌, if◌then◌else◌, Bool-cases, is_some, length, length-append, All, All-append, Text,
  trim_space,
}
use kubby.Terminal.Split.{Split, split, words, refused}
use kubby.Terminal.Gate.{allow}
use kubby.Terminal.Session.{
  Session, opened, record_command, execute, gate, dispatch, is_builtin, is_empty, remember, run,
  drop_last, key, input, move_to, recall_up, recall_down, Action, typed, up, down, act,
}

-- What was handed to a process passed the gate.
abbrev pub Passed : Bool → List Text → Type 0
Passed may_write [] = ⊥
Passed may_write (tool ∷ args) = is_some (allow may_write tool args) ≡ false

-- The commands that were recorded as allowed.
abbrev pub allowed_count : List (Text × Bool) → ℕ
allowed_count [] = 0
allowed_count ((line, allowed) ∷ rest) = let n = allowed_count rest in if allowed then suc n else n

pub record IsSafe (may_write : Bool) (s : Session) : Type 0 where
  pub same : s.may_write ≡ may_write
  pub passed : All (Passed may_write) s.executed
  pub audited : length s.executed ≡ allowed_count s.recorded
  pub in_history : s.browsing ≤ length s.history

allowed_count-append :
    (xs : List (Text × Bool)) (line : Text) (b : Bool)
    → allowed_count (xs ++ (line, b) ∷ []) ≡ (if b then allowed_count xs + 1 else allowed_count xs)
allowed_count-append [] line b = ground arith
allowed_count-append ((l, true) ∷ xs) line b = ground (arith, allowed_count-append xs line b)
allowed_count-append ((l, false) ∷ xs) line b = ground (arith, allowed_count-append xs line b)

record_command-IsSafe :
    (may_write : Bool) (line : Text) (s : Session)
    → IsSafe may_write s
    → IsSafe may_write (record_command line false s)
record_command-IsSafe may_write line s h = record {
  same = h.same;
  passed = h.passed;
  audited = omega (arith, h.audited, allowed_count-append s.recorded line false);
  in_history = h.in_history;
}

execute-IsSafe :
    (may_write : Bool) (line tool : Text) (args : List Text) (s : Session)
    → IsSafe may_write s
    → is_some (allow s.may_write tool args) ≡ false
    → IsSafe may_write (execute (tool ∷ args) (record_command line true s))
execute-IsSafe may_write line tool args s h e = record {
  same = h.same;
  passed =
      All-append (Passed may_write) s.executed ((tool ∷ args) ∷ []) h.passed
        (rw (← h.same) (e, tt));
  audited = omega (
    arith,
    h.audited,
    length-append {0} s.executed ((tool ∷ args) ∷ []),
    allowed_count-append s.recorded line true,
  );
  in_history = h.in_history;
}

gate-IsSafe :
    (may_write : Bool) (line : Text) (args : List Text) (s : Session)
    → IsSafe may_write s
    → IsSafe may_write (gate line args s)
gate-IsSafe may_write line [] s h = h
gate-IsSafe may_write line (tool ∷ args) s h =
    elim (Bool-cases (is_some (allow s.may_write tool args))) [
      | inl e ↦ rw e (record_command-IsSafe may_write line s h)
      | inr e ↦ rw e (execute-IsSafe may_write line tool args s h e)
    ]

dispatch-IsSafe :
    (may_write : Bool) (line : Text) (parts : Split) (s : Session)
    → IsSafe may_write s
    → IsSafe may_write (dispatch line parts s)
dispatch-IsSafe may_write line (refused e) s h = record_command-IsSafe may_write line s h
dispatch-IsSafe may_write line (words args) s h = gate-IsSafe may_write line args s h

remember-IsSafe :
    (may_write : Bool) (line : Text) (s : Session)
    → IsSafe may_write s
    → IsSafe may_write (remember line s)
remember-IsSafe may_write line s h = record {
  same = h.same;
  passed = h.passed;
  audited = h.audited;
  in_history = omega (arith, h.in_history, length-append {0} s.history (line ∷ []));
}

run-IsSafe :
    (may_write : Bool) (line : Text) (s : Session)
    → IsSafe may_write s
    → IsSafe may_write (run line s)
unfolding run
run-IsSafe may_write line s h =
    let remembered = remember-IsSafe may_write line s h in
    elim (Bool-cases (is_empty line)) [
      | inl e ↦ rw e h
      | inr e ↦ rw e (elim (Bool-cases (is_builtin line)) [
        | inl b ↦ rw b remembered
        | inr b ↦ rw b (dispatch-IsSafe may_write line (split line) (remember line s) remembered)
      ])
    ]

edited-IsSafe :
    (may_write : Bool) (line : Text) (s : Session)
    → IsSafe may_write s
    → IsSafe may_write (record s { line = line })
edited-IsSafe may_write line s h = record {
  same = h.same;
  passed = h.passed;
  audited = h.audited;
  in_history = h.in_history;
}

entered-IsSafe :
    (may_write : Bool) (s : Session)
    → IsSafe may_write s
    → IsSafe may_write (record s { line = []; browsing = 0 })
entered-IsSafe may_write s h = record {
  same = h.same;
  passed = h.passed;
  audited = h.audited;
  in_history = omega arith;
}

if-IsSafe :
    (may_write b : Bool) (s t : Session)
    → IsSafe may_write s
    → IsSafe may_write t
    → IsSafe may_write (if b then s else t)
if-IsSafe may_write true s t hs ht = hs
if-IsSafe may_write false s t hs ht = ht

key-IsSafe :
    (may_write : Bool) (r : ℕ) (s : Session) → IsSafe may_write s → IsSafe may_write (key r s)
unfolding key
key-IsSafe may_write r s h = elim (Bool-cases (r == 13 || r == 10)) [
  | inl e ↦ rw e (
      run-IsSafe may_write (trim_space s.line) (record s { line = []; browsing = 0 })
        (entered-IsSafe may_write s h))
  | inr e ↦ rw e (
      if-IsSafe may_write (r == 3) (record s { line = [] })
        (if r == 127 || r == 8
          then record s { line = drop_last s.line }
          else if ltb r 32
          then s
          else record s { line = s.line ++ r ∷ [] })
        (edited-IsSafe may_write [] s h)
        (if-IsSafe may_write (r == 127 || r == 8) (record s { line = drop_last s.line })
          (if ltb r 32 then s else record s { line = s.line ++ r ∷ [] })
          (edited-IsSafe may_write (drop_last s.line) s h)
          (if-IsSafe may_write (ltb r 32) s (record s { line = s.line ++ r ∷ [] }) h
            (edited-IsSafe may_write (s.line ++ r ∷ []) s h))))
]

input-IsSafe :
    (may_write : Bool) (text : Text) (s : Session)
    → IsSafe may_write s
    → IsSafe may_write (input text s)
unfolding input
input-IsSafe may_write [] s h = h
input-IsSafe may_write (r ∷ rs) s h =
    input-IsSafe may_write rs (key r s) (key-IsSafe may_write r s h)

move_to-IsSafe :
    (may_write : Bool) (next : ℕ) (s : Session)
    → IsSafe may_write s
    → IsSafe may_write (move_to next s)
move_to-IsSafe may_write next s h = elim (Bool-cases (ltb (length s.history) next)) [
  | inl e ↦ rw e h
  | inr e ↦ rw e (record {
    same = h.same;
    passed = h.passed;
    audited = h.audited;
    in_history = ground (arith, e);
  })
]

act-IsSafe :
    (may_write : Bool) (a : Action) (s : Session) → IsSafe may_write s → IsSafe may_write (act a s)
unfolding act recall_up recall_down
act-IsSafe may_write (typed text) s h = input-IsSafe may_write text s h
act-IsSafe may_write up s h = move_to-IsSafe may_write (s.browsing + 1) s h
act-IsSafe may_write down s h =
    if-IsSafe may_write (s.browsing == 0) s (move_to (s.browsing - 1) s) h
      (move_to-IsSafe may_write (s.browsing - 1) s h)

-- Whatever a reader sends.
abbrev pub play : List Action → Session → Session
play [] s = s
play (a ∷ rest) s = play rest (act a s)

play-IsSafe :
    (may_write : Bool) (actions : List Action) (s : Session)
    → IsSafe may_write s
    → IsSafe may_write (play actions s)
play-IsSafe may_write [] s h = h
play-IsSafe may_write (a ∷ rest) s h =
    play-IsSafe may_write rest (act a s) (act-IsSafe may_write a s h)

-- Whatever a reader sends to a fresh session, every command that was started passed the gate with
-- the permission that the session was opened with, as many are recorded as allowed as were
-- started, and the place in the history is within it.
pub session-IsSafe :
    (may_write : Bool) (actions : List Action) → IsSafe may_write (play actions (opened may_write))
session-IsSafe may_write actions =
    play-IsSafe may_write actions (opened may_write)
      (record { same = refl; passed = tt; audited = refl; in_history = omega arith })
