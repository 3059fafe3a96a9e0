-- ===== src/Terminal/Session.antt =====
-- server/internal/kubectlsh/session.go: the line editor and the dispatch of a typed line. The proofs
-- are in Terminal/Session/Safety.
--
-- What is written to the screen is left out. Starting a process is a step of the state: `executed`
-- holds the argument slices handed to it, newest last, and `recorded` what reached `OnCommand`.
-- A command runs to its end before the next key is read: Ctrl+C at a running command, which cancels
-- it from another goroutine, is left out, as is the state of the running process.
pub mod Safety
use kubby.Prelude.{
  ℕ, zero, suc, ◌+◌, ◌-◌, Bool, true, false, ◌||◌, List, [], ◌∷◌, ◌++◌, ltb, ◌==◌, if◌then◌else◌,
  is_some, length, codes, Text, text_eq, trim_space,
}
use kubby.Terminal.Split.{Split, words, refused, split}
use kubby.Terminal.Gate.{allow}

pub record Session : Type 0 where
  pub may_write : Bool
  pub line : Text
  pub history : List Text
  pub browsing : ℕ
  pub executed : List (List Text)
  pub recorded : List (Text × Bool)

abbrev pub opened : Bool → Session
opened may_write = record {
  may_write = may_write;
  line = [];
  history = [];
  browsing = 0;
  executed = [];
  recorded = [];
}

abbrev pub record_command : Text → Bool → Session → Session
record_command line allowed s = record s { recorded = s.recorded ++ (line, allowed) ∷ [] }

abbrev pub execute : List Text → Session → Session
execute args s = record s { executed = s.executed ++ args ∷ [] }

-- `split` returns at least one word.
abbrev pub gate : Text → List Text → Session → Session
gate line [] s = s
gate line (tool ∷ args) s =
    if is_some (allow s.may_write tool args)
    then record_command line false s
    else execute (tool ∷ args) (record_command line true s)

abbrev pub dispatch : Text → Split → Session → Session
dispatch line (refused e) s = record_command line false s
dispatch line (words args) s = gate line args s

abbrev pub is_builtin : Text → Bool
is_builtin line =
    text_eq line (codes "exit")
    || text_eq line (codes "quit")
    || text_eq line (codes "clear")
    || text_eq line (codes "help")

abbrev pub is_empty : Text → Bool
is_empty [] = true
is_empty (c ∷ cs) = false

abbrev pub remember : Text → Session → Session
remember line s = record s { history = s.history ++ line ∷ [] }

unfoldable pub run : Text → Session → Session
run line s =
    if is_empty line
    then s
    else if is_builtin line
    then remember line s
    else dispatch line (split line) (remember line s)

abbrev pub drop_last : Text → Text
drop_last [] = []
drop_last (c ∷ []) = []
drop_last (c ∷ d ∷ cs) = c ∷ drop_last (d ∷ cs)

-- One character: Enter, Ctrl+C at the prompt, backspace, Ctrl+L, another control, a character.
unfoldable pub key : ℕ → Session → Session
unfolding run
key r s =
    if r == 13 || r == 10
    then run (trim_space s.line) (record s { line = []; browsing = 0 })
    else if r == 3
    then record s { line = [] }
    else if r == 127 || r == 8
    then record s { line = drop_last s.line }
    else if ltb r 32
    then s
    else record s { line = s.line ++ r ∷ [] }

unfoldable pub input : Text → Session → Session
input [] s = s
input (r ∷ rs) s = input rs (key r s)

-- The history counted back from its end, `history[len(history)-next]`; the empty line at 0.
abbrev entry_at : List Text → ℕ → Text
entry_at [] i = []
entry_at (x ∷ xs) zero = x
entry_at (x ∷ xs) (suc i) = entry_at xs i

abbrev pub recalled : List Text → ℕ → Text
recalled history zero = []
recalled history (suc n) = entry_at history (length history - suc n)

abbrev pub move_to : ℕ → Session → Session
move_to next s =
    if ltb (length s.history) next
    then s
    else record s { browsing = next; line = recalled s.history next }

-- The arrow up, `recall(1)`, and the arrow down, `recall(-1)`, which stops below 0.
unfoldable pub recall_up : Session → Session
recall_up s = move_to (s.browsing + 1) s

unfoldable pub recall_down : Session → Session
recall_down s = if s.browsing == 0 then s else move_to (s.browsing - 1) s

-- What a reader may send.
pub data Action : Type 0 where
  typed : Text → Action
  up down : Action

unfoldable pub act : Action → Session → Session
act (typed text) s = input text s
act up s = recall_up s
act down s = recall_down s
