-- ===== src/Terminal/Split.antt =====
-- server/internal/kubectlsh/split.go: a typed line becomes an argument slice. The proofs are in
-- Terminal/Split/RoundTrip. A line is the list of its code points.
pub mod RoundTrip
use kubby.Prelude.{
  ℕ, Bool, true, false, ◌&&◌, ◌||◌, not, Option, none, some, List, [], ◌∷◌, ◌++◌, ◌==◌,
  if◌then◌else◌, is_some, Text,
}

pub data SplitError : Type 0 where
  unclosed_quote : ℕ → SplitError
  trailing_backslash nothing_to_run : SplitError

-- The variables of the loop: `current` is the builder, and `args` holds the finished arguments.
pub record State : Type 0 where
  pub args : List Text
  pub current : Text
  pub quote : Option ℕ
  pub escaped : Bool
  pub is_open : Bool

abbrev pub start : State
start = record { args = []; current = []; quote = none; escaped = false; is_open = false }

abbrev pub backslash : ℕ
backslash = 92

abbrev pub is_quote : ℕ → Bool
is_quote r = r == b'\'' || r == b'"'

abbrev quote_is : Option ℕ → ℕ → Bool
quote_is none r = false
quote_is (some q) r = r == q

abbrev pub write : State → ℕ → State
write s r = record s { current = s.current ++ r ∷ [] }

abbrev pub finish_word : State → State
finish_word s = record s { args = s.args ++ s.current ∷ []; current = []; is_open = false }

-- The switch of the loop, in its order.
unfoldable pub step : State → ℕ → State
step s r =
    if s.escaped
    then record (write s r) { escaped = false; is_open = true }
    else if r == backslash && not (quote_is s.quote b'\'')
    then record s { escaped = true }
    else if is_some s.quote
    then (if quote_is s.quote r then record s { quote = none } else write s r)
    else if is_quote r
    then record s { quote = some r; is_open = true }
    else if r == b' ' || r == 9
    then (if s.is_open then finish_word s else s)
    else record (write s r) { is_open = true }

unfoldable pub scan : State → Text → State
scan s [] = s
scan s (r ∷ rs) = scan (step s r) rs

pub data Split : Type 0 where
  words : List Text → Split
  refused : SplitError → Split

abbrev some_words : List Text → Split
some_words [] = refused nothing_to_run
some_words (w ∷ ws) = words (w ∷ ws)

abbrev last_word : State → List Text
last_word s = if s.is_open then s.args ++ s.current ∷ [] else s.args

abbrev finish_unquoted : State → Split
finish_unquoted s = if s.escaped then refused trailing_backslash else some_words (last_word s)

-- What stands behind the loop.
unfoldable pub finish : State → Split
finish s = elim s.quote [ some q ↦ refused (unclosed_quote q) | none ↦ finish_unquoted s ]

unfoldable pub split : Text → Split
unfolding scan step finish
split line = finish (scan start line)
