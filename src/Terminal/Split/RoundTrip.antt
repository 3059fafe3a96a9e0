-- ===== src/Terminal/Split/RoundTrip.antt =====
-- Quoting arguments and splitting the line (server/internal/kubectlsh/split.go).
use mathlib.Core.List.{append-nil, append_assoc}
use kubby.Prelude.{◌≡◌, refl, ap, ◌∙◌, true, false, none, some, List, [], ◌∷◌, ◌++◌, Text}
use kubby.Terminal.Split.{State, backslash, step, scan, words, finish, split}

-- A writer that the program does not have: each character behind a backslash, in double quotes.
unfoldable pub escape : Text → Text
escape [] = []
escape (c ∷ cs) = backslash ∷ c ∷ escape cs

abbrev pub quoted : Text → Text
quoted w = b'"' ∷ (escape w ++ b'"' ∷ [])

abbrev pub line_of : List Text → Text
line_of [] = []
line_of (w ∷ ws) = quoted w ++ b' ' ∷ line_of ws

scan-append : (s : State) (xs ys : Text) → scan s (xs ++ ys) ≡ scan (scan s xs) ys
unfolding scan
scan-append s [] ys = refl
scan-append s (x ∷ xs) ys = scan-append (step s x) xs ys

abbrev inside : List Text → Text → State
inside args current = record {
  args = args;
  current = current;
  quote = some b'"';
  escaped = false;
  is_open = true;
}

abbrev between : List Text → State
between args = record { args = args; current = []; quote = none; escaped = false; is_open = false }

scan-escape :
    (w : Text) (args : List Text) (current : Text)
    → scan (inside args current) (escape w) ≡ inside args (current ++ w)
unfolding scan step escape
scan-escape [] args current = simp append-nil
scan-escape (c ∷ cs) args current = scan-escape cs args (current ++ c ∷ []) ∙ simp append_assoc

scan-quoted :
    (w : Text) (args : List Text) (rest : Text)
    → scan (between args) (quoted w ++ b' ' ∷ rest) ≡ scan (between (args ++ w ∷ [])) rest
unfolding scan step
scan-quoted w args rest =
    ap (scan (inside args [])) (append_assoc (escape w) (b'"' ∷ []) (b' ' ∷ rest))
    ∙ scan-append (inside args []) (escape w) (b'"' ∷ b' ' ∷ rest)
    ∙ ap (λ s. scan s (b'"' ∷ b' ' ∷ rest)) (scan-escape w args [])

scan-line_of :
    (ws : List Text) (args : List Text) → scan (between args) (line_of ws) ≡ between (args ++ ws)
unfolding scan
scan-line_of [] args = simp append-nil
scan-line_of (w ∷ ws) args =
    scan-quoted w args (line_of ws) ∙ scan-line_of ws (args ++ w ∷ []) ∙ simp append_assoc

-- Every argument slice but the empty one has a line that splits into it: with each argument in
-- double quotes, and each of its characters behind a backslash, none of them means anything.
pub split-line_of : (w : Text) (ws : List Text) → split (line_of (w ∷ ws)) ≡ words (w ∷ ws)
unfolding split finish
split-line_of w ws = rw (scan-line_of (w ∷ ws) [])
