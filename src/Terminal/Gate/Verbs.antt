-- ===== src/Terminal/Gate/Verbs.antt =====
-- Which commands pass the gate (server/internal/kubectlsh/session.go).
use kubby.Prelude.{
  ◌≡◌, refl, ◌∙◌, inl, inr, Bool, true, false, ◌&&◌, ◌||◌, not, List, [], ◌∷◌, ◌++◌, arith,
  Bool-cases, is_some, any, all, Text, text_eq, eq_of_text_eq, text_eq_iff, has_prefix,
}
use kubby.Terminal.Gate.{
  allowed_tools, is_mutating, is_refused, dashes, is_flag, command_words, check_words, allow,
}

abbrev pub passes : Bool → Text → Text → Bool
passes may_write tool word =
    not (is_refused tool word) && (may_write || not (is_mutating tool word))

check_words-all :
    (may_write : Bool) (tool : Text) (words : List Text)
    → is_some (check_words may_write tool words) ≡ not (all (passes may_write tool) words)
unfolding check_words
check_words-all may_write tool [] = refl
check_words-all may_write tool (w ∷ ws) = ground (arith, check_words-all may_write tool ws)

-- A command passes exactly if its tool is one of the two and every word before `--` that is no flag
-- passes: it is not a refused verb, and not a mutating one unless the reader may write.
allow-all :
    (may_write : Bool) (tool : Text) (args : List Text)
    → is_some (allow may_write tool args)
      ≡ not (any (text_eq tool) allowed_tools && all (passes may_write tool) (command_words args))
unfolding allow
allow-all may_write tool args = ground (arith, check_words-all may_write tool (command_words args))

all_words-append :
    (p : Text → Bool) (before after : List Text) (verb : Text)
    → any (text_eq dashes) before ≡ false
    → text_eq verb dashes ≡ false
    → is_flag verb ≡ false
    → p verb ≡ false
    → all p (command_words (before ++ verb ∷ after)) ≡ false
unfolding command_words
all_words-append p [] after verb h e f bad = ground arith
all_words-append p (b ∷ bs) after verb h e f bad =
    ground (arith, text_eq_iff dashes b, text_eq_iff b dashes, all_words-append p bs after verb)

dashes-is_flag : is_flag dashes ≡ true
unfolding has_prefix
dashes-is_flag = refl

not_dashes : (verb : Text) → is_flag verb ≡ false → text_eq verb dashes ≡ false
not_dashes verb f = elim (Bool-cases (text_eq verb dashes)) [
  | inl e ↦ cc (rw (eq_of_text_eq verb dashes e) at f, dashes-is_flag)
  | inr e ↦ e
]

-- A mutating or a refused verb is caught wherever it stands before the first `--`, behind whatever
-- flags and values, also for a reader who may write if the verb is a refused one.
pub allow_catches :
    (may_write : Bool) (tool verb : Text) (before after : List Text)
    → any (text_eq dashes) before ≡ false
    → is_flag verb ≡ false
    → (is_refused tool verb || (is_mutating tool verb && not may_write)) ≡ true
    → is_some (allow may_write tool (before ++ verb ∷ after)) ≡ true
allow_catches may_write tool verb before after h f bad =
    allow-all may_write tool (before ++ verb ∷ after)
    ∙ ground (arith, all_words-append (passes may_write tool) before after verb, not_dashes verb f)
