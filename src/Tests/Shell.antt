-- ===== src/Tests/Shell.antt =====
-- The terminal at concrete inputs.
use kubby.Prelude.{◌≡◌, refl, true, false, List, [], ◌∷◌, ◌++◌, is_some, codes, text_eq, has_prefix}
use kubby.Terminal.Split.{words, split}
use kubby.Terminal.Split.RoundTrip.{line_of, split-line_of}
use kubby.Terminal.Gate.{is_mutating, is_refused, allow}
use kubby.Terminal.Gate.Verbs.{allow_catches}
use kubby.Terminal.Session.{opened, Action, typed, up, down}
use kubby.Terminal.Session.Safety.{IsSafe, play, session-IsSafe}

split-line_of_example :
    split (line_of (codes "get" ∷ codes "a b" ∷ [])) ≡ words (codes "get" ∷ codes "a b" ∷ [])
split-line_of_example = split-line_of (codes "get") (codes "a b" ∷ [])

allow_catches_example :
    is_some (
      allow false
        (codes "kubectl")
        ((codes "-n" ∷ codes "prod" ∷ []) ++ codes "delete" ∷ codes "pod" ∷ []))
    ≡ true
unfolding text_eq has_prefix is_refused is_mutating
allow_catches_example =
    allow_catches false (codes "kubectl") (codes "delete") (codes "-n" ∷ codes "prod" ∷ [])
      (codes "pod" ∷ []) refl refl refl

abbrev typing : List Action
typing = typed (codes "kubectl get pods" ++ 13 ∷ []) ∷ up ∷ typed (13 ∷ []) ∷ down ∷ []

session-IsSafe_example : IsSafe false (play typing (opened false))
session-IsSafe_example = session-IsSafe false typing
