-- ===== src/Terminal/Gate.antt =====
-- server/internal/kubectlsh/session.go: `allow`, the gate that every command of the terminal passes.
-- The proofs are in Terminal/Gate/Verbs. The messages are left out, but for which case they are of.
pub mod Verbs
use kubby.Prelude.{
  Bool, true, ◌&&◌, not, Option, none, some, List, [], ◌∷◌, map, if◌then◌else◌, any, codes, Text,
  text_eq, has_prefix,
}

-- The tables list the keys whose value is true, or, for `refusedVerbs`, that have a reason.
unfoldable pub allowed_tools : List Text
allowed_tools = codes "kubectl" ∷ codes "helm" ∷ []

abbrev kubectl_writes : List Text
kubectl_writes =
    codes "annotate"
    ∷ codes "apply"
    ∷ codes "autoscale"
    ∷ codes "cordon"
    ∷ codes "create"
    ∷ codes "delete"
    ∷ codes "drain"
    ∷ codes "edit"
    ∷ codes "expose"
    ∷ codes "label"
    ∷ codes "patch"
    ∷ codes "replace"
    ∷ codes "rollout"
    ∷ codes "run"
    ∷ codes "scale"
    ∷ codes "set"
    ∷ codes "taint"
    ∷ codes "uncordon"
    ∷ []

abbrev helm_writes : List Text
helm_writes =
    codes "install"
    ∷ codes "upgrade"
    ∷ codes "uninstall"
    ∷ codes "rollback"
    ∷ codes "delete"
    ∷ codes "push"
    ∷ codes "create"
    ∷ []

abbrev kubectl_refused : List Text
kubectl_refused =
    codes "proxy"
    ∷ codes "port-forward"
    ∷ codes "exec"
    ∷ codes "attach"
    ∷ codes "cp"
    ∷ codes "debug"
    ∷ codes "plugin"
    ∷ []

abbrev helm_refused : List Text
helm_refused = codes "plugin" ∷ []

-- A lookup in a map of maps: an unknown tool has no verbs.
abbrev by_tool : Text → List Text → List Text → List Text
by_tool tool kubectl helm =
    if text_eq tool (codes "kubectl")
    then kubectl
    else if text_eq tool (codes "helm")
    then helm
    else []

unfoldable pub is_mutating : Text → Text → Bool
is_mutating tool word = any (text_eq word) (by_tool tool kubectl_writes helm_writes)

unfoldable pub is_refused : Text → Text → Bool
is_refused tool word = any (text_eq word) (by_tool tool kubectl_refused helm_refused)

abbrev pub dashes : Text
dashes = codes "--"

abbrev pub is_flag : Text → Bool
is_flag arg = has_prefix arg (codes "-")

-- Every word before `--` that could be the verb.
unfoldable pub command_words : List Text → List Text
command_words [] = []
command_words (arg ∷ args) =
    let rest = command_words args in
    if text_eq arg dashes then [] else if is_flag arg then rest else arg ∷ rest

pub data Denial : Type 0 where
  not_a_tool : Denial
  refused_verb write_refused : Text → Denial

-- The loop over the words.
unfoldable pub check_words : Bool → Text → List Text → Option Denial
check_words may_write tool [] = none
check_words may_write tool (word ∷ words) =
    let rest = check_words may_write tool words in
    if is_refused tool word
    then some (refused_verb word)
    else if is_mutating tool word && not may_write
    then some (write_refused word)
    else rest

-- `allow` on `args[0]` and the rest; none where it returns no error.
unfoldable pub allow : Bool → Text → List Text → Option Denial
unfolding check_words command_words
allow may_write tool args =
    if not (any (text_eq tool) allowed_tools)
    then some not_a_tool
    else check_words may_write tool (command_words args)
