-- ===== src/Settings/Logs.antt =====
-- server/internal/settings/logs.go: what counts as a problem in a log line, as an administrator edits it.
--
-- `lower` is strings.ToLower and `compiles` regexp.Compile. A message with a name in it is a constructor
-- with that name.
use kubby.Prelude.{
  ℕ, ◌*◌, Bool, true, false, ◌&&◌, ◌||◌, not, Option, none, some, List, [], ◌∷◌, map, ltb, ◌==◌,
  if◌then◌else◌, ℤ, pos, negsuc, length, any, Text, text_eq, is_empty, trim_space,
}
use kubby.Store.Models.{Duration}
use kubby.Logsearch.Rules.{
  Rule, class_auth, class_unreachable, class_timeout, class_generic, default_rules, Fields,
  default_fields,
}

pub record LogRule : Type 0 where
  pub name : Text
  pub class : Text
  pub phrases : List Text
  pub capture : List Text
  pub disabled : Bool

pub record LogAnalysis : Type 0 where
  pub fields : Fields
  pub rules : List LogRule
  pub window_minutes : ℤ
  pub min_count : ℤ

pub data Invalid : Type 0 where
  image_missing image_spaced namespace_missing : Invalid
  unknown_sink : Text → Invalid
  url_missing url_malformed url_scheme url_host : Invalid
  window_out_of_range min_count_negative too_many_rules rule_unnamed : Invalid
  same_name unknown_class no_phrases too_many_phrases : Text → Invalid
  bad_pattern : Text → Text → Invalid

abbrev pub default_window_minutes : ℕ
default_window_minutes = 15

abbrev pub default_min_count : ℕ
default_min_count = 3

abbrev pub max_window_minutes : ℕ
max_window_minutes = 1440

abbrev pub max_rules : ℕ
max_rules = 60

abbrev pub max_phrases_per_rule : ℕ
max_phrases_per_rule = 40

abbrev pub is_class : Text → Bool
is_class class =
    text_eq class class_auth
    || text_eq class class_unreachable
    || text_eq class class_timeout
    || text_eq class class_generic

abbrev as_stored : Rule → LogRule
as_stored r = record {
  name = r.name;
  class = r.class;
  phrases = r.phrases;
  capture = r.capture;
  disabled = false;
}

abbrev pub default_log_analysis : LogAnalysis
default_log_analysis = record {
  fields = default_fields;
  rules = map as_stored default_rules;
  window_minutes = pos default_window_minutes;
  min_count = pos default_min_count;
}

unfoldable pub non_empty : List Text → List Text
unfolding trim_space
non_empty [] = []
non_empty (v ∷ vs) =
    let rest = non_empty vs in if is_empty (trim_space v) then rest else trim_space v ∷ rest

abbrev pub is_none : List Text → Bool
is_none [] = true
is_none (t ∷ ts) = false

abbrev pub is_negative : ℤ → Bool
is_negative (pos n) = false
is_negative (negsuc n) = true

abbrev pub exceeds : ℤ → ℕ → Bool
exceeds (pos n) limit = ltb limit n
exceeds (negsuc n) limit = false

abbrev pub positive : ℤ → ℕ → ℕ
positive (pos n) fallback = if n == 0 then fallback else n
positive (negsuc n) fallback = fallback

abbrev pub minutes : ℤ → ℕ → Duration
minutes value fallback = positive value fallback * 60000000000

abbrev pub or_generic : Text → Text
or_generic class = if is_empty class then class_generic else class

module _ (lower : Text → Text) (compiles : Text → Bool) where
  unfoldable pub check_patterns : Text → List Text → Option Invalid
  unfolding trim_space
  check_patterns name [] = none
  check_patterns name (p ∷ ps) =
      let rest = check_patterns name ps in
      if is_empty (trim_space p) || compiles p then rest else some (bad_pattern name p)

  -- A rule whose trimmed name is `name`; `others` is what stands behind it.
  abbrev pub check_rule : Text → LogRule → Option Invalid → Option Invalid
  check_rule name r others =
      if not (is_empty r.class) && not (is_class r.class)
      then some (unknown_class name)
      else if is_none (non_empty r.phrases)
      then some (no_phrases name)
      else if ltb max_phrases_per_rule (length r.phrases)
      then some (too_many_phrases name)
      else elim (check_patterns name r.capture) [ some e ↦ some e | none ↦ others ]

  -- The loop; `seen` is the names so far, in lower case.
  unfoldable pub check_rules : List LogRule → List Text → Option Invalid
  unfolding trim_space text_eq non_empty check_patterns
  check_rules [] seen = none
  check_rules (r ∷ rs) seen =
      let name = trim_space r.name in
      let others = check_rules rs (lower name ∷ seen) in
      if is_empty name
      then some rule_unnamed
      else if any (λ n. text_eq n (lower name)) seen
      then some (same_name name)
      else check_rule name r others

  unfoldable pub validate_log_analysis : LogAnalysis → Option Invalid
  unfolding check_rules
  validate_log_analysis value =
      let rules = check_rules value.rules [] in
      if is_negative value.window_minutes || exceeds value.window_minutes max_window_minutes
      then some window_out_of_range
      else if is_negative value.min_count
      then some min_count_negative
      else if ltb max_rules (length value.rules)
      then some too_many_rules
      else rules

module _ (compiles : Text → Bool) where
  unfoldable pub compiled : List Text → List Text
  compiled [] = []
  compiled (p ∷ ps) = let rest = compiled ps in if compiles p then p ∷ rest else rest

  unfoldable pub compile_rules : List LogRule → List Rule
  unfolding trim_space non_empty compiled
  compile_rules [] = []
  compile_rules (r ∷ rs) =
      let rest = compile_rules rs in
      let phrases = non_empty r.phrases in
      if r.disabled || is_none phrases
      then rest
      else record {
        name = trim_space r.name;
        class = or_generic r.class;
        phrases = phrases;
        capture = compiled r.capture;
      }
        ∷ rest

pub record SweepOptions : Type 0 where
  pub window : Duration
  pub min_count : ℕ
