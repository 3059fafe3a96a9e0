-- ===== src/Settings/Running.antt =====
-- Rules that pass validation run as they were written (server/internal/settings/logs.go).
use kubby.Prelude.{
  ◌≡◌, refl, inl, inr, Bool, true, false, Option, none, List, [], ◌∷◌, map, not, codes, arith,
  if◌then◌else◌, Option-cases, Text, is_empty, trim_space,
}
use kubby.Store.Db.{select}
use kubby.Logsearch.Rules.{Rule}
use kubby.Settings.Logs.{
  LogRule, LogAnalysis, Invalid, is_none, non_empty, check_patterns, check_rule, check_rules,
  validate_log_analysis, compiled, compile_rules,
}

abbrev pub enabled : List LogRule → List LogRule
enabled [] = []
enabled (r ∷ rs) = let rest = enabled rs in if r.disabled then rest else r ∷ rest

-- A rule as it was written: its name and its phrases trimmed, the phrases that are blank left out, every
-- pattern of it, and the class "generic" where it names none.
abbrev pub as_written : LogRule → Rule
as_written r = record {
  name = trim_space r.name;
  class = if is_empty r.class then codes "generic" else r.class;
  phrases = map trim_space (select (λ p. not (is_empty (trim_space p))) r.phrases);
  capture = r.capture;
}

non_empty-select :
    (ps : List Text)
    → non_empty ps ≡ map trim_space (select (λ p. not (is_empty (trim_space p))) ps)
unfolding non_empty
non_empty-select [] = refl
non_empty-select (p ∷ ps) = ground (arith, non_empty-select ps)

module _ (lower : Text → Text) (compiles : Text → Bool) where
  compiled-valid :
      (name : Text) (ps : List Text)
      → ((p : Text) → is_empty (trim_space p) ≡ true → compiles p ≡ true)
      → check_patterns lower compiles name ps ≡ none
      → compiled compiles ps ≡ ps
  unfolding check_patterns compiled
  compiled-valid name [] blank h = refl
  compiled-valid name (p ∷ ps) blank h = ground (arith, h, blank p, compiled-valid name ps blank)

  check_rule-none :
      (name : Text) (r : LogRule) (others : Option Invalid)
      → check_rule lower compiles name r others ≡ none
      → (others ≡ none)
        × (is_none (non_empty r.phrases) ≡ false)
        × (check_patterns lower compiles name r.capture ≡ none)
  check_rule-none name r others h =
      elim (Option-cases (check_patterns lower compiles name r.capture)) [
        | inl e ↦ (ground (arith, e, h), ground (arith, e, h), e)
        | inr (x, e) ↦ absurd (ground (arith, e, h))
      ]

  check_rules-run :
      (rs : List LogRule) (seen : List Text)
      → ((p : Text) → is_empty (trim_space p) ≡ true → compiles p ≡ true)
      → check_rules lower compiles rs seen ≡ none
      → compile_rules compiles rs ≡ map as_written (enabled rs)
  unfolding check_rules compile_rules
  check_rules-run [] seen blank h = refl
  check_rules-run (r ∷ rs) seen blank h =
      let name = trim_space r.name in
      let others = check_rules lower compiles rs (lower name ∷ seen) in
      let accepted : check_rule lower compiles name r others ≡ none = ground (arith, h) in
      let parts = check_rule-none name r others accepted in
      ground (
        arith,
        parts.1,
        non_empty-select r.phrases,
        compiled-valid name r.capture blank parts.2,
        check_rules-run rs (lower name ∷ seen) blank parts.0,
      )

  -- What passes validation runs as it was written, where blank text is a valid pattern: each rule that is
  -- not disabled is compiled, none is dropped, in its order, with every pattern of it and every phrase
  -- that is not blank. Names and phrases are trimmed, and a rule without a class is "generic".
  pub compile_rules-validate :
      (value : LogAnalysis)
      → ((p : Text) → is_empty (trim_space p) ≡ true → compiles p ≡ true)
      → validate_log_analysis lower compiles value ≡ none
      → compile_rules compiles value.rules ≡ map as_written (enabled value.rules)
  unfolding validate_log_analysis
  compile_rules-validate value blank h = check_rules-run value.rules [] blank (ground (arith, h))
