-- ===== src/Config/Predicate.antt =====
-- internal/config/config.go, `validateValuePredicate`: the check of a rule's value predicate, which
-- also compiles its pattern.
use malert.Base.{
  is_some, Text, codes, text_eq, Bool, true, false, not, Option, none, some, List, [], ◌∷◌,
  if◌then◌else◌,
}
use malert.Config.Rule.{Regexp, RuleValuePredicate}
use malert.Engine.Matcher.{is_supported_op}

abbrev no_texts : List Text → Bool
no_texts [] = true
no_texts (a ∷ rest) = false

module _ (compile_regexp compile_wildcard : Text → Option Regexp) where
  -- The branches of `case "s"` on the operators with a pattern; `none` is an error.
  unfoldable pub compile_operand : RuleValuePredicate → Text → Option RuleValuePredicate
  compile_operand p s =
      if text_eq p.op (codes "match")
      then elim (compile_regexp s) [
        | none ↦ none
        | some re ↦ some (record p { compiled_match_re = some re })
      ]
      else if text_eq p.op (codes "*")
      then elim (compile_wildcard s) [
        | none ↦ none
        | some re ↦ some (record p { compiled_wildcard_re = some re })
      ]
      else some p

  -- The branch `case "s"`. No operator is both `in` and one with a pattern.
  unfoldable pub validate_text_predicate : RuleValuePredicate → Option RuleValuePredicate
  unfolding compile_operand
  validate_text_predicate p =
      if text_eq p.op (codes "in")
      then (if no_texts p.in_values then none else some p)
      else elim p.s [ none ↦ none | some s ↦ compile_operand p s ]

  -- `validateValuePredicate`: the predicate with its compiled pattern, or `none` for an error.
  unfoldable pub validate_value_predicate : RuleValuePredicate → Option RuleValuePredicate
  unfolding validate_text_predicate is_supported_op
  validate_value_predicate raw =
      let p : RuleValuePredicate = record raw {
        compiled_match_re = none;
        compiled_wildcard_re = none;
      } in
      if not (is_supported_op p.kind p.op)
      then none
      else if text_eq p.kind (codes "n")
      then (if is_some p.n then some p else none)
      else if text_eq p.kind (codes "s")
      then validate_text_predicate p
      else if text_eq p.kind (codes "b")
      then (if is_some p.b then some p else none)
      else none
