-- ===== src/Config/ValidateRule.antt =====
-- internal/config/config.go, `validateRule` and `validateNotifyOff`: each error message is a
-- constructor. The compilers of patterns are parameters.
use malert.Base.{
  ◌==◌, is_some, int64_mod, ltb_i64, Text, codes, text_eq, trim_space, is_empty, Unicode, ℕ, ◌+◌,
  ◌%◌, ◌⊎◌, inl, inr, Bool, true, false, not, ◌&&◌, ◌||◌, Option, none, some, List, [], ◌∷◌, ◌++◌,
}
use malert.Config.Rule.{
  AlertType, count_total, count_window, missing_heartbeat, other_type, Regexp, RuleNotifyOff,
  RuleConfig,
}
use malert.Config.Checks.{first_failing, is_nonpositive, is_negative, is_positive}
use malert.Config.OffWindow.{compile_notify_off_window}
use malert.Config.Predicate.{validate_value_predicate}

pub data RuleError : Type 0 where
  name_required match_type_required match_var_required from_tags_required : RuleError
  unsupported_alert_type unsupported_match_type : Text → RuleError
  invalid_match_value delay_sec_not_positive route_required : RuleError
  invalid_notify_off : ℕ → RuleError
  raise_n_below_one silence_sec_negative hysteresis_sec_negative : RuleError
  window_sec_not_positive missing_sec_not_positive : RuleError
  count_total_forbids count_window_forbids missing_heartbeat_forbids : RuleError

abbrev pub is_none_of : {A : Type 0} → List A → Bool
is_none_of [] = true
is_none_of (a ∷ rest) = false

abbrev pub alert_type_checks : AlertType → List (Bool × RuleError)
alert_type_checks count_total = []
alert_type_checks count_window = []
alert_type_checks missing_heartbeat = []
alert_type_checks (other_type t) = (true, unsupported_alert_type t) ∷ []

-- The loop over `match.type`.
unfoldable pub match_type_checks : List Text → List (Bool × RuleError)
match_type_checks [] = []
match_type_checks (t ∷ rest) =
    (not (text_eq t (codes "event")) && not (text_eq t (codes "agg")), unsupported_match_type t)
    ∷ match_type_checks rest

-- The checks before the value predicate.
unfoldable pub selector_checks : RuleConfig → List (Bool × RuleError)
unfolding match_type_checks
selector_checks rule =
    (is_empty (trim_space rule.name), name_required)
    ∷ (alert_type_checks rule.alert_type
        ++ (((is_none_of rule.match.kinds, match_type_required)
              ∷ match_type_checks rule.match.kinds)
            ++ ((is_none_of rule.match.vars, match_var_required)
                ∷ (is_none_of rule.key.from_tags, from_tags_required)
                ∷ [])))

-- `validateNotifyOff` from the window with the given index on.
unfoldable pub notify_off_checks : Unicode → List RuleNotifyOff → ℕ → List (Bool × RuleError)
unfolding compile_notify_off_window
notify_off_checks u [] index = []
notify_off_checks u (window ∷ rest) index =
    (not (is_some (compile_notify_off_window u window)), invalid_notify_off index)
    ∷ notify_off_checks u rest (index + 1)

-- The last switch.
unfoldable pub threshold_checks : RuleConfig → AlertType → List (Bool × RuleError)
threshold_checks rule count_total =
    (ltb_i64 rule.raise.n 1, raise_n_below_one)
    ∷ (is_negative rule.resolve.silence_sec, silence_sec_negative)
    ∷ (is_negative rule.resolve.hysteresis_sec, hysteresis_sec_negative)
    ∷ (is_positive rule.raise.window_sec || is_positive rule.raise.missing_sec, count_total_forbids)
    ∷ []
threshold_checks rule count_window =
    (ltb_i64 rule.raise.n 1, raise_n_below_one)
    ∷ (is_nonpositive rule.raise.window_sec, window_sec_not_positive)
    ∷ (is_negative rule.resolve.silence_sec, silence_sec_negative)
    ∷ (is_negative rule.resolve.hysteresis_sec, hysteresis_sec_negative)
    ∷ (is_positive rule.raise.missing_sec, count_window_forbids)
    ∷ []
threshold_checks rule missing_heartbeat =
    (is_nonpositive rule.raise.missing_sec, missing_sec_not_positive)
    ∷ (is_negative rule.resolve.hysteresis_sec, hysteresis_sec_negative)
    ∷ (
      is_positive rule.raise.n
          || is_positive rule.raise.window_sec
          || not (rule.resolve.silence_sec % int64_mod == 0),
      missing_heartbeat_forbids,
    )
    ∷ []
threshold_checks rule (other_type t) = []

-- The checks after the value predicate.
unfoldable pub behaviour_checks : Unicode → RuleConfig → List (Bool × RuleError)
unfolding notify_off_checks threshold_checks
behaviour_checks u rule =
    (rule.pending.enabled && is_nonpositive rule.pending.delay_sec, delay_sec_not_positive)
    ∷ (is_none_of rule.notify.route, route_required)
    ∷ (notify_off_checks u rule.notify.off 0 ++ threshold_checks rule rule.alert_type)

-- The order of the checks: those before the value predicate, the predicate, and those after it.
abbrev pub first_error :
    Option RuleError → Option RuleConfig → Option RuleError → RuleError ⊎ RuleConfig
first_error (some e) compiled later = inl e
first_error none none later = inl invalid_match_value
first_error none (some rule) (some e) = inl e
first_error none (some rule) none = inr rule

module _ (compile_regexp compile_wildcard : Text → Option Regexp) where
  -- The check of the value predicate, which compiles its pattern in place.
  unfoldable pub validate_match_value : RuleConfig → Option RuleConfig
  unfolding validate_value_predicate
  validate_match_value rule = elim rule.match.value [
    | none ↦ some rule
    | some predicate ↦ elim (validate_value_predicate compile_regexp compile_wildcard predicate) [
      | none ↦ none
      | some compiled ↦ some (record rule { match = record rule.match { value = some compiled } })
    ]
  ]

  -- `validateRule`: an error, or the rule with its compiled patterns.
  unfoldable pub validate_rule : Unicode → RuleConfig → RuleError ⊎ RuleConfig
  unfolding selector_checks behaviour_checks validate_match_value first_failing
  validate_rule u rule =
      first_error (first_failing (selector_checks rule)) (validate_match_value rule)
        (first_failing (behaviour_checks u rule))
