-- ===== src/Config/ValidRule.antt =====
-- internal/config/config.go, `validateRule`: the rules that pass it, without the order of its
-- checks.
use malert.Base.{
  All, Int64, int64_mod, ltb_i64, Text, codes, text_eq, text_eq_iff, trim_space, is_empty, Unicode,
  ℕ, ◌%◌, ◌≡◌, refl, ◌≢◌, ◌↔◌, ◌⊎◌, true, false, not, ◌&&◌, none, some, List, [], ◌∷◌, ◌++◌, arith,
  ◌==◌, is_some, Option-cases, ◌+◌, inl, inr, Bool, Option, before,
}
use malert.Config.Rule.{
  AlertType, count_total, count_window, missing_heartbeat, other_type, CompiledNotifyOffWindow,
  RuleNotifyOff, RuleConfig, Regexp,
}
use malert.Config.ValidateRule.{
  is_none_of, alert_type_checks, match_type_checks, notify_off_checks, threshold_checks,
  unsupported_alert_type, selector_checks, match_type_required, behaviour_checks,
  validate_match_value, validate_rule, RuleError, first_error,
}
use malert.Config.Checks.{
  first_failing, Positive, NonNegative, first_failing_only, first_failing_step, is_nonpositive_iff,
  is_negative_iff, is_positive_iff, or_iff, first_failing_append, first_failing_both,
  is_nonpositive,
}
use malert.Config.OffWindow.{compile_notify_off_window}

pub IsEventOrAgg : Text → Type 0
IsEventOrAgg t = (t ≡ codes "event") ⊎ (t ≡ codes "agg")

-- The thresholds that an alert type needs, and those that it must leave out.
pub Thresholds : RuleConfig → AlertType → Type 0
Thresholds rule count_total =
    Positive rule.raise.n
    × (NonNegative rule.resolve.silence_sec
        × (NonNegative rule.resolve.hysteresis_sec
            × ((¬ Positive rule.raise.window_sec) × (¬ Positive rule.raise.missing_sec))))
Thresholds rule count_window =
    Positive rule.raise.n
    × (Positive rule.raise.window_sec
        × (NonNegative rule.resolve.silence_sec
            × (NonNegative rule.resolve.hysteresis_sec × (¬ Positive rule.raise.missing_sec))))
Thresholds rule missing_heartbeat =
    Positive rule.raise.missing_sec
    × (NonNegative rule.resolve.hysteresis_sec
        × (((¬ Positive rule.raise.n) × (¬ Positive rule.raise.window_sec))
            × (rule.resolve.silence_sec % int64_mod ≡ 0)))
Thresholds rule (other_type t) = ⊥

pub Compiles : Unicode → RuleNotifyOff → Type 0
Compiles u window =
    (compiled : CompiledNotifyOffWindow) × (compile_notify_off_window u window ≡ some compiled)

-- What a rule must hold apart from its value predicate.
pub record IsWellFormed (u : Unicode) (rule : RuleConfig) : Type 0 where
  pub named : is_empty (trim_space rule.name) ≡ false
  pub has_kinds : rule.match.kinds ≢ []
  pub known_kinds : All IsEventOrAgg rule.match.kinds
  pub has_vars : rule.match.vars ≢ []
  pub has_key_tags : rule.key.from_tags ≢ []
  pub delayed : rule.pending.enabled ≡ true → Positive rule.pending.delay_sec
  pub has_route : rule.notify.route ≢ []
  pub off_compiles : All (Compiles u) rule.notify.off
  pub thresholds : Thresholds rule rule.alert_type

pub is_none_of_iff : {A : Type 0} (xs : List A) → (is_none_of xs ≡ false) ↔ (xs ≢ [])
is_none_of_iff [] = ground arith
is_none_of_iff (x ∷ xs) = (λ h e. cc, λ h. refl)

match_type_iff :
    (t : Text)
    → (not (text_eq t (codes "event")) && not (text_eq t (codes "agg"))) ≡ false ↔ IsEventOrAgg t
unfolding IsEventOrAgg
match_type_iff t = ground (arith, text_eq_iff t (codes "event"), text_eq_iff t (codes "agg"))

match_type_checks-All :
    (kinds : List Text) → (first_failing (match_type_checks kinds) ≡ none) ↔ All IsEventOrAgg kinds
unfolding match_type_checks first_failing
match_type_checks-All [] = (λ h. tt, λ h. refl)
match_type_checks-All (t ∷ kinds) =
    first_failing_step _ (match_type_iff t) (match_type_checks kinds) (match_type_checks-All kinds)

Compiles-iff :
    (u : Unicode) (window : RuleNotifyOff)
    → (not (is_some (compile_notify_off_window u window)) ≡ false) ↔ Compiles u window
unfolding Compiles
Compiles-iff u window = elim (Option-cases (compile_notify_off_window u window)) [
  | inl q ↦ (λ h. cc, λ h. cc)
  | inr (compiled, q) ↦ (λ h. (compiled, q), λ h. rw q refl)
]

notify_off_checks-All :
    (u : Unicode) (windows : List RuleNotifyOff) (index : ℕ)
    → (first_failing (notify_off_checks u windows index) ≡ none) ↔ All (Compiles u) windows
unfolding notify_off_checks first_failing
notify_off_checks-All u [] index = (λ h. tt, λ h. refl)
notify_off_checks-All u (window ∷ windows) index =
    first_failing_step _ (Compiles-iff u window) (notify_off_checks u windows (index + 1))
      (notify_off_checks-All u windows (index + 1))

raise_n_iff : (n : Int64) → (ltb_i64 n 1 ≡ false) ↔ Positive n
unfolding ltb_i64
raise_n_iff n = ground arith

is_zero_iff : (n : ℕ) → (not (n == 0) ≡ false) ↔ (n ≡ 0)
is_zero_iff n = ground arith

first_failing_unsupported :
    (t : Text) → first_failing ((true, unsupported_alert_type t) ∷ []) ≢ none
unfolding first_failing
first_failing_unsupported t h = cc

threshold_checks_iff :
    (rule : RuleConfig) (kind : AlertType)
    → (first_failing (alert_type_checks kind ++ threshold_checks rule kind) ≡ none)
      ↔ Thresholds rule kind
unfolding threshold_checks Thresholds
threshold_checks_iff rule count_total = first_failing_step _ (raise_n_iff rule.raise.n) _ (
    first_failing_step _ (is_negative_iff rule.resolve.silence_sec) _ (
      first_failing_step _ (is_negative_iff rule.resolve.hysteresis_sec) _ (
        first_failing_only _ (
          or_iff (is_positive_iff rule.raise.window_sec)
            (is_positive_iff rule.raise.missing_sec)))))
threshold_checks_iff rule count_window = first_failing_step _ (raise_n_iff rule.raise.n) _ (
    first_failing_step _ (is_nonpositive_iff rule.raise.window_sec) _ (
      first_failing_step _ (is_negative_iff rule.resolve.silence_sec) _ (
        first_failing_step _ (is_negative_iff rule.resolve.hysteresis_sec) _
          (first_failing_only _ (is_positive_iff rule.raise.missing_sec)))))
threshold_checks_iff rule missing_heartbeat =
    first_failing_step _ (is_nonpositive_iff rule.raise.missing_sec) _ (
      first_failing_step _ (is_negative_iff rule.resolve.hysteresis_sec) _ (
        first_failing_only _ (
          or_iff (or_iff (is_positive_iff rule.raise.n) (is_positive_iff rule.raise.window_sec))
            (is_zero_iff (rule.resolve.silence_sec % int64_mod)))))
threshold_checks_iff rule (other_type t) =
    (λ h. absurd (first_failing_unsupported t h), λ h. absurd h)

same : {P : Type 0} → P ↔ P
same = (λ h. h, λ h. h)

delay_iff :
    (enabled : Bool) (delay : Int64)
    → ((enabled && is_nonpositive delay) ≡ false) ↔ (enabled ≡ true → Positive delay)
delay_iff true delay =
    (λ h e. (is_nonpositive_iff delay).0 h, λ h. (is_nonpositive_iff delay).1 (h refl))
delay_iff false delay = (λ h e. cc, λ h. refl)

selector_checks_iff :
    (rule : RuleConfig)
    → (first_failing (selector_checks rule) ≡ none) ↔ (
        (is_empty (trim_space rule.name) ≡ false)
        × ((first_failing (alert_type_checks rule.alert_type) ≡ none)
            × (((rule.match.kinds ≢ []) × All IsEventOrAgg rule.match.kinds)
                × ((rule.match.vars ≢ []) × (rule.key.from_tags ≢ [])))))
unfolding selector_checks
selector_checks_iff rule = first_failing_step _ same _ (
    first_failing_both (alert_type_checks rule.alert_type) _ same (
      first_failing_both
        ((is_none_of rule.match.kinds, match_type_required) ∷ match_type_checks rule.match.kinds) _
        (first_failing_step _ (is_none_of_iff rule.match.kinds) _
          (match_type_checks-All rule.match.kinds))
        (first_failing_step _ (is_none_of_iff rule.match.vars) _
          (first_failing_only _ (is_none_of_iff rule.key.from_tags)))))

behaviour_checks_iff :
    (u : Unicode) (rule : RuleConfig)
    → (first_failing (behaviour_checks u rule) ≡ none) ↔ (
        (rule.pending.enabled ≡ true → Positive rule.pending.delay_sec)
        × ((rule.notify.route ≢ [])
            × (All (Compiles u) rule.notify.off
                × (first_failing (threshold_checks rule rule.alert_type) ≡ none))))
unfolding behaviour_checks
behaviour_checks_iff u rule =
    first_failing_step _ (delay_iff rule.pending.enabled rule.pending.delay_sec) _ (
      first_failing_step _ (is_none_of_iff rule.notify.route) _ (
        first_failing_both (notify_off_checks u rule.notify.off 0) _
          (notify_off_checks-All u rule.notify.off 0) same))

-- The checks before and after the value predicate find nothing exactly in a well-formed rule.
checks-IsWellFormed :
    (u : Unicode) (rule : RuleConfig)
    → ((first_failing (selector_checks rule) ≡ none)
        × (first_failing (behaviour_checks u rule) ≡ none))
      ↔ IsWellFormed u rule
checks-IsWellFormed u rule = (λ h. forward h.0 h.1, backward)
  where
    forward :
        first_failing (selector_checks rule) ≡ none
        → first_failing (behaviour_checks u rule) ≡ none
        → IsWellFormed u rule
    forward h k =
        let (named, (kind, ((kinds, known), (vars, tags)))) = (selector_checks_iff rule).0 h in
        let (delayed, (route, (off, limits))) = (behaviour_checks_iff u rule).0 k in
        record {
          named = named;
          has_kinds = kinds;
          known_kinds = known;
          has_vars = vars;
          has_key_tags = tags;
          delayed = delayed;
          has_route = route;
          off_compiles = off;
          thresholds =
              (threshold_checks_iff rule rule.alert_type).0
                ((first_failing_append (alert_type_checks rule.alert_type) _).1 (kind, limits));
        }

    backward :
        IsWellFormed u rule
        → (first_failing (selector_checks rule) ≡ none)
          × (first_failing (behaviour_checks u rule) ≡ none)
    backward h =
        let (kind, limits) =
          (first_failing_append (alert_type_checks rule.alert_type) _).0
            ((threshold_checks_iff rule rule.alert_type).1 h.thresholds) in
        (
          (selector_checks_iff rule).1
              (h.named, (kind, ((h.has_kinds, h.known_kinds), (h.has_vars, h.has_key_tags)))),
          (behaviour_checks_iff u rule).1 (h.delayed, (h.has_route, (h.off_compiles, limits))),
        )

first_error-inr :
    (before : Option RuleError) (compiled : Option RuleConfig) (later : Option RuleError)
    (valid : RuleConfig)
    → (first_error before compiled later ≡ inr valid)
      ↔ ((before ≡ none) × (later ≡ none) × (compiled ≡ some valid))
first_error-inr (some e) compiled later valid = (λ h. cc, λ h. cc)
first_error-inr none none later valid = (λ h. cc, λ h. cc)
first_error-inr none (some rule) (some e) valid = (λ h. cc, λ h. cc)
first_error-inr none (some rule) none valid = (λ h. (refl, refl, cc), λ h. cc)

module _ (compile_regexp compile_wildcard : Text → Option Regexp) (u : Unicode)
    (rule : RuleConfig) where
  -- A rule passes the validation exactly if it is well-formed and its value predicate, if it has
  -- one, compiles: it has a name, selectors of the known kinds, key tags and routes, a positive
  -- delay where it is pending, off windows that compile, and its alert type has the thresholds
  -- that it needs and none of those that it must leave out. What comes out is the rule with its
  -- compiled predicate.
  pub validate_rule-IsWellFormed :
      (valid : RuleConfig)
      → (validate_rule compile_regexp compile_wildcard u rule ≡ inr valid) ↔ (
          IsWellFormed u rule
          × (validate_match_value compile_regexp compile_wildcard rule ≡ some valid))
  unfolding validate_rule
  validate_rule-IsWellFormed valid =
      let checks = checks-IsWellFormed u rule in
      let order =
        first_error-inr (first_failing (selector_checks rule))
          (validate_match_value compile_regexp compile_wildcard rule)
          (first_failing (behaviour_checks u rule)) valid in
      (
        λ h. let (before, later, compiled) = order.0 h in (checks.0 (before, later), compiled),
        λ h. let (before, later) = checks.1 h.0 in order.1 (before, later, h.1),
      )
