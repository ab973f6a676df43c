-- ===== src/Config/ValidConfig.antt =====
-- internal/config/config.go, `validateConfig`: what holds of every configuration that passes it.
use malert.Base.{
  All, All-imp, Text, text_eq, trim_space, Unicode, to_lower, ◌≡◌, Bool, true, false, not, none,
  List, [], ◌∷◌, arith, Bool-cases, Option-cases, Sum-cases, ℕ, ◌+◌, ◌≢◌, ◌⊎◌, inl, inr, some,
}
use malert.Config.Rule.{RuleNotifyRoute, RuleConfig}
use malert.Config.ValidRule.{IsWellFormed, is_none_of_iff, validate_rule-IsWellFormed}
use malert.Config.Checks.{first_failing, first_failing_append, first_failing-none}
use malert.Config.Channels.{normalize_notify_channel, notify_channel_enabled}
use malert.Config.Notify.{NotifyConfig}
use malert.Config.ValidateNotify.{
  is_blank, is_one_of, template_names, route_key, route_checks, rule_route_checks,
}
use malert.Config.Service.{Config}
use malert.Config.ValidateConfig.{
  Parsers, service_checks, section_checks, rule_binding, validate_rules, validate_config,
}
use malert.Config.ValidateRule.{validate_rule}

-- A route leads to a channel that is enabled, and names one of that channel's templates.
pub IsBound : Unicode → NotifyConfig → RuleNotifyRoute → Type 0
IsBound u cfg route =
    (notify_channel_enabled u cfg (normalize_notify_channel u route.channel) ≡ true)
    × (is_blank route.template ≡ false)
    × (is_one_of (to_lower u (trim_space route.template))
          (template_names u cfg (normalize_notify_channel u route.channel))
        ≡ true)

-- No key of a route stands twice.
pub HasUniqueKeys : Unicode → List RuleNotifyRoute → Type 0
HasUniqueKeys u [] = Unit
HasUniqueKeys u (route ∷ rest) =
    All (λ other. text_eq (route_key u other) (route_key u route) ≡ false) rest
    × HasUniqueKeys u rest

-- No name of a rule stands twice.
pub HasUniqueNames : List RuleConfig → Type 0
HasUniqueNames [] = Unit
HasUniqueNames (rule ∷ rest) =
    All (λ other. text_eq other.name rule.name ≡ false) rest × HasUniqueNames rest

-- A rule whose thresholds fit its type, and whose routes can be delivered and told apart.
pub IsDeliverable : Unicode → NotifyConfig → RuleConfig → Type 0
IsDeliverable u cfg rule =
    IsWellFormed u rule × All (IsBound u cfg) rule.notify.route × HasUniqueKeys u rule.notify.route

not-false : (b : Bool) → not b ≡ false → b ≡ true
not-false b h = ground arith

-- A text that is none of a list is not its head, and none of its tail.
is_one_of_cons :
    (a b : Text) (rest : List Text)
    → is_one_of a (b ∷ rest) ≡ false
    → (text_eq a b ≡ false) × (is_one_of a rest ≡ false)
is_one_of_cons a b rest h = ground arith

route_checks-IsBound :
    (u : Unicode) (cfg : NotifyConfig) (used : List Text) (route : RuleNotifyRoute)
    → first_failing (route_checks u cfg used route) ≡ none
    → (is_one_of (route_key u route) used ≡ false) × IsBound u cfg route
unfolding route_checks IsBound
route_checks-IsBound u cfg used route h =
    let (known, h1) = (first_failing-none _ _ _).0 h in
    let (enabled, h2) = (first_failing-none _ _ _).0 h1 in
    let (fresh, h3) = (first_failing-none _ _ _).0 h2 in
    let (named, h4) = (first_failing-none _ _ _).0 h3 in
    let (defined, h5) = (first_failing-none _ _ _).0 h4 in
    (fresh, (not-false _ enabled, named, not-false _ defined))

-- The routes from some key list on: each is bound, and none has a key of the list.
rule_route_checks-IsBound :
    (u : Unicode) (cfg : NotifyConfig) (used : List Text) (routes : List RuleNotifyRoute)
    → first_failing (rule_route_checks u cfg used routes) ≡ none
    → All (λ route. is_one_of (route_key u route) used ≡ false) routes
      × All (IsBound u cfg) routes
      × HasUniqueKeys u routes
unfolding rule_route_checks HasUniqueKeys
rule_route_checks-IsBound u cfg used [] h = (tt, tt, tt)
rule_route_checks-IsBound u cfg used (route ∷ rest) h =
    let (now, later) = (first_failing_append (route_checks u cfg used route) _).0 h in
    let (fresh, bound) = route_checks-IsBound u cfg used route now in
    let (apart, others, unique) =
      rule_route_checks-IsBound u cfg (route_key u route ∷ used) rest later in
    let split =
      All-imp (λ r. is_one_of (route_key u r) (route_key u route ∷ used) ≡ false)
        (λ r.
          (text_eq (route_key u r) (route_key u route) ≡ false)
          × (is_one_of (route_key u r) used ≡ false))
        rest (λ r q. is_one_of_cons (route_key u r) (route_key u route) used q) apart in
    (
      (fresh, All-imp _ _ rest (λ r q. q.1) split),
      (bound, others),
      (All-imp _ _ rest (λ r q. q.0) split, unique),
    )

inl_ne : {A : Type 0} {B : Type 0} {a : A} {b : B} → Path (A ⊎ B) (inl a) (inr b) → ⊥
inl_ne h = cc

some_ne : {A : Type 0} {a : A} → some a ≢ none
some_ne h = cc

module _ (p : Parsers) (cfg : NotifyConfig) where
  rule_binding-IsBound :
      (names : List Text) (index : ℕ) (rule : RuleConfig)
      → rule_binding p cfg names index rule ≡ none
      → (is_one_of rule.name names ≡ false)
        × All (IsBound p.unicode cfg) rule.notify.route
        × HasUniqueKeys p.unicode rule.notify.route
  unfolding rule_binding
  rule_binding-IsBound names index rule h = elim (Bool-cases (is_one_of rule.name names)) [
    | inl q ↦ absurd (some_ne (rw (q, rule_binding) at h))
    | inr q ↦
        elim (Option-cases (first_failing (rule_route_checks p.unicode cfg [] rule.notify.route))) [
          | inr (e, r) ↦ absurd (some_ne (rw (q, r, rule_binding) at h))
          | inl r ↦
              let (free, bound, unique) =
                rule_route_checks-IsBound p.unicode cfg [] rule.notify.route r in
              (q, bound, unique)
        ]
  ]

  -- A rule that passes, before rules that are deliverable and have other names.
  together :
      (names : List Text) (index : ℕ) (rule : RuleConfig) (rest : List RuleConfig)
      (out : RuleConfig)
      → validate_rule p.compile_regexp p.compile_wildcard p.unicode rule ≡ inr out
      → rule_binding p cfg names index rule ≡ none
      → All (λ other. is_one_of other.name (rule.name ∷ names) ≡ false) rest
        × All (IsDeliverable p.unicode cfg) rest
        × HasUniqueNames rest
      → All (λ other. is_one_of other.name names ≡ false) (rule ∷ rest)
        × All (IsDeliverable p.unicode cfg) (rule ∷ rest)
        × HasUniqueNames (rule ∷ rest)
  unfolding HasUniqueNames IsDeliverable
  together names index rule rest out q r (apart, others, unique) =
      let (fresh, bound, keys) = rule_binding-IsBound names index rule r in
      let formed =
        ((validate_rule-IsWellFormed p.compile_regexp p.compile_wildcard p.unicode rule out).0
          q).0 in
      let split =
        All-imp (λ (other : RuleConfig). is_one_of other.name (rule.name ∷ names) ≡ false)
          (λ other. (text_eq other.name rule.name ≡ false) × (is_one_of other.name names ≡ false))
          rest (λ other s. is_one_of_cons other.name rule.name names s) apart in
      (
        (fresh, All-imp _ _ rest (λ other s. s.1) split),
        ((formed, bound, keys), others),
        (All-imp _ _ rest (λ other s. s.0) split, unique),
      )

  -- The rules from some name list on: each is deliverable, and none has a name of the list.
  validate_rules-IsDeliverable :
      (names : List Text) (index : ℕ) (rules valid : List RuleConfig)
      → validate_rules p cfg names index rules ≡ inr valid
      → All (λ rule. is_one_of rule.name names ≡ false) rules
        × All (IsDeliverable p.unicode cfg) rules
        × HasUniqueNames rules
  unfolding validate_rules HasUniqueNames IsDeliverable
  validate_rules-IsDeliverable names index [] valid h = (tt, tt, tt)
  validate_rules-IsDeliverable names index (rule ∷ rest) valid h =
      elim (Sum-cases (validate_rule p.compile_regexp p.compile_wildcard p.unicode rule)) [
        | inl (e, q) ↦ absurd (inl_ne (rw (q, validate_rules) at h))
        | inr (out, q) ↦ elim (Option-cases (rule_binding p cfg names index rule)) [
          | inr (e, r) ↦ absurd (inl_ne (rw (q, r, validate_rules) at h))
          | inl r ↦ elim (Sum-cases (validate_rules p cfg (rule.name ∷ names) (index + 1) rest)) [
            | inl (e, s) ↦ absurd (inl_ne (rw (q, r, s, validate_rules) at h))
            | inr (later, s) ↦
                together names index rule rest out q r
                  (validate_rules-IsDeliverable (rule.name ∷ names) (index + 1) rest later s)
          ]
        ]
      ]

section_checks_rule :
    (p : Parsers) (cfg : Config) → first_failing (section_checks p cfg) ≡ none → cfg.rule ≢ []
unfolding section_checks service_checks
section_checks_rule p cfg q =
    (is_none_of_iff cfg.rule).0
      ((first_failing-none _ _ _).0
        ((first_failing_append (service_checks p.unicode cfg) _).0 q).0).0

-- A configuration that passes the validation has a rule, no two rules of one name, and every rule
-- of it is well-formed, each of its routes leads to an enabled channel and one of that channel's
-- templates, and no two of its routes have one key.
pub validate_config-IsDeliverable :
    (p : Parsers) (cfg valid : Config)
    → validate_config p cfg ≡ inr valid
    → (cfg.rule ≢ []) × HasUniqueNames cfg.rule × All (IsDeliverable p.unicode cfg.notify) cfg.rule
unfolding validate_config
validate_config-IsDeliverable p cfg valid h =
    elim (Option-cases (first_failing (section_checks p cfg))) [
      | inr (e, q) ↦ absurd (inl_ne (rw (q, validate_config) at h))
      | inl q ↦ elim (Sum-cases (validate_rules p cfg.notify [] 0 cfg.rule)) [
        | inl (e, r) ↦ absurd (inl_ne (rw (q, r, validate_config) at h))
        | inr (rules, r) ↦
            let (free, deliverable, unique) =
              validate_rules-IsDeliverable p cfg.notify [] 0 cfg.rule rules r in
            (section_checks_rule p cfg q, unique, deliverable)
      ]
    ]
