-- ===== src/Engine/Matching.antt =====
-- internal/engine/matcher.go with the validation of events and of value predicates: what is validated
-- is matched without an error.
use malert.Base.{
  is_some, Text, codes, text_eq, text_eq_iff, Unicode, ◌≡◌, refl, Bool, true, false, Option, none,
  some, arith, ◌||◌, Bool-cases, sym, inl, inr,
}
use malert.Config.Rule.{Regexp, RuleValuePredicate}
use malert.Config.Predicate.{validate_value_predicate}
use malert.Domain.Event.{Float64, TypedValue, Event, validate_value, validate_shape, validate}
use malert.Engine.Matcher.{
  contains_string, is_supported_op, MatchResult, matches, unsupported, bad_pattern, nil_pointer,
  match_number, match_text, match_value, match_bool,
}
use malert.Config.Ready.{kind_clash, Ready, op_clash, no_kind, validate_value_predicate-Ready}

-- The value holds what its kind names.
abbrev WellTyped : TypedValue → Type 0
WellTyped v =
    (text_eq v.kind (codes "n") ≡ true → is_some v.n ≡ true)
    × (text_eq v.kind (codes "s") ≡ true → is_some v.s ≡ true)
    × (text_eq v.kind (codes "b") ≡ true → is_some v.b ≡ true)

validate_value-WellTyped : (v : TypedValue) → validate_value v ≡ none → WellTyped v
unfolding validate_value
validate_value-WellTyped v h = ground (arith, kind_clash v.kind)

validate_shape-value : (e : Event) → validate_shape e ≡ none → validate_value e.value ≡ none
unfolding validate_shape
validate_shape-value e h = ground arith

validate-WellTyped : (e : Event) → validate e ≡ none → WellTyped e.value
unfolding validate
validate-WellTyped e h = validate_value-WellTyped e.value (validate_shape-value e (ground arith))

abbrev pub is_verdict : MatchResult → Bool
is_verdict (matches b) = true
is_verdict unsupported = false
is_verdict bad_pattern = false
is_verdict nil_pointer = false

is_some-cases : {A : Type 0} (o : Option A) → is_some o ≡ true → (a : A) × (o ≡ some a)
is_some-cases none h = cc
is_some-cases (some a) h = (a, refl)

text_eq_comm : (a b : Text) → text_eq a b ≡ text_eq b a
text_eq_comm a b = ground (arith, text_eq_iff a b, text_eq_iff b a)

supported_number :
    (kind op : Text)
    → text_eq kind (codes "n") ≡ true
    → is_supported_op kind op ≡ true
    → (text_eq op (codes "==")
        || text_eq op (codes "!=")
        || text_eq op (codes ">")
        || text_eq op (codes ">=")
        || text_eq op (codes "<")
        || text_eq op (codes "<="))
      ≡ true
unfolding is_supported_op contains_string
supported_number kind op k s = ground (
  arith,
  kind_clash kind,
  text_eq_comm op (codes "=="),
  text_eq_comm op (codes "!="),
  text_eq_comm op (codes ">"),
  text_eq_comm op (codes ">="),
  text_eq_comm op (codes "<"),
  text_eq_comm op (codes "<="),
)

supported_text :
    (kind op : Text)
    → text_eq kind (codes "s") ≡ true
    → is_supported_op kind op ≡ true
    → (text_eq op (codes "==")
        || text_eq op (codes "!=")
        || text_eq op (codes "prefix")
        || text_eq op (codes "in")
        || text_eq op (codes "match")
        || text_eq op (codes "*"))
      ≡ true
unfolding is_supported_op contains_string
supported_text kind op k s = ground (
  arith,
  kind_clash kind,
  text_eq_comm op (codes "=="),
  text_eq_comm op (codes "!="),
  text_eq_comm op (codes "prefix"),
  text_eq_comm op (codes "in"),
  text_eq_comm op (codes "match"),
  text_eq_comm op (codes "*"),
)

supported_flag :
    (kind op : Text)
    → text_eq kind (codes "b") ≡ true
    → is_supported_op kind op ≡ true
    → (text_eq op (codes "==") || text_eq op (codes "!=")) ≡ true
unfolding is_supported_op contains_string
supported_flag kind op k s =
    ground (arith, kind_clash kind, text_eq_comm op (codes "=="), text_eq_comm op (codes "!="))

module _ (u : Unicode) (compile_regexp compile_wildcard : Text → Option Regexp) where
  match_text-verdict :
      (q : RuleValuePredicate) (lhs : Text)
      → text_eq q.kind (codes "s") ≡ true
      → Ready q
      → is_verdict (match_text u compile_regexp compile_wildcard q lhs) ≡ true
  unfolding match_text
  match_text-verdict q lhs k r = ground (
    arith,
    supported_text q.kind q.op k r.supported,
    r.operand k,
    r.regexp k,
    r.wildcard k,
    op_clash q.op,
  )

  match_number-verdict :
      (kind op : Text) (a b : Float64)
      → text_eq kind (codes "n") ≡ true
      → is_supported_op kind op ≡ true
      → is_verdict (match_number op a b) ≡ true
  unfolding match_number
  match_number-verdict kind op a b k s = ground (arith, supported_number kind op k s)

  match_bool-verdict :
      (kind op : Text) (a b : Bool)
      → text_eq kind (codes "b") ≡ true
      → is_supported_op kind op ≡ true
      → is_verdict (match_bool op a b) ≡ true
  unfolding match_bool
  match_bool-verdict kind op a b k s = ground (arith, supported_flag kind op k s)

  match_value-verdict :
      (q : RuleValuePredicate) (v : TypedValue)
      → Ready q
      → WellTyped v
      → is_verdict (match_value u compile_regexp compile_wildcard q v) ≡ true
  unfolding match_value match_bool
  match_value-verdict q v r t = elim (Bool-cases (text_eq q.kind v.kind)) [
    | inr e ↦ rw (match_value, e) refl
    | inl e ↦
        let same : q.kind ≡ v.kind = (text_eq_iff q.kind v.kind).0 e in
        let typed : WellTyped (record v { kind = q.kind }) = rw (sym same) at t in
        elim (Bool-cases (text_eq q.kind (codes "n"))) [
          | inl k ↦
              let (a, x) = is_some-cases v.n (typed.0 k) in
              let (b, y) = is_some-cases q.n (r.number k) in
              rw (match_value, e, r.supported, k, x, y)
                (match_number-verdict q.kind q.op a b k r.supported)
          | inr n ↦ elim (Bool-cases (text_eq q.kind (codes "s"))) [
            | inl k ↦
                let (a, x) = is_some-cases v.s (typed.1 k) in
                rw (match_value, e, r.supported, n, k, x) (match_text-verdict q a k r)
            | inr m ↦ elim (Bool-cases (text_eq q.kind (codes "b"))) [
              | inl k ↦
                  let (a, x) = is_some-cases v.b (typed.2 k) in
                  let (b, y) = is_some-cases q.b (r.flag k) in
                  rw (match_value, e, r.supported, n, m, k, x, y)
                    (match_bool-verdict q.kind q.op a b k r.supported)
              | inr l ↦ elim (no_kind q.kind q.op n m l r.supported) [ ]
            ]
          ]
        ]
  ]

  -- A value predicate that passed the validation of its rule decides on the value of every event that
  -- passed its own validation: no nil pointer is read, and no operator or pattern is refused.
  pub match_value-validated :
      (raw q : RuleValuePredicate) (event : Event)
      → validate_value_predicate compile_regexp compile_wildcard raw ≡ some q
      → validate event ≡ none
      → is_verdict (match_value u compile_regexp compile_wildcard q event.value) ≡ true
  match_value-validated raw q event p e =
      match_value-verdict q event.value
        (validate_value_predicate-Ready compile_regexp compile_wildcard raw q p)
        (validate-WellTyped event e)
