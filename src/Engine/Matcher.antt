-- ===== src/Engine/Matcher.antt =====
-- internal/engine/matcher.go: whether an event is one of a rule's. A regular expression is compiled
-- by regexp.Compile and config.CompileWildcardPattern, which come in as parameters.
use malert.Base.{
  Text, codes, text_eq, Bool, false, ◌||◌, List, [], ◌∷◌, map, if◌then◌else◌, Assoc, lookup,
  has_key, has_prefix, Unicode, to_lower, equal_fold, true, not, ◌&&◌, Option, none, some,
}
use malert.Config.Rule.{Regexp, RuleValuePredicate, RuleConfig}
use malert.Domain.Event.{Float64, float_lt, float_eq, float_le, TypedValue, Event}

-- `containsString`.
unfoldable pub contains_string : List Text → Text → Bool
contains_string [] expected = false
contains_string (v ∷ values) expected = text_eq v expected || contains_string values expected

-- `config.IsSupportedValuePredicateOp`.
unfoldable pub is_supported_op : Text → Text → Bool
unfolding contains_string
is_supported_op kind op =
    if text_eq kind (codes "n")
    then contains_string (map codes ("==" ∷ "!=" ∷ ">" ∷ ">=" ∷ "<" ∷ "<=" ∷ [])) op
    else if text_eq kind (codes "s")
    then contains_string (map codes ("==" ∷ "!=" ∷ "prefix" ∷ "in" ∷ "match" ∷ "*" ∷ [])) op
    else if text_eq kind (codes "b")
    then contains_string (map codes ("==" ∷ "!=" ∷ [])) op
    else false

-- `containsStringInsensitive`.
unfoldable pub contains_string_insensitive : Unicode → List Text → Text → Bool
contains_string_insensitive u [] expected = false
contains_string_insensitive u (v ∷ values) expected =
    equal_fold u v expected || contains_string_insensitive u values expected

-- What `matchValue` returns, or the panic at a nil pointer.
pub data MatchResult : Type 0 where
  matches : Bool → MatchResult
  unsupported : MatchResult
  bad_pattern : MatchResult
  nil_pointer : MatchResult

-- `*p`, and what is done with it.
abbrev pub deref {ℓ} : {A : Type ℓ} → Option A → (A → MatchResult) → MatchResult
deref none f = nil_pointer
deref (some a) f = f a

abbrev pub bool_eq : Bool → Bool → Bool
bool_eq true b = b
bool_eq false b = not b

-- The branch `case "n"`.
unfoldable pub match_number : Text → Float64 → Float64 → MatchResult
match_number op lhs rhs =
    if text_eq op (codes "==")
    then matches (float_eq lhs rhs)
    else if text_eq op (codes "!=")
    then matches (not (float_eq lhs rhs))
    else if text_eq op (codes ">")
    then matches (float_lt rhs lhs)
    else if text_eq op (codes ">=")
    then matches (float_le rhs lhs)
    else if text_eq op (codes "<")
    then matches (float_lt lhs rhs)
    else if text_eq op (codes "<=")
    then matches (float_le lhs rhs)
    else unsupported

-- The branch `case "b"`.
unfoldable pub match_bool : Text → Bool → Bool → MatchResult
match_bool op lhs rhs =
    if text_eq op (codes "==")
    then matches (bool_eq lhs rhs)
    else if text_eq op (codes "!=")
    then matches (not (bool_eq lhs rhs))
    else unsupported

-- A regular expression that the rule holds, or one that is compiled from its text.
abbrev run_pattern : (Text → Option Regexp) → Option Regexp → Option Text → Text → MatchResult
run_pattern compile (some re) pattern text = matches (re text)
run_pattern compile none pattern text =
    deref pattern (λ p. elim (compile p) [ none ↦ bad_pattern | some re ↦ matches (re text) ])

module _ (u : Unicode) (compile_regexp compile_wildcard : Text → Option Regexp) where
  -- The branch `case "s"`.
  unfoldable pub match_text : RuleValuePredicate → Text → MatchResult
  match_text predicate lhs =
      if text_eq predicate.op (codes "==")
      then deref predicate.s (λ s. matches (equal_fold u lhs s))
      else if text_eq predicate.op (codes "!=")
      then deref predicate.s (λ s. matches (not (equal_fold u lhs s)))
      else if text_eq predicate.op (codes "prefix")
      then deref predicate.s (λ s. matches (has_prefix (to_lower u lhs) (to_lower u s)))
      else if text_eq predicate.op (codes "in")
      then matches (contains_string_insensitive u predicate.in_values lhs)
      else if text_eq predicate.op (codes "match")
      then run_pattern compile_regexp predicate.compiled_match_re predicate.s lhs
      else if text_eq predicate.op (codes "*")
      then run_pattern compile_wildcard predicate.compiled_wildcard_re predicate.s (to_lower u lhs)
      else unsupported

  -- `matchValue`.
  unfoldable pub match_value : RuleValuePredicate → TypedValue → MatchResult
  unfolding match_number match_text match_bool is_supported_op
  match_value predicate value =
      if not (text_eq predicate.kind value.kind)
      then matches false
      else if not (is_supported_op predicate.kind predicate.op)
      then unsupported
      else if text_eq predicate.kind (codes "n")
      then deref value.n (λ lhs. deref predicate.n (λ rhs. match_number predicate.op lhs rhs))
      else if text_eq predicate.kind (codes "s")
      then deref value.s (λ lhs. match_text predicate lhs)
      else if text_eq predicate.kind (codes "b")
      then deref value.b (λ lhs. deref predicate.b (λ rhs. match_bool predicate.op lhs rhs))
      else unsupported

  -- The loop of `MatchEvent` over the tags of the rule.
  unfoldable pub match_tags : Assoc (List Text) → Assoc Text → Bool
  unfolding contains_string_insensitive
  match_tags [] tags = true
  match_tags ((k, allowed) ∷ rest) tags =
      let others = match_tags rest tags in
      elim (lookup k tags) [
        | none ↦ false
        | some value ↦ contains_string_insensitive u allowed value && others
      ]

  -- The end of `MatchEvent`: an error of the predicate is no match. `none` is the panic.
  abbrev pub as_match : MatchResult → Option Bool
  as_match (matches b) = some b
  as_match unsupported = some false
  as_match bad_pattern = some false
  as_match nil_pointer = none

  -- `MatchEvent`.
  unfoldable pub match_event : RuleConfig → Event → Option Bool
  unfolding match_tags match_value contains_string
  match_event rule event =
      if not (contains_string rule.match.kinds event.kind)
      then some false
      else if not (contains_string rule.match.vars event.var)
      then some false
      else if not (match_tags rule.match.tags event.tags)
      then some false
      else elim rule.match.value [
        | none ↦ some true
        | some predicate ↦ as_match (match_value predicate event.value)
      ]

-- `ValidateKeyTags`: the first key tag that the event lacks.
unfoldable pub validate_key_tags : List Text → Assoc Text → Option Text
validate_key_tags [] tags = none
validate_key_tags (k ∷ keys) tags = if has_key k tags then validate_key_tags keys tags else some k
