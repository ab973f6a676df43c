-- ===== src/Config/Merge.antt =====
-- internal/config/config.go: how the value of one file is laid over that of the files before it. A
-- pointer to a bool that TOML sets is an `Option`; a nil map or slice is an empty one.
use malert.Base.{
  ◌==◌, Assoc, insert, Int64, Text, is_empty, Bool, true, false, not, ◌||◌, Option, none, some,
  List, [], ◌∷◌, ◌++◌, if◌then◌else◌,
}
use malert.Config.Notify.{NotifyRetry, TrackerAuthConfig}
use malert.Config.ValidateNotify.{is_blank}

-- One of several tests joined by ||.
unfoldable pub any_of : List Bool → Bool
any_of [] = false
any_of (b ∷ rest) = b || any_of rest

-- `hasAnyString`.
unfoldable pub has_any_string : List Text → Bool
has_any_string [] = false
has_any_string (value ∷ rest) = not (is_blank value) || has_any_string rest

-- `hasAnyNonZero`.
unfoldable pub has_any_non_zero : List Int64 → Bool
has_any_non_zero [] = false
has_any_non_zero (value ∷ rest) = not (value == 0) || has_any_non_zero rest

module _ {A : Type 0} where
  -- `len(values) > 0`.
  unfoldable pub has_entries : List A → Bool
  has_entries [] = false
  has_entries (a ∷ rest) = true

  -- `replaceSlice`.
  unfoldable pub replace_slice : List A → List A → List A
  replace_slice dst [] = dst
  replace_slice dst (a ∷ src) = a ∷ src

  -- `appendSlice`.
  unfoldable pub append_slice : List A → List A → List A
  append_slice dst [] = dst
  append_slice dst (a ∷ src) = dst ++ (a ∷ src)

-- `applyBoolMerge`.
unfoldable pub apply_bool_merge : Bool → Bool → Option Bool → Bool
apply_bool_merge dst value none = dst || value
apply_bool_merge dst value (some explicit) = explicit

-- `applyBoolHintMerge`; a hint that is not present is none.
unfoldable pub apply_bool_hint_merge : Bool → Option Bool → Bool
apply_bool_hint_merge dst none = dst
apply_bool_hint_merge dst (some value) = value

-- `mergeString`.
unfoldable pub merge_string : Text → Text → Text
merge_string dst src = if is_blank src then dst else src

-- `mergeNonZeroInt`.
unfoldable pub merge_non_zero_int : Int64 → Int64 → Int64
merge_non_zero_int dst src = if src == 0 then dst else src

-- `mergeStringMap`.
unfoldable pub merge_string_map : Assoc Text → Assoc Text → Assoc Text
unfolding insert
merge_string_map dst [] = dst
merge_string_map dst ((key, value) ∷ src) = merge_string_map (insert key value dst) src

-- `src != (NotifyRetry{})`.
unfoldable pub has_retry : NotifyRetry → Bool
unfolding any_of is_empty
has_retry r = any_of (
    r.enabled
    ∷ not (is_empty r.backoff)
    ∷ not (r.initial_ms == 0)
    ∷ not (r.max_ms == 0)
    ∷ not (r.max_attempts == 0)
    ∷ r.log_each_attempt
    ∷ [])

-- `mergeRetry`.
unfoldable pub merge_retry : NotifyRetry → NotifyRetry → NotifyRetry
unfolding has_retry
merge_retry dst src = if has_retry src then src else dst

-- `src.Auth != (TrackerAuthConfig{})`.
unfoldable pub has_auth : TrackerAuthConfig → Bool
unfolding any_of is_empty
has_auth a = any_of (
    not (is_empty a.kind)
    ∷ not (is_empty a.username)
    ∷ not (is_empty a.password)
    ∷ not (is_empty a.token)
    ∷ not (is_empty a.header)
    ∷ not (is_empty a.prefix)
    ∷ [])
