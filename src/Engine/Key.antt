-- ===== src/Engine/Key.antt =====
-- internal/engine/key_builder.go: the ID of an alert from its rule, its variable and its key tags.
-- `digest` is hex.Encode of sha1.Sum over the UTF-8 bytes of a text.
use malert.Base.{
  leb, ◌==◌, Assoc, lookup, Text, codes, trim_space, is_empty, text_leb, ℕ, ◌+◌, Bool, true, ◌&&◌,
  ◌||◌, Option, none, some, List, [], ◌∷◌, ◌++◌, map, if◌then◌else◌,
}
use malert.Config.Rule.{RuleConfig}
use malert.Domain.Event.{Event}

-- The byte that `sanitize` writes for a code point.
unfoldable pub sanitize_rune : ℕ → ℕ
sanitize_rune r =
    if leb b'a' r && leb r b'z'
    then r
    else if leb b'A' r && leb r b'Z'
    then r + 32
    else if leb b'0' r && leb r b'9'
    then r
    else if r == b'-' || r == b'_' || r == b'.'
    then r
    else b'_'

-- `sanitize`.
unfoldable pub sanitize : Text → Text
unfolding sanitize_rune
sanitize raw =
    let trimmed = trim_space raw in
    if is_empty trimmed then codes "_" else map sanitize_rune trimmed

-- `sort.StringsAreSorted`.
unfoldable pub texts_are_sorted : List Text → Bool
texts_are_sorted [] = true
texts_are_sorted (a ∷ []) = true
texts_are_sorted (a ∷ b ∷ rest) = text_leb a b && texts_are_sorted (b ∷ rest)

unfoldable pub insert_text : Text → List Text → List Text
insert_text a [] = a ∷ []
insert_text a (b ∷ rest) = if text_leb a b then a ∷ b ∷ rest else b ∷ insert_text a rest

-- `sort.Strings`. The sorted order of a list of texts is unique, so the algorithm does not matter.
unfoldable pub sort_texts : List Text → List Text
unfolding insert_text
sort_texts [] = []
sort_texts (a ∷ rest) = insert_text a (sort_texts rest)

-- `sortedKeyTags`; a list of at most one tag is sorted.
unfoldable pub sorted_key_tags : List Text → List Text
unfolding texts_are_sorted sort_texts
sorted_key_tags tags = if texts_are_sorted tags then tags else sort_texts tags

-- The canonical text of the key tags: `tag=value`, joined by newlines; none if a tag is missing.
unfoldable pub canonical : List Text → Assoc Text → Option Text
canonical [] tags = some []
canonical (tag ∷ []) tags = elim (lookup tag tags) [
  | none ↦ none
  | some value ↦ some (tag ++ (b'=' ∷ value))
]
canonical (tag ∷ next ∷ rest) tags = elim (lookup tag tags) [
  | none ↦ none
  | some value ↦ elim (canonical (next ∷ rest) tags) [
    | none ↦ none
    | some text ↦ some (tag ++ (b'=' ∷ (value ++ (b'\n' ∷ text))))
  ]
]

pub data KeyError : Type 0 where
  rule_name_required key_tag_missing : KeyError

pub data KeyResult : Type 0 where
  keyed : Text → KeyResult
  no_key : KeyError → KeyResult

module _ (digest : Text → Text) where
  -- The ID that is built around the digest.
  unfoldable pub alert_key : Text → Text → Text → Text
  unfolding sanitize
  alert_key rule_name var text =
      codes "rule/" ++ (sanitize rule_name ++ (b'/' ∷ (sanitize var ++ (b'/' ∷ digest text))))

  -- `BuildAlertKey`.
  unfoldable pub build_alert_key : RuleConfig → Event → KeyResult
  unfolding alert_key sorted_key_tags canonical
  build_alert_key rule event =
      if is_empty (trim_space rule.name)
      then no_key rule_name_required
      else elim (canonical (sorted_key_tags rule.key.from_tags) event.tags) [
        | none ↦ no_key key_tag_missing
        | some text ↦ keyed (alert_key rule.name event.var text)
      ]
