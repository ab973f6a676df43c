-- ===== src/Notify/Json.antt =====
-- internal/notify/notify.go, `extractJSONPathString`: a value of a JSON document by its dotted path.
-- json.Unmarshal into `any` is a parameter; it makes these values, a map having each key once.
use malert.Base.{
  ◌==◌, Text, codes, text_eq, trim_space, is_empty, ℕ, zero, suc, Bool, Option, none, some, List,
  [], ◌∷◌, if◌then◌else◌,
}
use malert.Config.OffWindow.{atoi, below_zero}
use malert.Config.ValidateNotify.{is_blank}
use malert.Domain.Event.{Float64}

mutual
  pub data Json : Type 0 where
    json_null : Json
    json_bool : Bool → Json
    json_number : Float64 → Json
    json_string : Text → Json
    json_array : JsonList → Json
    json_object : JsonFields → Json

  pub data JsonList : Type 0 where
    array_end : JsonList
    element : Json → JsonList → JsonList

  pub data JsonFields : Type 0 where
    object_end : JsonFields
    member : Text → Json → JsonFields → JsonFields

-- `typed[token]` of a map.
unfoldable pub field_of : Text → JsonFields → Option Json
field_of token object_end = none
field_of token (member key value rest) =
    let later = field_of token rest in if text_eq key token then some value else later

-- `typed[index]` of an array, where the index is in range.
unfoldable pub value_at : ℕ → JsonList → Option Json
value_at index array_end = none
value_at zero (element value rest) = some value
value_at (suc index) (element value rest) = value_at index rest

-- The switch of the loop: one step into a document; `none` is an error.
unfoldable pub json_step : Text → Json → Option Json
unfolding field_of value_at atoi
json_step token (json_object fields) = field_of token fields
json_step token (json_array values) = elim (atoi token) [
  | none ↦ none
  | some index ↦ if below_zero index then none else value_at index.magnitude values
]
json_step token json_null = none
json_step token (json_bool b) = none
json_step token (json_number x) = none
json_step token (json_string t) = none

-- The loop over the parts of the path.
unfoldable pub json_walk : List Text → Json → Option Json
unfolding json_step
json_walk [] current = some current
json_walk (part ∷ parts) current =
    if is_empty (trim_space part) then none else elim (json_step (trim_space part) current) [
      | none ↦ none
      | some next ↦ json_walk parts next
    ]

-- strings.Split(path, ".").
unfoldable pub split_dots : Text → List Text
split_dots [] = [] ∷ []
split_dots (c ∷ s) = elim (split_dots s) [
  | [] ↦ []
  | part ∷ parts ↦ if c == b'.' then [] ∷ (part ∷ parts) else (c ∷ part) ∷ parts
]

-- The last switch: the text of a leaf.
unfoldable pub leaf_text : (Float64 → Text) → Json → Option Text
leaf_text format_float (json_string t) = if is_blank t then none else some (trim_space t)
leaf_text format_float (json_number x) = some (format_float x)
leaf_text format_float (json_bool b) = some (if b then codes "true" else codes "false")
leaf_text format_float json_null = none
leaf_text format_float (json_array values) = none
leaf_text format_float (json_object fields) = none

-- `extractJSONPathString`; `none` is an error.
unfoldable pub extract_json_path_string :
    (Text → Option Json) → (Float64 → Text) → Text → Text → Option Text
unfolding json_walk split_dots leaf_text
extract_json_path_string unmarshal format_float body path =
    if is_blank path then none else elim (unmarshal body) [
      | none ↦ none
      | some root ↦ elim (json_walk (split_dots (trim_space path)) root) [
        | none ↦ none
        | some leaf ↦ leaf_text format_float leaf
      ]
    ]
