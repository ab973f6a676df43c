-- ===== src/Domain/Event.antt =====
-- internal/domain/event.go: the event and its validation. A float64 is its bit pattern.
use malert.Base.{
  ℕ, ◌+◌, ◌-◌, ◌%◌, Bool, true, false, not, ◌&&◌, ◌||◌, Option, none, some, [], ◌∷◌, ltb, leb, ◌==◌,
  if◌then◌else◌, is_some, Text, codes, text_eq, trim_space, is_empty, Int64, int64_half, leb_i64,
  ltb_i64, Assoc,
}

abbrev pub Float64 : Type 0
Float64 = ℕ

-- IEEE 754: the payload of a NaN lies above that of infinity.
unfoldable pub is_nan : Float64 → Bool
is_nan w = ltb 0x7ff0000000000000 (w % int64_half)

-- Grows with the value, and is the same at both zeros.
unfoldable pub float_key : Float64 → ℕ
float_key w = if leb int64_half w then int64_half - (w - int64_half) else int64_half + w

unfoldable pub float_lt : Float64 → Float64 → Bool
float_lt a b = not (is_nan a) && not (is_nan b) && ltb (float_key a) (float_key b)

unfoldable pub float_eq : Float64 → Float64 → Bool
float_eq a b = not (is_nan a) && not (is_nan b) && (float_key a == float_key b)

unfoldable pub float_le : Float64 → Float64 → Bool
float_le a b = not (is_nan a) && not (is_nan b) && leb (float_key a) (float_key b)

pub record TypedValue : Type 0 where
  pub kind : Text
  pub n : Option Float64
  pub s : Option Text
  pub b : Option Bool

pub record Event : Type 0 where
  pub dt : Int64
  pub kind : Text
  pub tags : Assoc Text
  pub var : Text
  pub value : TypedValue
  pub agg_cnt : Int64
  pub win : Int64

pub data EventError : Type 0 where
  bad_dt bad_type bad_var bad_tags bad_agg_cnt bad_event_agg_cnt bad_event_win bad_agg_win :
      EventError
  n_required only_n s_required only_s b_required only_b bad_value_type : EventError

abbrev pub kind_event : Text
kind_event = codes "event"

abbrev pub kind_agg : Text
kind_agg = codes "agg"

-- `TypedValue.Validate`; `none` is a nil error.
unfoldable pub validate_value : TypedValue → Option EventError
validate_value v =
    if text_eq v.kind (codes "n")
    then (if not (is_some v.n)
        then some n_required
        else if is_some v.s || is_some v.b
        then some only_n
        else none)
    else if text_eq v.kind (codes "s")
    then (if not (is_some v.s)
        then some s_required
        else if is_some v.n || is_some v.b
        then some only_s
        else none)
    else if text_eq v.kind (codes "b")
    then (if not (is_some v.b)
        then some b_required
        else if is_some v.n || is_some v.s
        then some only_b
        else none)
    else some bad_value_type

abbrev no_tags : Assoc Text → Bool
no_tags [] = true
no_tags (t ∷ ts) = false

-- The checks on agg_cnt and win that depend on the type.
unfoldable pub validate_shape : Event → Option EventError
validate_shape e =
    if text_eq e.kind kind_event && not (e.agg_cnt == 1)
    then some bad_event_agg_cnt
    else if text_eq e.kind kind_event && not (e.win == 0)
    then some bad_event_win
    else if text_eq e.kind kind_agg && leb_i64 e.win 0
    then some bad_agg_win
    else validate_value e.value

-- `Event.Validate`.
unfoldable pub validate : Event → Option EventError
unfolding validate_shape
validate e =
    if leb_i64 e.dt 0
    then some bad_dt
    else if not (text_eq e.kind kind_event || text_eq e.kind kind_agg)
    then some bad_type
    else if is_empty (trim_space e.var)
    then some bad_var
    else if no_tags e.tags
    then some bad_tags
    else if ltb_i64 e.agg_cnt 1
    then some bad_agg_cnt
    else validate_shape e
