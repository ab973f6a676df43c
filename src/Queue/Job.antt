-- ===== src/Queue/Job.antt =====
-- internal/notifyqueue/queue.go: a job, and its ID.
use malert.Domain.{AlertState, unset, pending, firing, resolved, Notification}
use malert.Base.{
  ltb, Time, Int64, int64_mod, int64_half, sub_i64, Text, codes, ℕ, zero, suc, ◌+◌, ◌-◌, ◌/◌, ◌%◌,
  List, [], ◌∷◌, ◌++◌, if◌then◌else◌,
}

pub record Job : Type 0 where
  pub id : Text
  pub route_key : Text
  pub route_mode : Text
  pub channel : Text
  pub template : Text
  pub notification : Notification
  pub created_at : Time

-- `Time.UnixNano`.
unfoldable pub unix_nano : Time → Int64
unix_nano t = sub_i64 t 62135596800000000000

-- Decimal digits, the last one first. An int64 has at most 19.
unfoldable pub digits_below : ℕ → ℕ → Text → Text
digits_below zero n acc = acc
digits_below (suc fuel) n acc =
    let rest = digits_below fuel (n / 10) ((b'0' + n % 10) ∷ acc) in
    if ltb n 10 then (b'0' + n % 10) ∷ acc else rest

-- `%d` of an int64.
unfoldable pub format_int : Int64 → Text
unfolding digits_below
format_int w =
    if ltb w int64_half then digits_below 20 w [] else b'-' ∷ digits_below 20 (int64_mod - w) []

-- `%s` of an alert state.
abbrev pub state_text : AlertState → Text
state_text unset = []
state_text pending = codes "pending"
state_text firing = codes "firing"
state_text resolved = codes "resolved"

unfoldable pub joined : List Text → Text
joined [] = []
joined (a ∷ []) = a
joined (a ∷ b ∷ rest) = a ++ (b'|' ∷ joined (b ∷ rest))

-- `BuildJobID`; `digest` is hex.EncodeToString of sha1.Sum.
unfoldable pub build_job_id : (Text → Text) → Text → Text → Notification → Text
unfolding unix_nano format_int joined
build_job_id digest channel template n = digest (
    joined (
      channel
      ∷ template
      ∷ n.alert_id
      ∷ state_text n.state
      ∷ n.message
      ∷ format_int (unix_nano n.timestamp)
      ∷ n.external_ref
      ∷ n.route_key
      ∷ n.route_mode
      ∷ []))
