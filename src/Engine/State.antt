-- ===== src/Engine/State.antt =====
-- internal/engine/engine.go: the runtime state of one alert, its window, and its reset.
use malert.Base.{
  ℕ, ◌-◌, Bool, true, false, Option, none, some, List, [], ◌∷◌, if◌then◌else◌, Text, codes, text_eq,
  Time, zero_time, before, Duration, Int64, sub_i64, leb_i64, Assoc, lookup,
}
use malert.Domain.{AlertState, unset, pending, firing, resolved}
use malert.Domain.Event.{Event, TypedValue, Float64}
use malert.Config.Rule.{RuleConfig}

pub record WindowPoint : Type 0 where
  pub at : Time
  pub count : Int64

pub record RuntimeState : Type 0 where
  pub rule_name : Text
  pub alert_id : Text
  pub var : Text
  pub tags : Assoc Text
  pub metric_value : Text
  pub raised_at : Time
  pub initialized : Bool
  pub last_seen : Time
  pub pending_since : Option Time
  pub hysteresis_since : Option Time
  pub current_state : AlertState
  pub count_total : Int64
  pub count_window : List WindowPoint
  pub count_window_sum : Int64
  pub active_count : Int64
  pub last_notified : Assoc Time
  pub channel_refs : Assoc ℕ
  pub external_refs : Assoc Text

-- `Engine.states`. Every method holds the engine's mutex from its first line to its return, so a
-- call is one step on this map.
abbrev pub States : Type 0
States = Assoc RuntimeState

-- `New`.
unfoldable pub new_engine : States
new_engine = []

-- `state.CurrentState == pending || state.CurrentState == firing`.
abbrev pub is_active : AlertState → Bool
is_active unset = false
is_active pending = true
is_active firing = true
is_active resolved = false

-- `state.CurrentState == ""`.
abbrev pub is_idle : AlertState → Bool
is_idle unset = true
is_idle pending = false
is_idle firing = false
is_idle resolved = false

abbrev pub is_firing : AlertState → Bool
is_firing unset = false
is_firing pending = false
is_firing firing = true
is_firing resolved = false

-- `resetResolvedState`.
unfoldable pub reset_resolved_state : RuntimeState → RuntimeState
reset_resolved_state s = record s {
  current_state = unset;
  pending_since = none;
  hysteresis_since = none;
  count_window = [];
  count_window_sum = 0;
  count_total = 0;
  active_count = 0;
  raised_at = zero_time;
}

-- The loop of `pruneWindow` over the oldest points.
unfoldable pub prune_from : Time → List WindowPoint → Int64 → List WindowPoint × Int64
prune_from cutoff [] sum = ([], sum)
prune_from cutoff (p ∷ ps) sum =
    if before p.at cutoff then prune_from cutoff ps (sub_i64 sum p.count) else (p ∷ ps, sum)

-- `pruneWindow`. The window is positive where `now.Add(-window)` is computed; a cutoff before the
-- zero time drops nothing, and neither does a cutoff at it.
unfoldable pub prune_window : List WindowPoint → Time → Duration → Int64 → List WindowPoint × Int64
unfolding prune_from
prune_window points now window sum =
    if leb_i64 window 0 then ([], 0) else prune_from (now - window) points sum

-- strconv.FormatBool.
abbrev pub format_bool : Bool → Text
format_bool true = codes "true"
format_bool false = codes "false"

module _ (format_float : Float64 → Text) where
  -- `metricValue`; `format_float` is strconv.FormatFloat at format 'f' with the shortest precision.
  unfoldable pub metric_value : TypedValue → Text
  metric_value v =
      if text_eq v.kind (codes "n")
      then elim v.n [ none ↦ [] | some x ↦ format_float x ]
      else if text_eq v.kind (codes "s")
      then elim v.s [ none ↦ [] | some x ↦ x ]
      else if text_eq v.kind (codes "b")
      then elim v.b [ none ↦ [] | some x ↦ format_bool x ]
      else []

  -- The state that `ensureState` makes for a new alert.
  unfoldable pub fresh_state : RuleConfig → Event → Text → RuntimeState
  unfolding metric_value
  fresh_state rule event alert_id = record {
    rule_name = rule.name;
    alert_id = alert_id;
    var = event.var;
    tags = event.tags;
    metric_value = metric_value event.value;
    raised_at = zero_time;
    initialized = false;
    last_seen = zero_time;
    pending_since = none;
    hysteresis_since = none;
    current_state = unset;
    count_total = 0;
    count_window = [];
    count_window_sum = 0;
    active_count = 0;
    last_notified = [];
    channel_refs = [];
    external_refs = [];
  }

  -- `ensureState`: the state under the alert's ID, a fresh one if there is none. The caller stores it.
  unfoldable pub ensure_state : States → RuleConfig → Event → Text → RuntimeState
  unfolding fresh_state
  ensure_state states rule event alert_id = elim (lookup alert_id states) [
    | some existing ↦ existing
    | none ↦ fresh_state rule event alert_id
  ]
