-- ===== src/Manager/Notice.antt =====
-- internal/app/manager.go: the notification of a transition, and the fields of its card.
use malert.Domain.{AlertState, unset, pending, firing, resolved, AlertCard, Notification}
use malert.Base.{
  ◌==◌, Time, Duration, is_zero, before, sub_time, unix_milli, Assoc, add_i64, sub_i64, ltb_i64,
  Text, codes, trim_space, is_empty, ℕ, zero, suc, Bool, false, not, ◌&&◌, ◌||◌, Option, none, some,
  [], ◌∷◌, ◌++◌, if◌then◌else◌,
}
use malert.Config.Rule.{RuleConfig}
use malert.Domain.Event.{Event}
use malert.Engine.State.{metric_value}

-- `resolveCardRaisedAt`.
unfoldable pub resolve_card_raised_at : AlertCard → Time → AlertCard
resolve_card_raised_at card fallback = if not (is_zero card.raised_at) then card else record card {
  raised_at = if is_zero card.last_seen_at then fallback else card.last_seen_at;
}

-- `applyCardStateTransition`.
unfoldable pub apply_card_state_transition : AlertCard → AlertState → Text → Time → AlertCard
apply_card_state_transition card pending cause now = record card {
  pending_since = some now;
  closed_at = none;
  resolve_cause = [];
}
apply_card_state_transition card firing cause now = record card {
  pending_since = none;
  closed_at = none;
  resolve_cause = [];
}
apply_card_state_transition card resolved cause now = record card {
  closed_at = some now;
  resolve_cause = cause;
}
apply_card_state_transition card unset cause now = card

-- `time.UnixMilli(0).UTC()`.
abbrev pub unix_epoch : Time
unix_epoch = 62135596800000000000

-- `startedAt`.
unfoldable pub started_at : Time → Time → Time
started_at value fallback =
    if not (is_zero value) then value else if not (is_zero fallback) then fallback else unix_epoch

-- `alertDuration`.
unfoldable pub alert_duration : Time → Time → Duration
alert_duration start end = if is_zero start || before end start then 0 else sub_time end start

-- The text behind the last slash, if there is one and something follows it.
unfoldable pub last_segment : Text → Option Text
last_segment [] = none
last_segment (c ∷ s) = elim (last_segment s) [
  | some t ↦ some t
  | none ↦ if c == b'/' && not (is_empty s) then some s else none
]

abbrev pub take : ℕ → Text → Text
take zero s = []
take (suc n) [] = []
take (suc n) (c ∷ s) = c ∷ take n s

-- `strings.LastIndex` reads the last slash only: behind a slash that ends the text nothing is cut.
unfoldable pub ends_with_slash : Text → Bool
ends_with_slash [] = false
ends_with_slash (c ∷ []) = c == b'/'
ends_with_slash (c ∷ d ∷ s) = ends_with_slash (d ∷ s)

-- `shortAlertID`. An alert ID is ASCII, so that five bytes are five code points.
unfoldable pub short_alert_id : Text → Text
unfolding last_segment ends_with_slash
short_alert_id id =
    let trimmed = trim_space id in
    take 5 (
      if ends_with_slash trimmed
      then trimmed
      else elim (last_segment trimmed) [ none ↦ trimmed | some t ↦ t ])

-- `buildNotification`.
unfoldable pub build_notification :
    Text → Text → Text → Assoc Text → Text → AlertState → Text → Time → Time → Notification
unfolding short_alert_id started_at
build_notification id rule_name var tags metric_value state message now raised_at = record {
  channel = [];
  route_key = [];
  route_mode = [];
  alert_id = id;
  short_id = short_alert_id id;
  rule_name = rule_name;
  state = state;
  message = message;
  reply_to_message_id = none;
  external_ref = [];
  tags = tags;
  var = var;
  metric_value = metric_value;
  started_at = some (started_at raised_at now);
  duration = 0;
  timestamp = now;
}

-- `buildResolvedCardNotification`.
unfoldable pub build_resolved_card_notification : AlertCard → Text → Time → Notification
unfolding build_notification alert_duration
build_resolved_card_notification card message now =
    let base =
      build_notification card.alert_id card.rule_name card.var card.tags card.metric_value resolved
        message now card.raised_at in
    record base { duration = alert_duration card.raised_at now }

-- `notificationMessage`.
unfoldable pub notification_message : AlertState → Text → Text
notification_message pending cause = codes "alert entered pending"
notification_message firing cause = codes "alert is firing"
notification_message resolved cause =
    if is_empty cause then codes "alert resolved" else codes "alert resolved: " ++ cause
notification_message unset cause = codes "alert state changed"

-- `shouldDropOutOfOrder`.
unfoldable pub should_drop_out_of_order : RuleConfig → Event → Time → Bool
should_drop_out_of_order rule event now =
    let late = rule.out_of_order.max_late_ms in
    let skew = rule.out_of_order.max_future_skew_ms in
    (ltb_i64 0 late && ltb_i64 late (sub_i64 (unix_milli now) event.dt))
    || (ltb_i64 0 skew && ltb_i64 (add_i64 (unix_milli now) skew) event.dt)
