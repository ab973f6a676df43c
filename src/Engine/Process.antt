-- ===== src/Engine/Process.antt =====
-- internal/engine/engine.go, `ProcessEvent`: one event against one rule.
use malert.Base.{
  true, false, not, ◌&&◌, none, some, [], ◌∷◌, ◌++◌, if◌then◌else◌, Text, codes, Time, seconds,
  elapsed, add_i64, leb_i64, ltb_i64, insert,
}
use malert.Domain.{unset, Decision, no_decision}
use malert.Domain.Event.{Event, Float64}
use malert.Config.Rule.{
  RuleConfig, AlertType, count_total, count_window, missing_heartbeat, other_type,
}
use malert.Engine.State.{
  RuntimeState, States, is_active, reset_resolved_state, prune_window, metric_value, ensure_state,
}
use malert.Engine.Active.{matched_only, keeps, resolves, since_or, apply_active_condition}

abbrev pub heartbeat_recovered : Text
heartbeat_recovered = codes "heartbeat_recovered"

-- The branch `case "count_total"`.
unfoldable pub process_total : RuntimeState → RuleConfig → Event → Time → RuntimeState × Decision
process_total s rule event now =
    let t = record s {
      initialized = true;
      count_total = add_i64 s.count_total event.agg_cnt;
      active_count = add_i64 s.active_count event.agg_cnt;
    } in
    apply_active_condition t rule now (leb_i64 rule.raise.n t.count_total) false

-- The window after a new point, pruned at the present time.
unfoldable pub push_window : RuntimeState → RuleConfig → Event → Time → RuntimeState
push_window s rule event now =
    let (points, sum) =
      prune_window (s.count_window ++ record { at = now; count = event.agg_cnt } ∷ []) now
        (seconds rule.raise.window_sec) (add_i64 s.count_window_sum event.agg_cnt) in
    record s {
      initialized = true;
      active_count = add_i64 s.active_count event.agg_cnt;
      count_window = points;
      count_window_sum = sum;
    }

-- The branch `case "count_window"`.
unfoldable pub process_window : RuntimeState → RuleConfig → Event → Time → RuntimeState × Decision
unfolding push_window
process_window s rule event now =
    let t = push_window s rule event now in
    apply_active_condition t rule now (leb_i64 rule.raise.n t.count_window_sum) false

-- A heartbeat of an active alert: it resolves, after the hysteresis window if there is one.
unfoldable pub recover : RuntimeState → RuleConfig → Text → Time → RuntimeState × Decision
recover s rule alert_id now =
    let window = seconds rule.resolve.hysteresis_sec in
    let since = since_or s.hysteresis_since now in
    if ltb_i64 0 window && not (elapsed now since window)
    then (record s { hysteresis_since = some since }, keeps alert_id s.current_state)
    else (reset_resolved_state s, resolves alert_id true heartbeat_recovered)

-- The branch `case "missing_heartbeat"`.
unfoldable pub process_heartbeat : RuntimeState → RuleConfig → Text → Time → RuntimeState × Decision
unfolding recover
process_heartbeat s rule alert_id now =
    if not s.initialized
    then (
      record s {
        initialized = true;
        current_state = unset;
        pending_since = none;
        hysteresis_since = none;
      },
      matched_only alert_id,
    )
    else if is_active s.current_state
    then recover s rule alert_id now
    else (s, matched_only alert_id)

-- The `switch` on the alert type, over the state that `ensureState` returned.
unfoldable pub process_state :
    AlertType → RuntimeState → RuleConfig → Event → Text → Time → RuntimeState × Decision
unfolding process_total process_window process_heartbeat
process_state count_total s rule event alert_id now = process_total s rule event now
process_state count_window s rule event alert_id now = process_window s rule event now
process_state missing_heartbeat s rule event alert_id now = process_heartbeat s rule alert_id now
process_state (other_type t) s rule event alert_id now = (s, no_decision)

module _ (format_float : Float64 → Text) where
  -- The state of the alert when the `switch` is reached.
  unfoldable pub seen_state : States → RuleConfig → Event → Text → Time → RuntimeState
  unfolding ensure_state
  seen_state states rule event alert_id now =
      let s = ensure_state format_float states rule event alert_id in
      record s { last_seen = now; metric_value = metric_value format_float event.value }

  -- `ProcessEvent`.
  unfoldable pub process_event : States → RuleConfig → Event → Text → Time → States × Decision
  unfolding seen_state process_state
  process_event states rule event alert_id now =
      let seen = seen_state states rule event alert_id now in
      let (s, decision) = process_state rule.alert_type seen rule event alert_id now in
      (insert alert_id s states, decision)
