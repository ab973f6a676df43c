-- ===== src/Engine/Firing.antt =====
-- The alert IDs that a tick lists as firing; the manager repeats notifications for those only.
use malert.Base.{
  false, true, [], ◌∷◌, refl, Text, Bool, Time, ◌≡◌, List, if◌then◌else◌, elapsed, arith, seconds,
  text_eq, ◌&&◌, leb_i64, not,
}
use malert.Config.Rule.{
  count_total, other_type, missing_heartbeat, count_window, RuleConfig, AlertType,
}
use malert.Engine.Tick.{
  tick_count, tick_state, tick_heartbeat, tick_rule, tick_hysteresis, recovery_start,
}
use malert.Engine.State.{reset_resolved_state, States, RuntimeState, is_firing}
use malert.Domain.{AlertState, unset, pending, firing, resolved}
use malert.Engine.Active.{since_or, confirm_pending, advance, apply_active_condition}

-- The IDs of the firing states of a rule, in the order of the map.
unfoldable pub firing_of : Text → States → List Text
firing_of name [] = []
firing_of name ((id, s) ∷ states) =
    let rest = firing_of name states in
    if text_eq s.rule_name name && is_firing s.current_state then s.alert_id ∷ rest else rest

-- A rule that counts events.
abbrev pub counts_events : AlertType → Bool
counts_events count_total = true
counts_events count_window = true
counts_events missing_heartbeat = false
counts_events (other_type t) = false

tick_count-listed :
    (rule : RuleConfig) (now : Time) (s : RuntimeState)
    → ((tick_count rule now s).listed ≡ is_firing (tick_count rule now s).state.current_state)
      × ((tick_count rule now s).state.alert_id ≡ s.alert_id)
      × ((tick_count rule now s).state.rule_name ≡ s.rule_name)
unfolding tick_count reset_resolved_state
tick_count-listed rule now s = ground arith

counts_tick :
    (kind : AlertType) (rule : RuleConfig) (now : Time) (s : RuntimeState)
    → counts_events kind ≡ true
    → tick_state kind rule now s ≡ tick_count rule now s
unfolding tick_state
counts_tick count_total rule now s h = refl
counts_tick count_window rule now s h = refl
counts_tick missing_heartbeat rule now s h = cc
counts_tick (other_type t) rule now s h = cc

-- For a rule that counts events the list holds exactly the alerts of the rule that fire after the
-- tick.
pub firing_ids-firing_of :
    (rule : RuleConfig) (now : Time) (states : States)
    → counts_events rule.alert_type ≡ true
    → (tick_rule rule now states).firing_ids
      ≡ firing_of rule.name (tick_rule rule now states).states
unfolding tick_rule firing_of
firing_ids-firing_of rule now [] h = refl
firing_ids-firing_of rule now ((id, s) ∷ states) h =
    let pass = tick_state rule.alert_type rule now s in
    let facts : (pass.listed ≡ is_firing pass.state.current_state)
        × (pass.state.alert_id ≡ s.alert_id)
        × (pass.state.rule_name ≡ s.rule_name) =
      rw (counts_tick rule.alert_type rule now s h) (tick_count-listed rule now s) in
    ground (arith, facts, firing_ids-firing_of rule now states h)

-- A heartbeat that is missing at the tick.
abbrev pub is_missing : RuleConfig → Time → RuntimeState → Bool
is_missing rule now s = elapsed now s.last_seen (seconds rule.raise.missing_sec)

-- Whether an alert fires once its heartbeat is found missing, by its state before.
unfoldable pub raises : AlertState → RuleConfig → Time → RuntimeState → Bool
raises unset rule now s = not rule.pending.enabled
raises pending rule now s =
    elapsed now (since_or s.pending_since now) (seconds rule.pending.delay_sec)
raises firing rule now s = true
raises resolved rule now s = false

-- A hysteresis window of the rule, which has passed for the alert.
unfoldable pub has_window : RuleConfig → Bool
has_window rule = not (leb_i64 (seconds rule.resolve.hysteresis_sec) 0)

unfoldable pub window_passed : RuleConfig → Time → RuntimeState → Bool
window_passed rule now s =
    elapsed now (since_or s.hysteresis_since (recovery_start s now))
      (seconds rule.resolve.hysteresis_sec)

-- A firing alert whose heartbeat is back, inside the hysteresis window.
unfoldable pub recovers : RuleConfig → Time → RuntimeState → Bool
unfolding has_window window_passed
recovers rule now s =
    s.initialized
    && is_firing s.current_state
    && not (is_missing rule now s)
    && has_window rule
    && not (window_passed rule now s)

-- An alert that fires after the tick.
unfoldable pub fires_next : RuleConfig → Time → RuntimeState → Bool
unfolding has_window window_passed raises
fires_next rule now s =
    if not s.initialized
    then is_firing s.current_state
    else if is_missing rule now s
    then raises s.current_state rule now s
    else is_firing s.current_state && not (has_window rule && window_passed rule now s)

-- The IDs of the alerts of a rule that pass a test.
unfoldable pub ids_of : (RuntimeState → Bool) → Text → States → List Text
ids_of test name [] = []
ids_of test name ((id, s) ∷ states) =
    let rest = ids_of test name states in
    if text_eq s.rule_name name && test s then s.alert_id ∷ rest else rest

tick_heartbeat-listed :
    (rule : RuleConfig) (now : Time) (s : RuntimeState)
    → ((tick_heartbeat rule now s).listed ≡ recovers rule now s)
      × (is_firing (tick_heartbeat rule now s).state.current_state ≡ fires_next rule now s)
      × ((tick_heartbeat rule now s).state.alert_id ≡ s.alert_id)
      × ((tick_heartbeat rule now s).state.rule_name ≡ s.rule_name)
unfolding tick_heartbeat tick_hysteresis apply_active_condition advance confirm_pending
    reset_resolved_state recovers fires_next raises has_window window_passed
tick_heartbeat-listed rule now s = ground arith

heartbeat_tick :
    (kind : AlertType) (rule : RuleConfig) (now : Time) (s : RuntimeState)
    → kind ≡ missing_heartbeat
    → tick_state kind rule now s ≡ tick_heartbeat rule now s
unfolding tick_state
heartbeat_tick missing_heartbeat rule now s k = refl
heartbeat_tick count_total rule now s k = cc
heartbeat_tick count_window rule now s k = cc
heartbeat_tick (other_type t) rule now s k = cc

-- For a rule on missing heartbeats the list holds exactly the firing alerts of the rule that were
-- seen, whose heartbeat is back, and for which the rule has a hysteresis window that has not passed.
-- Those that fire after the tick are the firing ones whose heartbeat is back, unless the rule has
-- a window and it has passed, and besides them every alert that was seen and whose heartbeat is
-- missing, if it was firing, idle without a pending delay, or pending for the whole delay: these
-- fire, and the list leaves them out. An alert that was not seen fires if it did before.
pub missing-firing_ids :
    (rule : RuleConfig) (now : Time) (states : States)
    → rule.alert_type ≡ missing_heartbeat
    → let r = tick_rule rule now states in
      (r.firing_ids ≡ ids_of (recovers rule now) rule.name states)
      × (firing_of rule.name r.states ≡ ids_of (fires_next rule now) rule.name states)
unfolding tick_rule firing_of ids_of
missing-firing_ids rule now [] k = (refl, refl)
missing-firing_ids rule now ((id, s) ∷ states) k =
    let pass = tick_state rule.alert_type rule now s in
    let facts : (pass.listed ≡ recovers rule now s)
        × (is_firing pass.state.current_state ≡ fires_next rule now s)
        × (pass.state.alert_id ≡ s.alert_id)
        × (pass.state.rule_name ≡ s.rule_name) =
      rw (heartbeat_tick rule.alert_type rule now s k) (tick_heartbeat-listed rule now s) in
    ground (arith, facts, missing-firing_ids rule now states k)
