-- ===== src/Engine/Tick.antt =====
-- internal/engine/engine.go, `TickRuleWithFiring`: the transitions of one rule that no event makes.
use malert.Base.{
  Bool, true, false, not, ◌||◌, none, some, List, [], ◌∷◌, ◌++◌, if◌then◌else◌, Text, codes,
  text_eq, Time, is_zero, seconds, elapsed, add_i64, leb_i64,
}
use malert.Domain.{Decision}
use malert.Config.Rule.{
  RuleConfig, AlertType, count_total, count_window, missing_heartbeat, other_type,
}
use malert.Engine.State.{RuntimeState, States, is_active, is_firing, reset_resolved_state}
use malert.Engine.Active.{keeps, resolves, since_or, apply_active_condition}
use malert.Engine.Process.{heartbeat_recovered}

abbrev pub silence_timeout : Text
silence_timeout = codes "silence_timeout"

-- What one pass of the loop leaves: the state, the decisions that it appends, and whether it
-- appends the alert's ID to the firing IDs. A pass that `continue` ends appends none.
pub record Pass : Type 0 where
  pub state : RuntimeState
  pub decisions : List Decision
  pub listed : Bool

-- The branch `case "count_total", "count_window"`, with the test at the end of the loop's body.
unfoldable pub tick_count : RuleConfig → Time → RuntimeState → Pass
tick_count rule now s =
    if not (is_active s.current_state)
    then record { state = s; decisions = []; listed = false }
    else if elapsed now s.last_seen
        (seconds (add_i64 rule.resolve.silence_sec rule.resolve.hysteresis_sec))
    then record {
      state = reset_resolved_state s;
      decisions = resolves s.alert_id false silence_timeout ∷ [];
      listed = is_firing (reset_resolved_state s).current_state;
    }
    else record { state = s; decisions = []; listed = is_firing s.current_state }

-- `time.Time` that the hysteresis window of a recovered heartbeat starts at, when none is set.
abbrev pub recovery_start : RuntimeState → Time → Time
recovery_start s now = if is_zero s.last_seen then now else s.last_seen

-- A recovered heartbeat inside or past its hysteresis window; `before` are the decisions so far.
unfoldable pub tick_hysteresis : RuleConfig → Time → List Decision → RuntimeState → Pass
tick_hysteresis rule now before s =
    let since = since_or s.hysteresis_since (recovery_start s now) in
    if elapsed now since (seconds rule.resolve.hysteresis_sec)
    then record {
      state = reset_resolved_state s;
      decisions = before ++ resolves s.alert_id false heartbeat_recovered ∷ [];
      listed = false;
    }
    else record {
      state = record s { hysteresis_since = some since };
      decisions = before ++ keeps s.alert_id s.current_state ∷ [];
      listed = is_firing s.current_state;
    }

-- `if active { state.HysteresisSince = nil }`.
abbrev pub clear_hysteresis : Bool → RuntimeState → RuntimeState
clear_hysteresis true s = record s { hysteresis_since = none }
clear_hysteresis false s = s

abbrev pub if_matched : Decision → List Decision
if_matched d = if d.matched then d ∷ [] else []

-- The branch `case "missing_heartbeat"`.
unfoldable pub tick_heartbeat : RuleConfig → Time → RuntimeState → Pass
unfolding tick_hysteresis
tick_heartbeat rule now s =
    let active = elapsed now s.last_seen (seconds rule.raise.missing_sec) in
    let (t, decision) = apply_active_condition (clear_hysteresis active s) rule now active true in
    if not s.initialized
    then record { state = s; decisions = []; listed = false }
    else if active
        || not (is_active t.current_state)
        || leb_i64 (seconds rule.resolve.hysteresis_sec) 0
    then record { state = t; decisions = if_matched decision; listed = false }
    else tick_hysteresis rule now (if_matched decision) t

-- The body of the loop for a state of the rule.
unfoldable pub tick_state : AlertType → RuleConfig → Time → RuntimeState → Pass
unfolding tick_count tick_heartbeat
tick_state count_total rule now s = tick_count rule now s
tick_state count_window rule now s = tick_count rule now s
tick_state missing_heartbeat rule now s = tick_heartbeat rule now s
tick_state (other_type t) rule now s = record {
  state = s;
  decisions = [];
  listed = is_firing s.current_state;
}

pub record TickResult : Type 0 where
  pub states : States
  pub decisions : List Decision
  pub firing_ids : List Text

abbrev pub if_listed : Pass → List Text
if_listed p = if p.listed then p.state.alert_id ∷ [] else []

-- `TickRuleWithFiring`, in the order of one `range` over the states. `TickRule` drops the IDs.
unfoldable pub tick_rule : RuleConfig → Time → States → TickResult
unfolding tick_state
tick_rule rule now [] = record { states = []; decisions = []; firing_ids = [] }
tick_rule rule now ((id, s) ∷ states) =
    let rest = tick_rule rule now states in
    let pass = tick_state rule.alert_type rule now s in
    if text_eq s.rule_name rule.name
    then record {
      states = (id, pass.state) ∷ rest.states;
      decisions = pass.decisions ++ rest.decisions;
      firing_ids = if_listed pass ++ rest.firing_ids;
    }
    else record {
      states = (id, s) ∷ rest.states;
      decisions = rest.decisions;
      firing_ids = rest.firing_ids;
    }
