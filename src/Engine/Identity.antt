-- ===== src/Engine/Identity.antt =====
-- The fields of a runtime state that no event and no tick changes.
use malert.Engine.State.{RuntimeState, reset_resolved_state}
use malert.Engine.Process.{
  process_heartbeat, process_state, push_window, process_total, recover, process_window,
}
use malert.Engine.Tick.{tick_state, tick_heartbeat, tick_count, tick_hysteresis, clear_hysteresis}
use malert.Engine.Active.{apply_active_condition}
use malert.Base.{arith, ◌≡◌, Time, Text, elapsed, Bool, false, seconds, true}
use malert.Config.Rule.{
  RuleConfig, AlertType, other_type, count_window, count_total, missing_heartbeat,
}
use malert.Domain.Event.{Event}

-- The identity of a state, and what deliveries have recorded in it.
pub record SameIdentity (s t : RuntimeState) : Type 0 where
  pub rule_name : t.rule_name ≡ s.rule_name
  pub alert_id : t.alert_id ≡ s.alert_id
  pub var : t.var ≡ s.var
  pub tags : t.tags ≡ s.tags
  pub last_notified : t.last_notified ≡ s.last_notified
  pub channel_refs : t.channel_refs ≡ s.channel_refs
  pub external_refs : t.external_refs ≡ s.external_refs

SameIdentity-refl : (s : RuntimeState) → SameIdentity s s
SameIdentity-refl s = ground arith

apply-SameIdentity :
    (s : RuntimeState) (rule : RuleConfig) (now : Time) (active from_tick : Bool)
    → SameIdentity s (apply_active_condition s rule now active from_tick).0
unfolding apply_active_condition
apply-SameIdentity s rule now active from_tick = ground arith

reset-SameIdentity : (s : RuntimeState) → SameIdentity s (reset_resolved_state s)
unfolding reset_resolved_state
reset-SameIdentity s = ground arith

push_window-SameIdentity :
    (s : RuntimeState) (rule : RuleConfig) (event : Event) (now : Time)
    → SameIdentity s (push_window s rule event now)
unfolding push_window
push_window-SameIdentity s rule event now = ground arith

heartbeat-SameIdentity :
    (s : RuntimeState) (rule : RuleConfig) (id : Text) (now : Time)
    → SameIdentity s (process_heartbeat s rule id now).0
unfolding process_heartbeat recover
heartbeat-SameIdentity s rule id now = ground (arith, reset-SameIdentity s)

SameIdentity-trans : (s t u : RuntimeState) → SameIdentity s t → SameIdentity t u → SameIdentity s u
SameIdentity-trans s t u p q = ground arith

pub process_state-SameIdentity :
    (kind : AlertType) (s : RuntimeState) (rule : RuleConfig) (event : Event) (id : Text)
    (now : Time)
    → SameIdentity s (process_state kind s rule event id now).0
unfolding process_state process_total process_window
process_state-SameIdentity count_total s rule event id now =
    SameIdentity-trans s _ _ (ground arith) (apply-SameIdentity _ rule now _ false)
process_state-SameIdentity count_window s rule event id now =
    SameIdentity-trans s _ _ (push_window-SameIdentity s rule event now)
      (apply-SameIdentity _ rule now _ false)
process_state-SameIdentity missing_heartbeat s rule event id now =
    heartbeat-SameIdentity s rule id now
process_state-SameIdentity (other_type t) s rule event id now = SameIdentity-refl s

tick_heartbeat-SameIdentity :
    (s : RuntimeState) (rule : RuleConfig) (now : Time)
    → SameIdentity s (tick_heartbeat rule now s).state
unfolding tick_heartbeat tick_hysteresis
tick_heartbeat-SameIdentity s rule now =
    let active = elapsed now s.last_seen (seconds rule.raise.missing_sec) in
    let cleared = clear_hysteresis active s in
    let t = (apply_active_condition cleared rule now active true).0 in
    ground (arith, apply-SameIdentity cleared rule now active true, reset-SameIdentity t)

pub tick_state-SameIdentity :
    (kind : AlertType) (s : RuntimeState) (rule : RuleConfig) (now : Time)
    → SameIdentity s (tick_state kind rule now s).state
unfolding tick_state tick_count
tick_state-SameIdentity count_total s rule now = ground (arith, reset-SameIdentity s)
tick_state-SameIdentity count_window s rule now = ground (arith, reset-SameIdentity s)
tick_state-SameIdentity missing_heartbeat s rule now = tick_heartbeat-SameIdentity s rule now
tick_state-SameIdentity (other_type t) s rule now = SameIdentity-refl s
