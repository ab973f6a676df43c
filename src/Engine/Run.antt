-- ===== src/Engine/Run.antt =====
-- A history of calls on the engine, one at a time under its mutex.
use malert.Base.{List, [], ◌∷◌, Text, Time, ℕ, Duration, Int64}
use malert.Domain.Event.{Event, Float64}
use malert.Config.Rule.{RuleConfig}
use malert.Engine.State.{States}
use malert.Engine.Process.{process_event}
use malert.Engine.Tick.{tick_rule}
use malert.Engine.Compact.{compact_states}
use malert.Engine.Access.{
  remove_alert_state, set_last_notified, set_channel_message_id, set_channel_external_ref,
}

pub data Call : Type 0 where
  event_call : RuleConfig → Event → Text → Time → Call
  tick_call : RuleConfig → Time → Call
  remove_call : Text → Call
  notified_call : Text → Text → Time → Call
  message_call : Text → Text → ℕ → Call
  ref_call : Text → Text → Text → Call
  compact_call : Time → Duration → Int64 → Call

module _ (format_float : Float64 → Text) where
  unfoldable pub step : States → Call → States
  step states (event_call rule event id now) =
      (process_event format_float states rule event id now).0
  step states (tick_call rule now) = (tick_rule rule now states).states
  step states (remove_call id) = remove_alert_state states id
  step states (notified_call id channel now) = (set_last_notified states id channel now).0
  step states (message_call id channel message) =
      (set_channel_message_id states id channel message).0
  step states (ref_call id channel ref) = (set_channel_external_ref states id channel ref).0
  step states (compact_call now ttl max_states) = (compact_states now ttl max_states states).states

  unfoldable pub run : States → List Call → States
  unfolding step
  run states [] = states
  run states (c ∷ cs) = run (step states c) cs
