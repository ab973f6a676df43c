-- ===== src/Engine/Access.antt =====
-- internal/engine/engine.go: reads and writes of one alert's state by its ID. A nil map reads as an
-- empty one, so the guards that allocate it leave no trace here. A copy of a state (a clone) is the
-- same value, since values are not shared in the model.
use malert.Base.{
  ℕ, Bool, true, false, Option, none, some, List, [], ◌∷◌, if◌then◌else◌, Text, text_eq, Time,
  Assoc, lookup, insert, delete,
}
use malert.Engine.State.{RuntimeState, States}

pub record AlertIdentity : Type 0 where
  pub var : Text
  pub tags : Assoc Text
  pub metric_value : Text

pub record RepeatSnapshot : Type 0 where
  pub alert_id : Text
  pub rule_name : Text
  pub var : Text
  pub tags : Assoc Text
  pub metric_value : Text
  pub raised_at : Time

-- `RemoveAlertState`.
unfoldable pub remove_alert_state : States → Text → States
remove_alert_state states id = delete id states

-- `GetStateSnapshot`, with `cloneRuntimeState`.
unfoldable pub get_state_snapshot : States → Text → Option RuntimeState
get_state_snapshot states id = lookup id states

-- `GetAlertIdentity`.
unfoldable pub get_alert_identity : States → Text → Option AlertIdentity
get_alert_identity states id = elim (lookup id states) [
  | none ↦ none
  | some s ↦ some (record { var = s.var; tags = s.tags; metric_value = s.metric_value })
]

-- `GetRepeatSnapshot`.
unfoldable pub get_repeat_snapshot : States → Text → Option RepeatSnapshot
get_repeat_snapshot states id = elim (lookup id states) [
  | none ↦ none
  | some s ↦ some (record {
    alert_id = s.alert_id;
    rule_name = s.rule_name;
    var = s.var;
    tags = s.tags;
    metric_value = s.metric_value;
    raised_at = s.raised_at;
  })
]

-- `GetLastNotified`.
unfoldable pub get_last_notified : States → Text → Text → Option Time
get_last_notified states id key = elim (lookup id states) [
  | none ↦ none
  | some s ↦ lookup key s.last_notified
]

-- `GetChannelMessageID`.
unfoldable pub get_channel_message_id : States → Text → Text → Option ℕ
get_channel_message_id states id channel = elim (lookup id states) [
  | none ↦ none
  | some s ↦ lookup channel s.channel_refs
]

-- `GetChannelExternalRef`.
unfoldable pub get_channel_external_ref : States → Text → Text → Option Text
get_channel_external_ref states id channel = elim (lookup id states) [
  | none ↦ none
  | some s ↦ lookup channel s.external_refs
]

-- The common form of the setters: the state under the ID is changed, if there is one.
unfoldable pub update_state : Text → (RuntimeState → RuntimeState) → States → States × Bool
update_state id f states = elim (lookup id states) [
  | none ↦ (states, false)
  | some s ↦ (insert id (f s) states, true)
]

-- `SetLastNotified`.
unfoldable pub set_last_notified : States → Text → Text → Time → States × Bool
unfolding update_state
set_last_notified states id channel now =
    update_state id (λ s. record s { last_notified = insert channel now s.last_notified }) states

-- `SetChannelMessageID`.
unfoldable pub set_channel_message_id : States → Text → Text → ℕ → States × Bool
unfolding update_state
set_channel_message_id states id channel message_id =
    update_state id (λ s. record s { channel_refs = insert channel message_id s.channel_refs })
      states

-- `SetChannelExternalRef`.
unfoldable pub set_channel_external_ref : States → Text → Text → Text → States × Bool
unfolding update_state
set_channel_external_ref states id channel value =
    update_state id (λ s. record s { external_refs = insert channel value s.external_refs }) states

-- `ListStatesByRule`.
unfoldable pub list_states_by_rule : States → Text → List RuntimeState
list_states_by_rule [] name = []
list_states_by_rule ((id, s) ∷ states) name =
    let rest = list_states_by_rule states name in
    if text_eq s.rule_name name then s ∷ rest else rest
