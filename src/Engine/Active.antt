-- ===== src/Engine/Active.antt =====
-- internal/engine/engine.go, `applyActiveCondition`: pending, firing and the delay between them.
use malert.Base.{
  Bool, true, false, Option, none, some, if◌then◌else◌, Text, Time, zero_time, seconds, elapsed,
}
use malert.Domain.{AlertState, unset, pending, firing, resolved, Decision, no_decision}
use malert.Config.Rule.{RuleConfig}
use malert.Engine.State.{RuntimeState}

-- Decision{Matched: true, AlertID: id}.
abbrev pub matched_only : Text → Decision
matched_only id = record no_decision { matched = true; alert_id = id }

-- A decision that stores the state and changes nothing.
abbrev pub keeps : Text → AlertState → Decision
keeps id state = record no_decision {
  matched = true;
  alert_id = id;
  state = state;
  should_store = true;
}

abbrev pub enters_pending : Text → Decision
enters_pending id = record no_decision {
  matched = true;
  alert_id = id;
  state = pending;
  state_changed = true;
  should_store = true;
}

abbrev pub enters_firing : Text → Decision
enters_firing id = record no_decision {
  matched = true;
  alert_id = id;
  state = firing;
  state_changed = true;
  should_store = true;
  should_notify = true;
}

-- A resolve, at once by an event or by the tick, with its cause.
abbrev pub resolves : Text → Bool → Text → Decision
resolves id immediate cause = record no_decision {
  matched = true;
  alert_id = id;
  state = resolved;
  state_changed = true;
  should_store = true;
  should_notify = true;
  resolve_immediate = immediate;
  resolve_cause = cause;
}

-- `*state.PendingSince` after the branch has filled a nil pointer with the present time.
abbrev pub since_or : Option Time → Time → Time
since_or none now = now
since_or (some t) now = t

-- The branch `case domain.AlertStatePending`.
unfoldable pub confirm_pending : RuntimeState → RuleConfig → Time → RuntimeState × Decision
confirm_pending s rule now =
    if elapsed now (since_or s.pending_since now) (seconds rule.pending.delay_sec)
    then (record s { current_state = firing; pending_since = none }, enters_firing s.alert_id)
    else (
      record s { pending_since = some (since_or s.pending_since now) },
      keeps s.alert_id pending,
    )

-- The `switch` on the current state.
unfoldable pub advance : AlertState → RuntimeState → RuleConfig → Time → RuntimeState × Decision
unfolding confirm_pending
advance unset s rule now =
    if rule.pending.enabled
    then (
      record s { raised_at = now; pending_since = some now; current_state = pending },
      enters_pending s.alert_id,
    )
    else (
      record s { raised_at = now; current_state = firing; pending_since = none },
      enters_firing s.alert_id,
    )
advance pending s rule now = confirm_pending s rule now
advance firing s rule now = (s, keeps s.alert_id firing)
advance resolved s rule now =
    (record s { current_state = unset; raised_at = zero_time }, matched_only s.alert_id)

-- `applyActiveCondition`. Its argument `resolveCause` is read by no branch, and is left out.
unfoldable pub apply_active_condition :
    RuntimeState → RuleConfig → Time → Bool → Bool → RuntimeState × Decision
unfolding advance
apply_active_condition s rule now false from_tick =
    (s, if from_tick then no_decision else matched_only s.alert_id)
apply_active_condition s rule now true from_tick =
    advance s.current_state (record s { hysteresis_since = none }) rule now
