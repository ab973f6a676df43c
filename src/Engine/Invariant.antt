-- ===== src/Engine/Invariant.antt =====
-- What holds of a runtime state between two calls of the engine.
use malert.Base.{
  ◌≡◌, ◌≢◌, refl, Bool, true, false, List, is_some, Text, Time, zero_time, arith, elapsed, seconds,
}
use malert.Domain.{state_eq, unset, pending, resolved, Decision}
use malert.Domain.Event.{Event, Float64}
use malert.Config.Rule.{
  RuleConfig, AlertType, count_total, count_window, missing_heartbeat, other_type,
}
use malert.Engine.State.{RuntimeState, is_active, reset_resolved_state, fresh_state}
use malert.Engine.Active.{apply_active_condition}
use malert.Engine.Process.{
  process_total, push_window, process_window, recover, process_heartbeat, process_state,
}
use malert.Engine.Tick.{
  tick_count, tick_hysteresis, tick_heartbeat, clear_hysteresis, if_matched, tick_state,
}
use malert.Engine.Window.{sum_counts, push_window-sum}

pub record IsValid (s : RuntimeState) : Type 0 where
  pub not_resolved : s.current_state ≢ resolved
  pub waits_pending : is_some s.pending_since ≡ state_eq s.current_state pending
  pub recovers_active : is_some s.hysteresis_since ≡ true → is_active s.current_state ≡ true
  pub active_initialized : is_active s.current_state ≡ true → s.initialized ≡ true
  pub idle_not_raised : s.current_state ≡ unset → s.raised_at ≡ zero_time
  pub window_total : s.count_window_sum ≡ sum_counts s.count_window

pub reset-IsValid : (s : RuntimeState) → IsValid (reset_resolved_state s)
unfolding reset_resolved_state
reset-IsValid s = ground arith

pub fresh-IsValid :
    (format_float : Float64 → Text) (rule : RuleConfig) (event : Event) (id : Text)
    → IsValid (fresh_state format_float rule event id)
unfolding fresh_state
fresh-IsValid format_float rule event id = ground arith

module _ (s : RuntimeState) (rule : RuleConfig) (now : Time) where
  pub apply-IsValid :
      (active from_tick : Bool)
      → s.initialized ≡ true
      → IsValid s
      → IsValid (apply_active_condition s rule now active from_tick).0
  unfolding apply_active_condition
  apply-IsValid active from_tick i v = ground arith

  recover-IsValid :
      (id : Text) → is_active s.current_state ≡ true → IsValid s → IsValid (recover s rule id now).0
  unfolding recover
  recover-IsValid id a v = ground (arith, reset-IsValid s)

  heartbeat-IsValid : (id : Text) → IsValid s → IsValid (process_heartbeat s rule id now).0
  unfolding process_heartbeat
  heartbeat-IsValid id v = ground (arith, recover-IsValid id)

process_total-IsValid :
    (s : RuntimeState) (rule : RuleConfig) (event : Event) (now : Time)
    → IsValid s
    → IsValid (process_total s rule event now).0
unfolding process_total
process_total-IsValid s rule event now v = apply-IsValid _ rule now _ false refl (ground arith)

push_window-IsValid :
    (s : RuntimeState) (rule : RuleConfig) (event : Event) (now : Time)
    → IsValid s
    → IsValid (push_window s rule event now)
unfolding push_window
push_window-IsValid s rule event now v =
    ground (arith, push_window-sum s rule event now v.window_total)

process_window-IsValid :
    (s : RuntimeState) (rule : RuleConfig) (event : Event) (now : Time)
    → IsValid s
    → IsValid (process_window s rule event now).0
unfolding process_window
process_window-IsValid s rule event now v =
    apply-IsValid _ rule now _ false refl (push_window-IsValid s rule event now v)

-- An event keeps the invariant, whatever the type of the rule.
pub process_state-IsValid :
    (kind : AlertType) (s : RuntimeState) (rule : RuleConfig) (event : Event) (id : Text)
    (now : Time)
    → IsValid s
    → IsValid (process_state kind s rule event id now).0
unfolding process_state
process_state-IsValid count_total s rule event id now v = process_total-IsValid s rule event now v
process_state-IsValid count_window s rule event id now v = process_window-IsValid s rule event now v
process_state-IsValid missing_heartbeat s rule event id now v = heartbeat-IsValid s rule now id v
process_state-IsValid (other_type t) s rule event id now v = v

tick_count-IsValid :
    (s : RuntimeState) (rule : RuleConfig) (now : Time)
    → IsValid s
    → IsValid (tick_count rule now s).state
unfolding tick_count
tick_count-IsValid s rule now v = ground (arith, reset-IsValid s)

tick_hysteresis-IsValid :
    (s : RuntimeState) (rule : RuleConfig) (now : Time) (ds : List Decision)
    → is_active s.current_state ≡ true
    → IsValid s
    → IsValid (tick_hysteresis rule now ds s).state
unfolding tick_hysteresis
tick_hysteresis-IsValid s rule now ds a v = ground (arith, reset-IsValid s)

clear-IsValid : (s : RuntimeState) (b : Bool) → IsValid s → IsValid (clear_hysteresis b s)
clear-IsValid s b v = ground arith

tick_heartbeat-IsValid :
    (s : RuntimeState) (rule : RuleConfig) (now : Time)
    → IsValid s
    → IsValid (tick_heartbeat rule now s).state
unfolding tick_heartbeat
tick_heartbeat-IsValid s rule now v =
    let active = elapsed now s.last_seen (seconds rule.raise.missing_sec) in
    let cleared = clear_hysteresis active s in
    let t = (apply_active_condition cleared rule now active true).0 in
    ground (
      arith,
      clear-IsValid s active,
      apply-IsValid cleared rule now active true,
      tick_hysteresis-IsValid t rule now
          (if_matched (apply_active_condition cleared rule now active true).1),
    )

-- So does a pass of the tick.
pub tick_state-IsValid :
    (kind : AlertType) (s : RuntimeState) (rule : RuleConfig) (now : Time)
    → IsValid s
    → IsValid (tick_state kind rule now s).state
unfolding tick_state
tick_state-IsValid count_total s rule now v = tick_count-IsValid s rule now v
tick_state-IsValid count_window s rule now v = tick_count-IsValid s rule now v
tick_state-IsValid missing_heartbeat s rule now v = tick_heartbeat-IsValid s rule now v
tick_state-IsValid (other_type t) s rule now v = v
