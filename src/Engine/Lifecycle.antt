-- ===== src/Engine/Lifecycle.antt =====
-- The life of an alert: which states follow one another, and what a decision says of a change.
use malert.Base.{
  true, false, Text, Bool, ◌≡◌, Time, not, ◌≢◌, arith, some, none, lookup, insert,
  lookup-insert_self,
}
use malert.Config.Rule.{
  RuleConfig, count_total, count_window, missing_heartbeat, other_type, AlertType,
}
use malert.Domain.{firing, resolved, pending, unset, AlertState, Decision, state_eq}
use malert.Engine.Active.{apply_active_condition}
use malert.Engine.State.{RuntimeState, reset_resolved_state, States}
use malert.Engine.Process.{
  process_heartbeat, recover, process_state, process_total, process_window, push_window,
}
use malert.Engine.Invariant.{IsValid}
use malert.Domain.Event.{Event}

-- The edges of the alert's state machine.
pub data Edge : AlertState → AlertState → Type 0 where
  stay : {a : AlertState} → Edge a a
  arm : Edge unset pending
  fire : Edge unset firing
  confirm : Edge pending firing
  cancel : Edge pending unset
  recovered : Edge firing unset

pub ruleset edges = (stay, arm, fire, confirm, cancel, recovered)

-- The changes that are announced: an alert fires, or an active alert ends.
abbrev pub is_announced : AlertState → AlertState → Bool
is_announced unset firing = true
is_announced pending firing = true
is_announced pending unset = true
is_announced firing unset = true
is_announced _ _ = false

-- The state that a decision shows to the outside: an alert that ended is resolved.
abbrev pub shown : AlertState → AlertState
shown unset = resolved
shown pending = pending
shown firing = firing
shown resolved = resolved

-- A decision about the alert `id` that fits a change of its state.
pub record Reports (id : Text) (a b : AlertState) (d : Decision) : Type 0 where
  pub edge : Edge a b
  pub changed : d.state_changed ≡ not (state_eq a b)
  pub notified : d.should_notify ≡ is_announced a b
  pub stored : d.state_changed ≡ true → d.should_store ≡ true
  pub state : d.should_store ≡ true → d.state ≡ shown b
  pub named : d.matched ≡ true → d.alert_id ≡ id

-- The facts of a report but its edge.
abbrev pub Fits : Text → AlertState → AlertState → Decision → Type 0
Fits id a b d =
    (d.state_changed ≡ not (state_eq a b))
    × (d.should_notify ≡ is_announced a b)
    × (d.state_changed ≡ true → d.should_store ≡ true)
    × (d.should_store ≡ true → d.state ≡ shown b)
    × (d.matched ≡ true → d.alert_id ≡ id)

pub apply-Fits :
    (s : RuntimeState) (rule : RuleConfig) (now : Time) (active from_tick : Bool)
    → s.current_state ≢ resolved
    → let r = apply_active_condition s rule now active from_tick in
      Fits s.alert_id s.current_state r.0.current_state r.1
unfolding apply_active_condition
apply-Fits s rule now active from_tick h = ground arith

pub apply-Edge :
    (s : RuntimeState) (rule : RuleConfig) (now : Time) (active from_tick : Bool)
    → s.current_state ≢ resolved
    → Edge s.current_state (apply_active_condition s rule now active from_tick).0.current_state
unfolding apply_active_condition
apply-Edge s rule now active from_tick h = grind (arith, edges)

process_heartbeat-Fits :
    (s : RuntimeState) (rule : RuleConfig) (id : Text) (now : Time)
    → IsValid s
    → let r = process_heartbeat s rule id now in Fits id s.current_state r.0.current_state r.1
unfolding process_heartbeat recover reset_resolved_state
process_heartbeat-Fits s rule id now v = ground arith

process_heartbeat-Edge :
    (s : RuntimeState) (rule : RuleConfig) (id : Text) (now : Time)
    → IsValid s
    → Edge s.current_state (process_heartbeat s rule id now).0.current_state
unfolding process_heartbeat recover reset_resolved_state
process_heartbeat-Edge s rule id now v = grind (arith, edges)

pub Reports-of :
    {id : Text} {a b : AlertState} {d : Decision} → Edge a b → Fits id a b d → Reports id a b d
Reports-of e f = record {
  edge = e;
  changed = f.0;
  notified = f.1;
  stored = f.2;
  state = f.3;
  named = f.4;
}

-- The state of an alert, before and after an event of any kind of rule.
pub process_state-Reports :
    (kind : AlertType) (s : RuntimeState) (rule : RuleConfig) (event : Event) (id : Text)
    (now : Time)
    → s.alert_id ≡ id
    → IsValid s
    → let r = process_state kind s rule event id now in
      Reports id s.current_state r.0.current_state r.1
unfolding process_state process_total process_window push_window
process_state-Reports count_total s rule event id now e v = rw (← e) (
    Reports-of (apply-Edge _ rule now _ false v.not_resolved)
      (apply-Fits _ rule now _ false v.not_resolved))
process_state-Reports count_window s rule event id now e v = rw (← e) (
    Reports-of (apply-Edge _ rule now _ false v.not_resolved)
      (apply-Fits _ rule now _ false v.not_resolved))
process_state-Reports missing_heartbeat s rule event id now e v =
    Reports-of (process_heartbeat-Edge s rule id now v) (process_heartbeat-Fits s rule id now v)
process_state-Reports (other_type t) s rule event id now e v = Reports-of stay (ground arith)

-- The state of an alert; one that the engine does not hold is idle.
unfoldable pub state_of : Text → States → AlertState
state_of id states = elim (lookup id states) [ none ↦ unset | some s ↦ s.current_state ]

pub state_of-insert :
    (id : Text) (s : RuntimeState) (states : States)
    → state_of id (insert id s states) ≡ s.current_state
unfolding state_of
state_of-insert id s states = rw (lookup-insert_self id s states, state_of)
