-- ===== src/Domain.antt =====
-- internal/domain: the alert card, the notification, the decision and the event that pass between
-- the engine, the state store and the manager. A pointer that may be nil is an `Option`.
pub mod Event
use malert.Base.{ℕ, Bool, false, true, Option, List, [], Text, Time, Duration, Int64, Assoc}

-- `AlertState`, with its zero value "". The program makes no other string of this type.
pub data AlertState : Type 0 where
  unset pending firing resolved : AlertState

pub AlertState-discrete : Discrete AlertState
AlertState-discrete = hlevel

-- `a == b` on alert states.
abbrev pub state_eq : AlertState → AlertState → Bool
state_eq unset unset = true
state_eq pending pending = true
state_eq firing firing = true
state_eq resolved resolved = true
state_eq _ _ = false

pub record AlertCard : Type 0 where
  pub alert_id : Text
  pub rule_name : Text
  pub var : Text
  pub tags : Assoc Text
  pub metric_value : Text
  pub event_count : Int64
  pub external_refs : Assoc Text
  pub state : AlertState
  pub raised_at : Time
  pub pending_since : Option Time
  pub last_seen_at : Time
  pub closed_at : Option Time
  pub resolve_cause : Text

pub record Notification : Type 0 where
  pub channel : Text
  pub route_key : Text
  pub route_mode : Text
  pub alert_id : Text
  pub short_id : Text
  pub rule_name : Text
  pub state : AlertState
  pub message : Text
  pub reply_to_message_id : Option ℕ
  pub external_ref : Text
  pub tags : Assoc Text
  pub var : Text
  pub metric_value : Text
  pub started_at : Option Time
  pub duration : Duration
  pub timestamp : Time

pub record Decision : Type 0 where
  pub matched : Bool
  pub alert_id : Text
  pub state : AlertState
  pub state_changed : Bool
  pub should_store : Bool
  pub should_notify : Bool
  pub resolve_immediate : Bool
  pub resolve_cause : Text

-- domain.Decision{}.
abbrev pub no_decision : Decision
no_decision = record {
  matched = false;
  alert_id = [];
  state = unset;
  state_changed = false;
  should_store = false;
  should_notify = false;
  resolve_immediate = false;
  resolve_cause = [];
}
