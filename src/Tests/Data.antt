-- ===== src/Tests/Data.antt =====
-- A rule for each alert type, an event, and states of their alerts.
use malert.Domain.{unset, pending, firing}
use malert.Base.{Assoc, Text, codes, true, false, none, some, [], ◌∷◌}
use malert.Config.Rule.{count_total, count_window, missing_heartbeat, RulePending, RuleConfig}
use malert.Domain.Event.{Float64, Event}
use malert.Engine.State.{RuntimeState, States}

abbrev pub sample_pending : RulePending
sample_pending = record { enabled = false; delay_sec = 0 }

abbrev pub total_rule : RuleConfig
total_rule = record {
  name = codes "cpu";
  alert_type = count_total;
  match = record { kinds = codes "event" ∷ []; vars = codes "load" ∷ []; tags = []; value = none };
  key = record { from_tags = codes "host" ∷ [] };
  raise = record { n = 3; window_sec = 0; missing_sec = 0 };
  resolve = record { silence_sec = 60; hysteresis_sec = 10 };
  pending = sample_pending;
  notify = record { repeat = none; repeat_every_sec = 0; on_pending = none; route = []; off = [] };
  out_of_order = record { max_late_ms = 0; max_future_skew_ms = 0 };
}

abbrev pub window_rule : RuleConfig
window_rule = record total_rule {
  alert_type = count_window;
  raise = record { n = 3; window_sec = 5; missing_sec = 0 };
}

abbrev pub heartbeat_rule : RuleConfig
heartbeat_rule = record total_rule {
  alert_type = missing_heartbeat;
  raise = record { n = 0; window_sec = 0; missing_sec = 30 };
}

-- A rule with a pending phase of five seconds.
abbrev pub pending_rule : RuleConfig
pending_rule = record total_rule { pending = record { enabled = true; delay_sec = 5 } }

abbrev pub host_tags : Assoc Text
host_tags = (codes "host", codes "a") ∷ []

abbrev pub load_event : Event
load_event = record {
  dt = 1700000000000;
  kind = codes "event";
  tags = host_tags;
  var = codes "load";
  value = record { kind = codes "b"; n = none; s = none; b = some true };
  agg_cnt = 1;
  win = 0;
}

-- No number occurs in the events above.
abbrev pub no_floats : Float64 → Text
no_floats x = []

abbrev pub alert_id : Text
alert_id = codes "rule/cpu/load/00"

abbrev pub idle_state : RuntimeState
idle_state = record {
  rule_name = codes "cpu";
  alert_id = alert_id;
  var = codes "load";
  tags = host_tags;
  metric_value = codes "true";
  raised_at = 0;
  initialized = true;
  last_seen = 20000000000;
  pending_since = none;
  hysteresis_since = none;
  current_state = unset;
  count_total = 0;
  count_window = [];
  count_window_sum = 0;
  active_count = 0;
  last_notified = [];
  channel_refs = [];
  external_refs = [];
}

abbrev pub firing_state : RuntimeState
firing_state = record idle_state {
  current_state = firing;
  raised_at = 20000000000;
  count_total = 3;
}

abbrev pub pending_state : RuntimeState
pending_state = record idle_state {
  current_state = pending;
  raised_at = 20000000000;
  pending_since = some 20000000000;
}

abbrev pub firing_states : States
firing_states = (alert_id, firing_state) ∷ []
