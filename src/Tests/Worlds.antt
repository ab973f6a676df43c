-- ===== src/Tests/Worlds.antt =====
-- A store in memory, a dispatcher that always sends, and a manager that holds one firing alert.
use malert.Domain.{Notification, firing, AlertCard}
use malert.Tests.Data.{no_floats, host_tags, alert_id, firing_states, total_rule}
use malert.Base.{Time, codes, Unicode, ◌+◌, true, none, List, ◌∷◌, ascii_lower, refl, false, []}
use malert.Manager.App.{sent, World, Settings, App}
use malert.State.Interface.{memory_store}
use malert.Manager.Routes.{mode_history, channel_telegram, channel_mattermost}
use malert.Config.Rule.{RuleNotifyRoute, RuleConfig}

abbrev pub plain_unicode : Unicode
plain_unicode = record { lower = ascii_lower; fold = ascii_lower; lower_ascii = λ c h. refl }

abbrev pub sample_world : World
sample_world = record {
  store = memory_store plain_unicode 90000000000;
  Outbox = List Notification;
  Clock = Time;
  send = λ out channel template n.
      (n ∷ out, sent (record { message_id = 7; external_ref = codes "X-1" }));
  enqueue = λ out job. (out, true);
  read_clock = λ clock. (clock + 1, clock);
  unicode = plain_unicode;
  local_time = λ t. (1, 600);
  digest = λ text. codes "00";
  format_float = no_floats;
  compile_regexp = λ text. none;
  compile_wildcard = λ text. none;
}

abbrev pub stored_card : AlertCard
stored_card = record {
  alert_id = alert_id;
  rule_name = codes "cpu";
  var = codes "load";
  tags = host_tags;
  metric_value = codes "true";
  event_count = 3;
  external_refs = [];
  state = firing;
  raised_at = 20000000000;
  pending_since = none;
  last_seen_at = 20000000000;
  closed_at = none;
  resolve_cause = [];
}

abbrev pub telegram_route : RuleNotifyRoute
telegram_route = record {
  name = codes "ops";
  channel = channel_telegram;
  template = codes "plain";
  mode = mode_history;
}

abbrev pub mattermost_route : RuleNotifyRoute
mattermost_route = record telegram_route { name = codes "chat"; channel = channel_mattermost }

abbrev pub routed_rule : RuleConfig
routed_rule = record total_rule {
  notify = record {
    repeat = none;
    repeat_every_sec = 0;
    on_pending = none;
    route = telegram_route ∷ mattermost_route ∷ [];
    off = [];
  };
}

abbrev pub sample_settings : Settings
sample_settings = record {
  rules = (codes "cpu", routed_rule) ∷ [];
  sorted = routed_rule ∷ [];
  repeat = true;
  repeat_every_sec = 300;
  repeat_per_channel = true;
  on_pending = false;
  runtime_state_idle_sec = 0;
  runtime_state_max = 0;
  has_dispatcher = true;
  has_producer = false;
}

abbrev pub sample_app : App sample_world
sample_app = record {
  settings = sample_settings;
  engine = firing_states;
  backend = record {
    cards = (alert_id, record { card = stored_card; revision = 4 }) ∷ [];
    ticks = [];
  };
  outbox = [];
  clock = 95000000000;
}
