-- ===== src/Tests/StoreRuns.antt =====
-- The store's theorems at concrete inputs.
use malert.Domain.{firing, AlertCard}
use malert.Tests.Data.{host_tags, alert_id, load_event, total_rule}
use malert.Base.{
  lookup, insert, has_key, Text, codes, text_eq, ◌≡◌, refl, ◌≢◌, false, none, [], ◌∷◌, arith,
  is_space, drop_spaces, trim_space, is_empty, has_prefix, to_lower,
}
use malert.State.Laws.{
  stored, update, perform, respond, settle, perform-respond, update_card-first_wins,
  has_tick-refresh_tick,
}
use malert.State.Memory.{
  MemoryStore, conflict, ok, err, refresh_tick, has_tick, get_card, write_card, next_revision,
  update_card, rule_alert_prefix,
}
use malert.Tests.Worlds.{plain_unicode}
use malert.Config.Rule.{RuleConfig}
use malert.State.Prefix.{build_alert_key-prefix}
use malert.Engine.Key.{
  sanitize_rune, sanitize, texts_are_sorted, sorted_key_tags, canonical, alert_key, build_alert_key,
}

abbrev pub sample_card : AlertCard
sample_card = record {
  alert_id = alert_id;
  rule_name = codes "cpu";
  var = codes "load";
  tags = host_tags;
  metric_value = codes "true";
  event_count = 3;
  external_refs = [];
  state = firing;
  raised_at = 20000000000;
  pending_since = none;
  last_seen_at = 20000000000;
  closed_at = none;
  resolve_cause = [];
}

abbrev one_card : MemoryStore
one_card = record {
  cards = (alert_id, record { card = sample_card; revision = 4 }) ∷ [];
  ticks = [];
}

perform-respond_example :
    let r = perform one_card alert_id (update 4 sample_card) in
    (r.1 ≡ respond (stored one_card alert_id) (update 4 sample_card))
    × (stored r.0 alert_id ≡ settle (stored one_card alert_id) sample_card r.1)
    × ((j : Text) → alert_id ≢ j → stored r.0 j ≡ stored one_card j)
    × (r.0.ticks ≡ one_card.ticks)
perform-respond_example = perform-respond one_card alert_id (update 4 sample_card)

update_card-first_wins_example :
    let after = (update_card one_card alert_id 4 sample_card).0 in
    (update_card after alert_id 4 sample_card ≡ (after, err conflict))
    × (get_card after alert_id ≡ ok (sample_card, 5))
unfolding update_card lookup text_eq write_card insert next_revision
update_card-first_wins_example =
    update_card-first_wins one_card (update_card one_card alert_id 4 sample_card).0 alert_id 4 5
      sample_card sample_card refl

has_tick-refresh_tick_example :
    let r = has_tick (refresh_tick one_card alert_id 20000000000 1000000000) alert_id 22000000000 in
    (r.1 ≡ false) × (has_key alert_id r.0.ticks ≡ r.1)
has_tick-refresh_tick_example =
    has_tick-refresh_tick one_card alert_id 20000000000 1000000000 22000000000 (omega arith)

abbrev spaced_rule : RuleConfig
spaced_rule = record total_rule { name = codes "My rule" }

build_alert_key-prefix_example :
    has_prefix (codes "rule/my_rule/load/00") (rule_alert_prefix plain_unicode (codes "My rule"))
    ≡ text_eq (sanitize (codes "My rule")) (to_lower plain_unicode (trim_space (codes "My rule")))
unfolding build_alert_key alert_key sorted_key_tags texts_are_sorted canonical sanitize
    sanitize_rune trim_space drop_spaces lookup is_empty is_space text_eq
build_alert_key-prefix_example =
    build_alert_key-prefix plain_unicode (λ text. codes "00") spaced_rule load_event
      (codes "rule/my_rule/load/00") refl
