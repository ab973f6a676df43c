-- ===== src/Tests/EngineRuns.antt =====
-- The engine's theorems at concrete inputs.
use malert.Domain.{unset, firing}
use malert.Tests.Data.{
  total_rule, window_rule, heartbeat_rule, no_floats, alert_id, firing_state, firing_states,
  load_event, idle_state,
}
use malert.Base.{
  seconds, sub_time, elapsed, length, lookup, mul_i64, leb_i64, codes, text_eq, ◌+◌, ◌≤◌, ◌<◌, ◌≡◌,
  refl, ◌⊎◌, true, false, some, List, [], ◌∷◌, arith, is_space, drop_spaces, trim_space, is_empty,
  none, ltb_i64, ◌↔◌, inr,
}
use malert.Engine.Limit.{compact-active, NoIdle, compact-limit}
use malert.Engine.Firing.{
  firing_of, firing_ids-firing_of, missing-firing_ids, raises, has_window, window_passed, recovers,
  fires_next, ids_of,
}
use malert.Engine.Process.{process_total, push_window}
use malert.Engine.Counting.{Stream, feed_total, feed_total-verdict, process_total_overflow}
use malert.Engine.Active.{resolves}
use malert.Engine.Compact.{compact_states}
use malert.Engine.Window.{sum_counts, recent, InOrder, new_point, push_window-recent}
use malert.Engine.State.{new_engine, States}
use malert.Engine.Run.{Call, event_call, tick_call, run}
use malert.Engine.Tick.{silence_timeout, tick_count, tick_rule}
use malert.Engine.Timing.{tick_count-silence}
use malert.Engine.Reachable.{IsEngine, run-IsEngine}
use malert.Tests.Worlds.{plain_unicode, telegram_route}
use malert.Config.Rule.{RuleValuePredicate, RuleConfig}
use malert.Config.Predicate.{validate_value_predicate}
use malert.Domain.Event.{validate_value, validate_shape, validate}
use malert.Engine.Matching.{is_verdict, match_value-validated}
use malert.Engine.Matcher.{contains_string, is_supported_op, match_value}
use malert.Config.ValidateRule.{validate_match_value, validate_rule}
use malert.Config.ValidRule.{IsWellFormed, validate_rule-IsWellFormed}

firing_states-IsEngine : IsEngine firing_states
firing_states-IsEngine = record { distinct = (tt, tt); entries = ((refl, ground arith), tt) }

-- Three events in three seconds raise the alert of a count_total rule.
three_events : Stream
three_events =
    (load_event, 21000000000) ∷ (load_event, 22000000000) ∷ (load_event, 23000000000) ∷ []

history : List Call
history =
    event_call total_rule load_event alert_id 21000000000 ∷ tick_call total_rule 22000000000 ∷ []

run-IsEngine_example : IsEngine (run no_floats new_engine history)
run-IsEngine_example = run-IsEngine no_floats history

push_window-recent_example :
    let t = push_window idle_state window_rule load_event 21000000000 in
    (t.count_window ≡ recent 16000000000 (new_point 21000000000 1 ∷ []))
    × (t.count_window_sum ≡ sum_counts t.count_window)
    × InOrder t 21000000000
push_window-recent_example =
    push_window-recent idle_state window_rule load_event 21000000000 (omega arith) (omega arith)
      refl (record { ordered = tt; until = tt })

feed_total-verdict_example :
    ((feed_total total_rule idle_state three_events).count_total ≡ 3)
    × ((feed_total total_rule idle_state three_events).current_state ≡ firing)
unfolding three_events
feed_total-verdict_example =
    feed_total-verdict total_rule idle_state three_events refl (omega arith) (omega arith) refl

tick_count-silence_example :
    let p = tick_count total_rule 95000000000 firing_state in
    ((90000000000 ≤ 95000000000)
      × (p.state.current_state ≡ unset)
      × (p.state.count_total ≡ 0)
      × (p.state.count_window ≡ [])
      × (p.decisions ≡ resolves alert_id false silence_timeout ∷ []))
    ⊎ ((95000000000 < 90000000000) × (p.state ≡ firing_state) × (p.decisions ≡ []))
tick_count-silence_example =
    tick_count-silence firing_state total_rule 95000000000 refl (omega arith)
      (record { reached = omega arith; near = omega arith })

firing_ids-firing_of_example :
    (tick_rule total_rule 30000000000 firing_states).firing_ids
    ≡ firing_of (codes "cpu") (tick_rule total_rule 30000000000 firing_states).states
firing_ids-firing_of_example = firing_ids-firing_of total_rule 30000000000 firing_states refl

-- A rule with a hysteresis window of ten seconds, and two alerts: the heartbeat of the first is
-- missing, and that of the second is back.
abbrev windowed_rule : RuleConfig
windowed_rule = record heartbeat_rule {
  resolve = record heartbeat_rule.resolve { hysteresis_sec = 10 };
}

abbrev mixed_states : States
mixed_states =
    (alert_id, firing_state)
    ∷ (codes "b", record firing_state { alert_id = codes "b"; last_seen = 55000000000 })
    ∷ []

missing-firing_ids_example :
    let r = tick_rule windowed_rule 60000000000 mixed_states in
    (r.firing_ids ≡ codes "b" ∷ []) × (firing_of (codes "cpu") r.states ≡ alert_id ∷ codes "b" ∷ [])
unfolding ids_of recovers fires_next raises has_window window_passed elapsed sub_time seconds
    mul_i64 leb_i64 text_eq
missing-firing_ids_example = missing-firing_ids windowed_rule 60000000000 mixed_states refl

process_total_overflow_example :
    ((process_total
        (record idle_state { count_total = 2 })
        total_rule
        (record load_event { agg_cnt = 9223372036854775807 })
        21000000000).0.current_state
      ≡ unset)
    × ((process_total
          (record idle_state { count_total = 2 })
          total_rule
          (record load_event { agg_cnt = 9223372036854775807 })
          21000000000).1.should_notify
        ≡ false)
process_total_overflow_example =
    process_total_overflow total_rule (record idle_state { count_total = 2 })
      (record load_event { agg_cnt = 9223372036854775807 }) 21000000000 refl (omega arith)
      (omega arith) (omega arith) (omega arith)

compact-active_example :
    lookup alert_id (compact_states 90000000000 1000000000 1 firing_states).states
    ≡ some firing_state
unfolding lookup text_eq
compact-active_example =
    compact-active 90000000000 1000000000 1 firing_states alert_id firing_state
      firing_states-IsEngine refl refl

compact-limit_example :
    let r = compact_states 90000000000 1000000000 1 firing_states in
    (length r.states + r.removed ≡ 1) × ((length r.states ≤ 1) ⊎ NoIdle r.states)
compact-limit_example =
    compact-limit 90000000000 1000000000 1 firing_states firing_states-IsEngine (omega arith)
      (omega arith)

abbrev is_true : RuleValuePredicate
is_true = record {
  kind = codes "b";
  op = codes "==";
  n = none;
  s = none;
  b = some true;
  in_values = [];
  compiled_match_re = none;
  compiled_wildcard_re = none;
}

match_value-validated_example :
    is_verdict (match_value plain_unicode (λ t. none) (λ t. none) is_true load_event.value) ≡ true
unfolding validate_value_predicate is_supported_op contains_string validate validate_shape
    validate_value trim_space drop_spaces is_empty is_space text_eq leb_i64 ltb_i64
match_value-validated_example =
    match_value-validated plain_unicode (λ t. none) (λ t. none) is_true is_true load_event refl refl

abbrev pub valid_rule : RuleConfig
valid_rule = record total_rule { notify = record total_rule.notify { route = telegram_route ∷ [] } }

validate_rule-IsWellFormed_example :
    (validate_rule (λ text. none) (λ text. none) plain_unicode valid_rule ≡ inr valid_rule) ↔ (
      IsWellFormed plain_unicode valid_rule
      × (validate_match_value (λ text. none) (λ text. none) valid_rule ≡ some valid_rule))
validate_rule-IsWellFormed_example =
    validate_rule-IsWellFormed (λ text. none) (λ text. none) plain_unicode valid_rule valid_rule

valid_rule_passes :
    validate_rule (λ text. none) (λ text. none) plain_unicode valid_rule ≡ inr valid_rule
unfolding validate_rule is_empty trim_space is_space text_eq ltb_i64
valid_rule_passes = refl
