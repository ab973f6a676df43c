-- ===== src/Tests/ManagerRuns.antt =====
-- The manager's theorems, and those on off windows, at concrete inputs.
use malert.Domain.{Notification, Decision}
use malert.Tests.Worlds.{plain_unicode, sample_world, stored_card, routed_rule, sample_app}
use malert.Tests.Data.{host_tags, alert_id, firing_states}
use malert.Base.{
  lookup, codes, ◌≤◌, ◌<◌, ◌≡◌, refl, ◌≢◌, true, false, none, some, [], ◌∷◌, arith, insert, delete,
  text_eq, trim_space, ascii_lower, to_lower, is_space, is_empty, Assoc, Text,
}
use malert.Manager.Routes.{
  route_notifications, normalized_notify_route, with_external_ref, with_reply, resolved_for_route,
  prepare_notification, should_drop_tracker,
}
use malert.Manager.Resolved.{apply_decision-resolved}
use malert.Manager.Quiet.{Quiet, dispatch_notification-Quiet}
use malert.Manager.Delivery.{
  dispatch_notification, keep_opening_message, capture_delivery_effects, should_skip_by_off,
  send_all, notify_routes, apply_delivery_results, enqueue_notification_jobs,
}
use malert.Manager.Cards.{
  moved_card, persist_decision_card, opened_card, snapshot_count, seed_external_refs, written_card,
  text_or_empty, persist_external_refs,
}
use malert.Manager.Writes.{Stored, persist_decision_card-Stored}
use malert.Manager.Decisions.{
  apply_decision, notify_on_pending, decision_notification, refresh_for, write_change,
  notify_decision, forget_resolved,
}
use malert.Manager.Closing.{resolve_by_ttl}
use malert.Manager.Notice.{
  build_resolved_card_notification, apply_card_state_transition, started_at, alert_duration,
  last_segment, ends_with_slash, short_alert_id, build_notification, notification_message,
}
use malert.Manager.Expiry.{Closed, resolve_by_ttl_twice}
use malert.Manager.Sendable.{AllSendable, route_notifications-Sendable}
use malert.Config.Rule.{CompiledNotifyOffWindow, RuleNotifyOff, resolve_timeout}
use malert.Config.OffWindow.{
  previous_weekday, notify_off_contains_minute, parse_notify_off_days, compile_notify_off_window,
  covers, compile_notify_off_window-covers, weekday_of, parse_digits, atoi, split_colon,
  clock_minute, parse_notify_off_clock, parse_days, notify_off_active_at,
}
use malert.Engine.Active.{resolves}
use malert.State.Memory.{get_card, write_card, next_revision, update_card, delete_card, MemoryCard}
use malert.Engine.Access.{
  remove_alert_state, get_state_snapshot, get_alert_identity, get_channel_message_id,
  get_channel_external_ref, update_state, set_last_notified, set_channel_message_id,
  set_channel_external_ref,
}
use malert.Manager.App.{done}
use malert.Manager.Refs.{persist_external_refs-stored}

abbrev resolve_decision : Decision
resolve_decision = resolves alert_id false (codes "silence_timeout")

abbrev pub resolved_note : Notification
resolved_note = build_resolved_card_notification stored_card (codes "alert resolved") 95000000000

route_notifications-Sendable_example :
    AllSendable true resolved_note (
      route_notifications plain_unicode firing_states 0 resolved_note true routed_rule.notify.route)
route_notifications-Sendable_example =
    route_notifications-Sendable plain_unicode firing_states 0 resolved_note true
      routed_rule.notify.route

dispatch_notification-Quiet_example :
    Quiet sample_app
      (dispatch_notification routed_rule resolved_note routed_rule.notify.route sample_app).0
unfolding build_resolved_card_notification
dispatch_notification-Quiet_example =
    dispatch_notification-Quiet routed_rule resolved_note routed_rule.notify.route sample_app refl

resolve_by_ttl_twice_example :
    let first = (resolve_by_ttl alert_id [] sample_app).0 in
    Closed 90000000000 alert_id first.backend
    × ((resolve_by_ttl alert_id (codes "expired") first).0.outbox ≡ first.outbox)
resolve_by_ttl_twice_example =
    resolve_by_ttl_twice sample_world 90000000000 alert_id [] (codes "expired") sample_app

apply_decision-resolved_example :
    lookup alert_id
      (apply_decision routed_rule alert_id resolve_decision 95000000000 none sample_app).0.engine
    ≡ none
unfolding persist_decision_card opened_card moved_card apply_card_state_transition snapshot_count
    get_state_snapshot written_card get_card update_card write_card next_revision lookup insert
    text_eq apply_decision get_alert_identity refresh_for resolve_timeout write_change
    seed_external_refs notify_decision decision_notification notify_on_pending build_notification
    notification_message alert_duration started_at short_alert_id last_segment ends_with_slash
    dispatch_notification should_skip_by_off notify_off_active_at enqueue_notification_jobs
    notify_routes apply_delivery_results send_all route_notifications normalized_notify_route
    prepare_notification should_drop_tracker with_external_ref resolved_for_route with_reply
    get_channel_external_ref get_channel_message_id capture_delivery_effects keep_opening_message
    set_channel_external_ref set_channel_message_id set_last_notified update_state forget_resolved
    remove_alert_state delete_card delete trim_space is_empty is_space
apply_decision-resolved_example =
    apply_decision-resolved routed_rule alert_id resolve_decision 95000000000 none none sample_app
      (apply_decision routed_rule alert_id resolve_decision 95000000000 none sample_app).0 refl refl
      refl

persist_decision_card-Stored_example :
    Stored routed_rule alert_id
      (record { var = codes "load"; tags = host_tags; metric_value = [] })
      []
      resolve_decision
      95000000000
      sample_app
      (record {
        card = moved_card stored_card [] 0 resolve_decision 95000000000;
        allow_notify = true;
        seed_ext_refs = true;
      })
unfolding persist_decision_card opened_card moved_card apply_card_state_transition snapshot_count
    get_state_snapshot written_card get_card update_card write_card next_revision lookup insert
    text_eq
persist_decision_card-Stored_example =
    persist_decision_card-Stored routed_rule alert_id
      (record { var = codes "load"; tags = host_tags; metric_value = [] }) [] resolve_decision
      95000000000 sample_app
      (persist_decision_card routed_rule alert_id
        (record { var = codes "load"; tags = host_tags; metric_value = [] }) [] resolve_decision
        95000000000 sample_app).0
      (record {
        card = moved_card stored_card [] 0 resolve_decision 95000000000;
        allow_notify = true;
        seed_ext_refs = true;
      })
      refl refl

abbrev night : RuleNotifyOff
night = record {
  days = codes "fri" ∷ [];
  from = codes "22:00";
  to = codes "06:00";
  compiled = none;
}

abbrev night_window : CompiledNotifyOffWindow
night_window = record { weekdays = 5 ∷ []; from_minute = 1320; to_minute = 360 }

compile_notify_off_window-covers_example :
    (1320 < 1440)
    × (360 ≤ 1440)
    × (night_window.from_minute ≢ night_window.to_minute)
    × (parse_notify_off_days plain_unicode night.days ≡ some (5 ∷ []))
    × (notify_off_contains_minute (5 ∷ []) 6 (previous_weekday 6) 60 1320 360
        ≡ covers (5 ∷ []) 6 60 1320 360)
unfolding compile_notify_off_window parse_notify_off_days parse_days parse_notify_off_clock
    weekday_of split_colon atoi parse_digits clock_minute trim_space is_empty is_space to_lower
    ascii_lower text_eq
compile_notify_off_window-covers_example =
    compile_notify_off_window-covers plain_unicode night night_window 6 60 refl (omega arith)

abbrev new_refs : Assoc Text
new_refs = (codes "ops", codes "X-1") ∷ (codes "chat", codes "X-2") ∷ []

persist_external_refs-stored_example :
    let r = persist_external_refs alert_id new_refs sample_app in
    (r.1 ≡ done tt)
    × ((after : MemoryCard) × ((lookup alert_id r.0.backend.cards ≡ some after)
          × ((record (after.card) { external_refs = stored_card.external_refs } ≡ stored_card)
              × ((k ref : Text)
                  → lookup k new_refs ≡ some ref
                  → text_or_empty (lookup k after.card.external_refs) ≡ ref))))
unfolding lookup text_eq
persist_external_refs-stored_example =
    persist_external_refs-stored sample_world 90000000000 alert_id new_refs sample_app
      (record { card = stored_card; revision = 4 }) refl ((refl, tt), (tt, tt))
