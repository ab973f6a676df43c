-- ===== src/Manager/Delivery.antt =====
-- internal/app/manager.go: notifications are sent by the routes of a rule, at once or by way of the
-- queue, and leave their references in the engine and in the card.
use malert.Domain.{resolved, state_eq, Notification}
use malert.Queue.Job.{Job, build_job_id}
use malert.Base.{
  ◌==◌, is_some, Time, is_zero, Assoc, insert, ltb_i64, Text, codes, text_eq, trim_space, is_empty,
  ℕ, suc, Bool, true, false, not, ◌&&◌, none, some, List, [], ◌∷◌, if◌then◌else◌, lookup,
}
use malert.Manager.Routes.{
  NotifyRoute, mode_active_only, channel_telegram, route_notifications, normalized_notify_route,
}
use malert.Manager.App.{
  SendResult, sent, not_sent, World, App, send_failed, enqueue_failed, Outcome, done, failed, Run,
  pure, fail, and_then, queue_permanent, after, read_now,
}
use malert.Manager.Cards.{persist_external_refs}
use malert.Config.Rule.{RuleNotifyRoute, RuleConfig}
use malert.Config.OffWindow.{notify_off_active_at}
use malert.Engine.Access.{
  get_channel_message_id, set_last_notified, set_channel_message_id, set_channel_external_ref,
}
use malert.Engine.State.{States}

abbrev pub repeat_key_global : Text
repeat_key_global = codes "global"

-- `routeSendResult`.
pub record RouteSendResult : Type 0 where
  pub route : NotifyRoute
  pub sent_result : SendResult

-- The first reference of a Telegram message that is kept as the opening one.
unfoldable pub keep_opening_message : Notification → RouteSendResult → States → States
unfolding get_channel_message_id
keep_opening_message n entry states =
    if not (state_eq n.state resolved)
      && text_eq entry.route.channel channel_telegram
      && not (text_eq entry.route.mode mode_active_only)
      && ltb_i64 0 entry.sent_result.message_id
      && not (is_some (get_channel_message_id states n.alert_id entry.route.key))
    then (set_channel_message_id states n.alert_id entry.route.key entry.sent_result.message_id).0
    else states

-- The loop of `captureDeliveryEffects`, with the updates that it has gathered.
unfoldable pub capture_delivery_effects :
    Bool → Notification → List RouteSendResult → States → Assoc Text → States × Assoc Text
unfolding keep_opening_message
capture_delivery_effects per_channel n [] states updates = (states, updates)
capture_delivery_effects per_channel n (entry ∷ entries) states updates =
    let opened = keep_opening_message n entry states in
    let ref = trim_space entry.sent_result.external_ref in
    let key = entry.route.key in
    let referenced =
      if is_empty ref then opened else (set_channel_external_ref opened n.alert_id key ref).0 in
    let notify_key = if per_channel then key else repeat_key_global in
    capture_delivery_effects per_channel n entries
      (set_last_notified referenced n.alert_id notify_key n.timestamp).0
      (if is_empty ref then updates else insert key ref updates)

-- `shouldSkipNotificationByOff`: an error of the windows skips nothing.
unfoldable pub should_skip_by_off : World → RuleConfig → Time → Bool
should_skip_by_off w rule at =
    let (weekday, minute) = w.local_time at in
    elim (notify_off_active_at w.unicode rule.notify.off weekday minute) [
      | none ↦ false
      | some off ↦ off
    ]

module _ {w : World} where
  -- The clock, which is read for a notification that has no time.
  abbrev pub stamp : Notification → Run w Time
  stamp n = if is_zero n.timestamp then read_now else pure n.timestamp

  -- The callback of `notifyRoutes` over the routes that are sent to; the first error ends it.
  unfoldable pub send_all : List (NotifyRoute × Notification) → Run w (List RouteSendResult)
  send_all [] app = pure [] app
  send_all ((route, n) ∷ rest) app =
      let (outbox, outcome) = w.send app.outbox route.channel route.template n in
      let next : App w = record app { outbox = outbox } in
      elim outcome [
        | not_sent permanent ↦ fail (send_failed permanent) next
        | sent result ↦
            and_then (send_all rest)
              (λ results. pure (record { route = route; sent_result = result } ∷ results)) next
      ]

  -- `notifyRoutes`.
  unfoldable pub notify_routes :
      Notification → List RuleNotifyRoute → Bool → Run w (List RouteSendResult)
  unfolding send_all
  notify_routes n routes drop app =
      if not app.settings.has_dispatcher
      then pure [] app
      else and_then (stamp n)
          (λ clock next.
            send_all (route_notifications w.unicode next.engine clock n drop routes) next)
          app

  -- `applyDeliveryResults`.
  unfoldable pub apply_delivery_results : Notification → List RouteSendResult → Run w (Unit {0})
  unfolding capture_delivery_effects
  apply_delivery_results n results app =
      let (states, updates) =
        capture_delivery_effects app.settings.repeat_per_channel n results app.engine [] in
      let next : App w = record app { engine = states } in
      if state_eq n.state resolved
      then pure tt next
      else persist_external_refs n.alert_id updates next

  -- The callback of `enqueueNotificationJobs`: how many jobs were taken, and whether one was not.
  unfoldable pub enqueue_all : List (NotifyRoute × Notification) → Run w (ℕ × Bool)
  unfolding build_job_id
  enqueue_all [] app = pure (0, false) app
  enqueue_all ((route, n) ∷ rest) app =
      and_then read_now
        (λ created next.
          let job : Job = record {
            id = build_job_id w.digest route.channel route.template n;
            route_key = route.key;
            route_mode = route.mode;
            channel = route.channel;
            template = route.template;
            notification = n;
            created_at = created;
          } in
          let (outbox, taken) = w.enqueue next.outbox job in
          and_then (enqueue_all rest)
            (λ counts. pure (if taken then (suc counts.0, counts.1) else (counts.0, true)))
            (record next { outbox = outbox }))
        app

  -- `enqueueNotificationJobs`.
  unfoldable pub enqueue_notification_jobs : Notification → List RuleNotifyRoute → Run w (Unit {0})
  unfolding enqueue_all
  enqueue_notification_jobs n routes app =
      and_then (stamp n)
        (λ clock next.
          and_then (enqueue_all (route_notifications w.unicode next.engine clock n false routes))
            (λ counts. if (counts.0 == 0) && counts.1 then fail enqueue_failed else pure tt) next)
        app

  -- `dispatchNotification` with the routes that it is given.
  unfoldable pub dispatch_notification :
      RuleConfig → Notification → List RuleNotifyRoute → Run w (Unit {0})
  unfolding should_skip_by_off enqueue_notification_jobs notify_routes apply_delivery_results
  dispatch_notification rule n routes app =
      and_then (stamp n)
        (λ at next.
          if should_skip_by_off w rule at
          then pure tt next
          else if next.settings.has_producer
          then enqueue_notification_jobs n routes next
          else and_then (notify_routes n routes false) (apply_delivery_results n) next)
        app

  -- The error of a queued delivery: one that a retry cannot mend is marked as permanent.
  abbrev pub mark_permanent {ℓ} : {A : Type ℓ} → App w × Outcome A → App w × Outcome A
  mark_permanent (app, done x) = (app, done x)
  mark_permanent (app, failed (send_failed true)) = (app, failed queue_permanent)
  mark_permanent (app, failed e) = (app, failed e)

  -- The part of `ProcessQueuedNotification` behind the test of the off windows.
  unfoldable pub deliver_queued : NotifyRoute → Notification → Run w (Unit {0})
  unfolding notify_routes apply_delivery_results
  deliver_queued route n app =
      let again : RuleNotifyRoute = record {
        name = route.key;
        channel = route.channel;
        template = route.template;
        mode = route.mode;
      } in
      after (mark_permanent (notify_routes n (again ∷ []) true app)) (apply_delivery_results n)

  -- `ProcessQueuedNotification`.
  unfoldable pub process_queued_notification : Job → Run w (Unit {0})
  unfolding deliver_queued should_skip_by_off normalized_notify_route
  process_queued_notification job app =
      let raw : RuleNotifyRoute = record {
        name = job.route_key;
        channel = job.channel;
        template = job.template;
        mode = job.route_mode;
      } in
      elim (normalized_notify_route w.unicode raw true) [
        | none ↦ pure tt app
        | some route ↦ elim (lookup job.notification.rule_name app.settings.rules) [
          | none ↦ deliver_queued route job.notification app
          | some rule ↦
              and_then read_now
                (λ at next.
                  if should_skip_by_off w rule at
                  then pure tt next
                  else deliver_queued route job.notification next)
                app
        ]
      ]
