-- ===== src/Manager/Decisions.antt =====
-- internal/app/manager.go: what becomes of a decision of the engine, and the ticks that it refreshes.
use malert.Domain.{pending, resolved, state_eq, Notification, Decision}
use malert.Base.{
  Time, Duration, zero_time, before, Assoc, lookup, insert, Text, Bool, not, ◌&&◌, Option, none,
  some, [], ◌∷◌, if◌then◌else◌,
}
use malert.Manager.Delivery.{dispatch_notification}
use malert.Manager.App.{
  World, Settings, App, Run, pure, and_then, ask_store, or_fail, change_engine,
}
use malert.Manager.Cards.{seed_external_refs, persist_decision_card}
use malert.Manager.Notice.{alert_duration, build_notification, notification_message}
use malert.Config.Rule.{RuleConfig, resolve_timeout}
use malert.Engine.Access.{AlertIdentity, remove_alert_state, get_alert_identity}

-- `tickRefresh`.
pub record TickRefresh : Type 0 where
  pub last_seen : Time
  pub ttl : Duration

-- `pendingTickRefresh`: a map that is filled, or nil.
abbrev pub Pending : Type 0
Pending = Option (Assoc TickRefresh)

-- The entry that `applyDecision` leaves in the map.
unfoldable pub gather_refresh : Assoc TickRefresh → Text → Time → Duration → Assoc TickRefresh
gather_refresh ticks id now ttl =
    let fresh : TickRefresh = record { last_seen = now; ttl = ttl } in
    elim (lookup id ticks) [
      | none ↦ insert id fresh ticks
      | some prev ↦ if before prev.last_seen now then insert id fresh ticks else ticks
    ]

-- `notifyOnPending`.
unfoldable pub notify_on_pending : Settings → RuleConfig → Bool
notify_on_pending settings rule = elim rule.notify.on_pending [
  | some b ↦ b
  | none ↦ settings.on_pending
]

-- The notification of a decision.
unfoldable pub decision_notification :
    RuleConfig → Text → AlertIdentity → Decision → Time → Time → Notification
unfolding build_notification notification_message alert_duration
decision_notification rule id identity decision now raised_at =
    let base =
      build_notification id rule.name identity.var identity.tags identity.metric_value
        decision.state (notification_message decision.state decision.resolve_cause) now raised_at in
    record base {
      duration = if state_eq decision.state resolved then alert_duration raised_at now else 0;
    }

module _ {w : World} where
  -- The branch on `decision.ShouldStore`; it returns the map.
  unfoldable pub refresh_for : RuleConfig → Text → Decision → Time → Pending → Run w Pending
  unfolding gather_refresh resolve_timeout
  refresh_for rule id decision now waiting =
      if not (decision.should_store && not (state_eq decision.state resolved))
      then pure waiting
      else elim waiting [
        | some ticks ↦ pure (some (gather_refresh ticks id now (resolve_timeout rule)))
        | none ↦
            and_then
              (and_then (ask_store (λ b. w.store.refresh_tick b id now (resolve_timeout rule)))
                or_fail)
              (λ x. pure none)
      ]

  -- The branch on `decision.StateChanged`: whether to notify, and the time of the raise.
  unfoldable pub write_change :
      RuleConfig → Text → AlertIdentity → Decision → Time → Run w (Bool × Time)
  unfolding persist_decision_card seed_external_refs
  write_change rule id identity decision now =
      if not decision.state_changed
      then pure (decision.should_notify, zero_time)
      else and_then (persist_decision_card rule id identity identity.metric_value decision now)
          (λ written app.
            let seeded : App w =
              if written.seed_ext_refs
              then record app {
                engine = seed_external_refs id written.card.external_refs app.engine;
              }
              else app in
            pure (decision.should_notify && written.allow_notify, written.card.raised_at) seeded)

  -- The branch that notifies.
  unfoldable pub notify_decision :
      RuleConfig → Text → AlertIdentity → Decision → Time → Bool × Time → Run w (Unit {0})
  unfolding decision_notification dispatch_notification notify_on_pending
  notify_decision rule id identity decision now (should_notify, raised_at) app =
      if should_notify
        && not (state_eq decision.state pending && not (notify_on_pending app.settings rule))
      then dispatch_notification rule
          (decision_notification rule id identity decision now raised_at) rule.notify.route app
      else pure tt app

  -- The last branch: the card and the state of a resolved alert go.
  unfoldable pub forget_resolved : Text → Decision → Run w (Unit {0})
  unfolding remove_alert_state
  forget_resolved id decision =
      if state_eq decision.state resolved
      then and_then (and_then (ask_store (λ b. w.store.delete_card b id)) or_fail)
          (λ x. change_engine (λ s. remove_alert_state s id))
      else pure tt

  -- `applyDecision`; it returns the map of refreshes.
  unfoldable pub apply_decision : RuleConfig → Text → Decision → Time → Pending → Run w Pending
  unfolding get_alert_identity refresh_for write_change notify_decision forget_resolved
  apply_decision rule id decision now waiting app =
      if not decision.should_store && not decision.should_notify
      then pure waiting app
      else elim (get_alert_identity app.engine id) [
        | none ↦ pure waiting app
        | some identity ↦
            and_then (refresh_for rule id decision now waiting)
              (λ ticks. and_then (write_change rule id identity decision now) (λ change.
                and_then (notify_decision rule id identity decision now change)
                  (λ x. and_then (forget_resolved id decision) (λ y. pure ticks))))
              app
      ]

  -- `flushTickRefresh`.
  unfoldable pub flush_tick_refresh : Assoc TickRefresh → Run w (Unit {0})
  flush_tick_refresh [] = pure tt
  flush_tick_refresh ((id, tick) ∷ ticks) =
      and_then
        (and_then (ask_store (λ b. w.store.refresh_tick b id tick.last_seen tick.ttl)) or_fail)
        (λ x. flush_tick_refresh ticks)
