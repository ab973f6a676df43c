-- ===== src/Manager/Closing.antt =====
-- internal/app/manager.go: how an alert is closed when its tick has expired, and when its rule is
-- removed from the configuration.
use malert.Domain.{resolved, AlertCard}
use malert.Base.{Time, lookup, Text, codes, ℕ, not, none, some, List, [], ◌∷◌, if◌then◌else◌}
use malert.Manager.Routes.{or_else}
use malert.Manager.Delivery.{dispatch_notification}
use malert.Manager.App.{
  World, App, store_failed, is_not_found, is_conflict, Run, pure, fail, and_then, ignoring,
  ask_store, or_fail, change_engine, read_now,
}
use malert.Manager.Cards.{seed_external_refs}
use malert.Manager.Notice.{
  resolve_card_raised_at, build_resolved_card_notification, notification_message,
}
use malert.Config.Rule.{RuleConfig}
use malert.State.Memory.{ok, err}
use malert.Engine.Access.{remove_alert_state}
use malert.Engine.State.{is_active}

-- The card that `ResolveByTTL` writes.
unfoldable pub expired_card : AlertCard → Text → Time → AlertCard
unfolding resolve_card_raised_at
expired_card card reason closed_at =
    record (resolve_card_raised_at (record card { state = resolved }) closed_at) {
      closed_at = some closed_at;
      resolve_cause = or_else reason (codes "ttl_expired");
    }

module _ {w : World} where
  -- `_ = m.store.DeleteCard(ctx, alertID)` and `m.engine.RemoveAlertState(alertID)`.
  unfoldable pub drop_alert : Text → Run w (Unit {0})
  unfolding remove_alert_state
  drop_alert id =
      and_then (ask_store (λ b. w.store.delete_card b id))
        (λ outcome. change_engine (λ s. remove_alert_state s id))

  -- The end of `ResolveByTTL`, behind the update of the card.
  unfoldable pub close_expired : Text → AlertCard → Time → Run w (Unit {0})
  unfolding seed_external_refs build_resolved_card_notification notification_message
      dispatch_notification drop_alert
  close_expired id card closed_at app = elim (lookup card.rule_name app.settings.rules) [
    | none ↦ pure tt app
    | some rule ↦
        let message = notification_message resolved card.resolve_cause in
        let seeded : App w = record app {
          engine = seed_external_refs id card.external_refs app.engine;
        } in
        and_then
          (ignoring (
            dispatch_notification rule (build_resolved_card_notification card message closed_at)
              rule.notify.route))
          (λ x. drop_alert id) seeded
  ]

  -- `ResolveByTTL` behind the read of the card.
  unfoldable pub resolve_card : Text → Text → AlertCard × ℕ → Run w (Unit {0})
  unfolding expired_card close_expired
  resolve_card id reason found =
      if not (is_active found.0.state)
      then pure tt
      else and_then read_now (λ closed_at.
        let card = expired_card found.0 reason closed_at in
        and_then (ask_store (λ b. w.store.update_card b id found.1 card)) (λ updated. elim updated [
          | ok revision ↦ close_expired id card closed_at
          | err e ↦ if is_conflict e then pure tt else fail (store_failed e)
        ]))

  -- `ResolveByTTL`.
  unfoldable pub resolve_by_ttl : Text → Text → Run w (Unit {0})
  unfolding resolve_card
  resolve_by_ttl id reason =
      and_then (and_then (ask_store (λ b. w.store.has_tick b id)) or_fail) (λ exists.
        if exists
        then pure tt
        else and_then (ask_store (λ b. w.store.get_card b id)) (λ found. elim found [
          | err e ↦ if is_not_found e then pure tt else fail (store_failed e)
          | ok card ↦ resolve_card id reason card
        ]))

  -- The body of the loop of `cleanupRemovedRule` for a card that was read.
  unfoldable pub close_removed : RuleConfig → Text → AlertCard → Time → Run w (Unit {0})
  unfolding seed_external_refs build_resolved_card_notification resolve_card_raised_at
      dispatch_notification
  close_removed rule id card now app =
      let raised = resolve_card_raised_at card now in
      let message = codes "resolved due rule removal" in
      if is_active card.state
      then ignoring
          (dispatch_notification rule (build_resolved_card_notification raised message now)
            rule.notify.route)
          (record app { engine = seed_external_refs id card.external_refs app.engine })
      else pure tt app

  -- The loop of `cleanupRemovedRule`.
  unfoldable pub cleanup_ids : RuleConfig → Time → List Text → Run w (Unit {0})
  unfolding close_removed drop_alert
  cleanup_ids rule now [] = pure tt
  cleanup_ids rule now (id ∷ ids) =
      let rest : Run w (Unit {0}) = cleanup_ids rule now ids in
      and_then (ask_store (λ b. w.store.get_card b id)) (λ found. elim found [
        | err e ↦ rest
        | ok card ↦
            and_then (close_removed rule id card.0 now) (λ x. and_then (drop_alert id) (λ y. rest))
      ])

  -- `cleanupRemovedRule`.
  unfoldable pub cleanup_removed_rule : RuleConfig → Run w (Unit {0})
  unfolding cleanup_ids
  cleanup_removed_rule rule =
      and_then (and_then (ask_store (λ b. w.store.list_alert_ids_by_rule b rule.name)) or_fail)
        (λ ids. and_then read_now (λ now. cleanup_ids rule now ids))
