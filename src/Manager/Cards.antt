-- ===== src/Manager/Cards.antt =====
-- internal/app/manager.go: how a transition is written to the card of its alert, with a revision
-- that must not have changed in between, and the external references of a card.
use malert.Domain.{unset, state_eq, AlertCard, Decision}
use malert.Base.{
  Time, zero_time, Assoc, lookup, insert, Int64, Text, text_eq, trim_space, is_empty, ℕ, zero, suc,
  Bool, true, false, not, Option, none, some, [], ◌∷◌, if◌then◌else◌,
}
use malert.Manager.App.{
  World, store_failed, retries_exceeded, is_not_found, is_conflict, Run, pure, fail, and_then,
  ask_store,
}
use malert.Manager.Notice.{apply_card_state_transition}
use malert.Config.Rule.{RuleConfig}
use malert.State.Memory.{Result, ok, err}
use malert.Engine.Access.{AlertIdentity, get_state_snapshot, set_channel_external_ref}
use malert.Engine.State.{States, metric_value}

-- `cardWriteResult`.
pub record CardWrite : Type 0 where
  pub card : AlertCard
  pub allow_notify : Bool
  pub seed_ext_refs : Bool

-- domain.AlertCard{}.
abbrev pub empty_card : AlertCard
empty_card = record {
  alert_id = [];
  rule_name = [];
  var = [];
  tags = [];
  metric_value = [];
  event_count = 0;
  external_refs = [];
  state = unset;
  raised_at = zero_time;
  pending_since = none;
  last_seen_at = zero_time;
  closed_at = none;
  resolve_cause = [];
}

-- The card that `persistDecisionCard` creates.
unfoldable pub opened_card :
    RuleConfig → Text → AlertIdentity → Text → Int64 → Decision → Time → AlertCard
unfolding apply_card_state_transition
opened_card rule id identity metric_value event_count decision now =
    let card : AlertCard = record {
      alert_id = id;
      rule_name = rule.name;
      var = identity.var;
      tags = identity.tags;
      metric_value = metric_value;
      event_count = event_count;
      external_refs = [];
      state = decision.state;
      raised_at = now;
      pending_since = none;
      last_seen_at = now;
      closed_at = none;
      resolve_cause = [];
    } in
    apply_card_state_transition card decision.state decision.resolve_cause now

-- The card that it writes over one that is there.
unfoldable pub moved_card : AlertCard → Text → Int64 → Decision → Time → AlertCard
unfolding apply_card_state_transition
moved_card card metric_value event_count decision now =
    let moved : AlertCard = record card {
      last_seen_at = now;
      state = decision.state;
      metric_value = metric_value;
      event_count = event_count;
    } in
    apply_card_state_transition moved decision.state decision.resolve_cause now

-- `if runtimeState, exists := m.engine.GetStateSnapshot(alertID); exists`.
unfoldable pub snapshot_count : States → Text → Int64
unfolding get_state_snapshot
snapshot_count states id = elim (get_state_snapshot states id) [
  | none ↦ 0
  | some s ↦ s.active_count
]

-- `seedExternalRefs`.
unfoldable pub seed_external_refs : Text → Assoc Text → States → States
seed_external_refs id [] states = states
seed_external_refs id ((channel, ref) ∷ refs) states =
    let value = trim_space ref in
    seed_external_refs id refs
      (if is_empty value then states else (set_channel_external_ref states id channel value).0)

-- `m[k]` of a map of strings.
abbrev pub text_or_empty : Option Text → Text
text_or_empty none = []
text_or_empty (some t) = t

-- The loop of `persistExternalRefs` over the updates: the references, and whether one changed.
unfoldable pub merge_refs : Assoc Text → Assoc Text → Assoc Text × Bool
merge_refs [] refs = (refs, false)
merge_refs ((key, ref) ∷ updates) refs =
    let same = text_eq (text_or_empty (lookup key refs)) ref in
    let rest = merge_refs updates (if same then refs else insert key ref refs) in
    (rest.0, if same then rest.1 else true)

module _ {w : World} where
  -- `resolvePersistConflict`.
  unfoldable pub resolve_persist_conflict : Text → Run w CardWrite
  resolve_persist_conflict id = and_then (ask_store (λ b. w.store.get_card b id)) (λ r. elim r [
    | ok found ↦ pure (record { card = found.0; allow_notify = false; seed_ext_refs = true })
    | err e ↦
        if is_not_found e
        then pure (record { card = empty_card; allow_notify = false; seed_ext_refs = false })
        else fail (store_failed e)
  ])

  -- What follows the create and the update of `persistDecisionCard`.
  unfoldable pub written_card : Text → AlertCard → Bool → Result ℕ → Run w CardWrite
  unfolding resolve_persist_conflict
  written_card id card allow (ok revision) =
      pure (record { card = card; allow_notify = allow; seed_ext_refs = true })
  written_card id card allow (err e) =
      if is_conflict e then resolve_persist_conflict id else fail (store_failed e)

  -- `persistDecisionCard`.
  unfoldable pub persist_decision_card :
      RuleConfig → Text → AlertIdentity → Text → Decision → Time → Run w CardWrite
  unfolding opened_card moved_card snapshot_count written_card
  persist_decision_card rule id identity metric_value decision now app =
      let event_count = snapshot_count app.engine id in
      let opened = opened_card rule id identity metric_value event_count decision now in
      and_then (ask_store (λ b. w.store.get_card b id))
        (λ r. elim r [
          | err e ↦
              if is_not_found e
              then and_then (ask_store (λ b. w.store.create_card b id opened))
                  (written_card id opened true)
              else fail (store_failed e)
          | ok found ↦
              let moved = moved_card found.0 metric_value event_count decision now in
              and_then (ask_store (λ b. w.store.update_card b id found.1 moved))
                (written_card id moved (not (state_eq found.0.state decision.state)))
        ])
        app

  -- `persistExternalRefs` with a number of attempts; the loop of the source makes three.
  unfoldable pub persist_refs_attempts : ℕ → Text → Assoc Text → Run w (Unit {0})
  unfolding merge_refs
  persist_refs_attempts zero id updates = fail retries_exceeded
  persist_refs_attempts (suc attempts) id updates =
      let again : Run w (Unit {0}) = persist_refs_attempts attempts id updates in
      and_then (ask_store (λ b. w.store.get_card b id)) (λ r. elim r [
        | err e ↦ if is_not_found e then pure tt else fail (store_failed e)
        | ok found ↦
            let (refs, changed) = merge_refs updates found.0.external_refs in
            let card : AlertCard = record (found.0) { external_refs = refs } in
            if not changed
            then pure tt
            else and_then (ask_store (λ b. w.store.update_card b id found.1 card)) (λ u. elim u [
              | ok revision ↦ pure tt
              | err e ↦ if is_conflict e then again else fail (store_failed e)
            ])
      ])

  -- `persistExternalRefs`.
  unfoldable pub persist_external_refs : Text → Assoc Text → Run w (Unit {0})
  unfolding persist_refs_attempts
  persist_external_refs id [] = pure tt
  persist_external_refs id (u ∷ updates) = persist_refs_attempts 3 id (u ∷ updates)
