-- ===== src/Manager/Writes.antt =====
-- internal/app/manager.go, `persistDecisionCard`: when a transition may be notified.
use malert.Domain.{AlertCard, Decision, state_eq}
use malert.Base.{
  Time, Text, ℕ, ◌≡◌, refl, ◌≢◌, ◌⊎◌, Bool, true, false, arith, inl, inr, not, Bool-cases, ap, ◌∙◌,
}
use malert.Manager.App.{World, App, done, is_not_found, store_failed}
use malert.Manager.Cards.{
  CardWrite, opened_card, moved_card, snapshot_count, resolve_persist_conflict, written_card,
  persist_decision_card,
}
use malert.Config.Rule.{RuleConfig}
use malert.State.Memory.{not_found, Result, ok, err, StoreError, conflict, other_error}
use malert.Engine.Access.{AlertIdentity}
use malert.Engine.State.{metric_value}
use malert.Manager.Chain.{Result-cases, fail_done}
use malert.State.Laws.{stored}
use malert.Manager.Sendable.{state_eq_iff}

is_not_found_lem : (e : StoreError) → is_not_found e ≡ true → e ≡ not_found
is_not_found_lem not_found h = refl
is_not_found_lem conflict h = cc
is_not_found_lem (other_error t) h = cc

module _ {w : World} where
  -- The store took the card of the decision: as a new one, where there was none, or in place of a
  -- card in another state that nobody had changed since it was read.
  abbrev pub Stored :
      RuleConfig → Text → AlertIdentity → Text → Decision → Time → App w → CardWrite → Type 0
  Stored rule id identity metric_value decision now app written =
      let count = snapshot_count app.engine id in
      let (backend, read) = w.store.get_card app.backend id in
      ((read ≡ err not_found)
        × ((written.card ≡ opened_card rule id identity metric_value count decision now)
            × ((revision : ℕ) × ((w.store.create_card backend id written.card).1 ≡ ok revision))))
      ⊎ ((found : AlertCard × ℕ) × ((read ≡ ok found)
            × ((found.0.state ≢ decision.state)
                × ((written.card ≡ moved_card found.0 metric_value count decision now)
                    × ((revision : ℕ) × ((w.store.update_card backend id found.1 written.card).1
                          ≡ ok revision))))))

  resolve_persist_conflict_lem :
      (id : Text) (app out : App w) (written : CardWrite)
      → resolve_persist_conflict id app ≡ (out, done written)
      → written.allow_notify ≡ false
  unfolding resolve_persist_conflict
  resolve_persist_conflict_lem id app out written h = ground arith

  written_card_lem :
      (id : Text) (card : AlertCard) (allow : Bool) (r : Result ℕ) (app out : App w)
      (written : CardWrite)
      → written_card id card allow r app ≡ (out, done written)
      → written.allow_notify ≡ true
      → ((revision : ℕ) × (r ≡ ok revision)) × ((written.card ≡ card) × (allow ≡ true))
  unfolding written_card
  written_card_lem id card allow (ok revision) app out written h a =
      ((revision, refl), ((ground arith), ground arith))
  written_card_lem id card allow (err e) app out written h a =
      ground (arith, resolve_persist_conflict_lem id app out written)

  -- Whatever the store is, and whoever else writes to it: if a transition may be notified, the store
  -- took its card, either as a new card where it knew of none, or in place of the card that was read,
  -- whose state was another one. A transition that lost a conflict is not notified.
  pub persist_decision_card-Stored :
      (rule : RuleConfig) (id : Text) (identity : AlertIdentity) (metric_value : Text)
      (decision : Decision) (now : Time) (app out : App w) (written : CardWrite)
      → persist_decision_card rule id identity metric_value decision now app ≡ (out, done written)
      → written.allow_notify ≡ true
      → Stored rule id identity metric_value decision now app written
  unfolding persist_decision_card
  persist_decision_card-Stored rule id identity metric_value decision now app out written h a =
      let count = snapshot_count app.engine id in
      let read = w.store.get_card app.backend id in
      elim (Result-cases read.1) [
        | inl (found, r) ↦
            let moved = moved_card found.0 metric_value count decision now in
            let (stored, (same, differs)) =
              written_card_lem id moved (not (state_eq found.0.state decision.state))
                (w.store.update_card read.0 id found.1 moved).1 _ out written (rw r at h) a in
            let differ : found.0.state ≢ decision.state =
              λ q. ground (arith, state_eq_iff found.0.state decision.state) in
            inr (found, (r, (differ, (same, rw same stored))))
        | inr (e, r) ↦ elim (Bool-cases (is_not_found e)) [
          | inr q ↦ elim (fail_done (store_failed e) _ out written (rw q at rw r at h)) [ ]
          | inl q ↦
              let opened = opened_card rule id identity metric_value count decision now in
              let (stored, (same, differs)) =
                written_card_lem id opened true (w.store.create_card read.0 id opened).1 _ out
                  written (rw q at rw r at h) a in
              inl (r ∙ ap err (is_not_found_lem e q), (same, rw same stored))
        ]
      ]
