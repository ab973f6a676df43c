-- ===== src/Manager/Resolved.antt =====
-- internal/app/manager.go, `applyDecision` of a resolve.
use malert.Domain.{resolved, Decision}
use malert.Base.{
  Option-cases, Time, lookup, Text, ◌≡◌, inl, inr, true, none, lookup-delete_self, sym, ap, Bool,
  arith,
}
use malert.Manager.Chain.{after_done, Result-cases, failed_done}
use malert.Manager.App.{World, App, done, pure, and_then, store_failed, Run}
use malert.Manager.Decisions.{
  Pending, forget_resolved, apply_decision, refresh_for, write_change, notify_decision,
}
use malert.Config.Rule.{RuleConfig}
use malert.Engine.Access.{remove_alert_state, get_alert_identity}
use malert.Engine.State.{States}

no_identity :
    (states : States) (id : Text) → get_alert_identity states id ≡ none → lookup id states ≡ none
unfolding get_alert_identity
no_identity states id h = ground arith

module _ {w : World} where
  forget_resolved_lem :
      (id : Text) (decision : Decision) (app : App w) (x : Unit {0})
      → decision.state ≡ resolved
      → (forget_resolved id decision app).1 ≡ done x
      → lookup id (forget_resolved id decision app).0.engine ≡ none
  unfolding forget_resolved remove_alert_state
  forget_resolved_lem id decision app x r h =
      rw r (elim (Result-cases (w.store.delete_card app.backend id).1) [
        | inl (y, e) ↦ rw e (lookup-delete_self id app.engine)
        | inr (e, q) ↦ elim (failed_done (store_failed e) x (rw q at rw r at h)) [ ]
      ])

  -- When a decision to store the resolved state of an alert has been carried out without an error,
  -- the engine holds no state of the alert, whatever the store, the dispatcher and the queue did.
  pub apply_decision-resolved :
      (rule : RuleConfig) (id : Text) (decision : Decision) (now : Time) (waiting ticks : Pending)
      (app out : App w)
      → decision.state ≡ resolved
      → decision.should_store ≡ true
      → apply_decision rule id decision now waiting app ≡ (out, done ticks)
      → lookup id out.engine ≡ none
  unfolding apply_decision
  apply_decision-resolved rule id decision now waiting ticks app out r s h =
      elim (Option-cases (get_alert_identity app.engine id)) [
        | inl q ↦
            let same : app ≡ out = ap (λ o. o.0) (rw q at rw s at h) in
            rw (sym same) (no_identity app.engine id q)
        | inr (identity, q) ↦
            let stop : Pending → Unit {0} → Run w Pending = λ fresh y. pure fresh in
            let last : Pending → Unit {0} → Run w Pending =
              λ fresh x. and_then (forget_resolved id decision) (stop fresh) in
            let notify : Pending → Bool × Time → Run w Pending = λ fresh change.
              and_then (notify_decision rule id identity decision now change) (last fresh) in
            let write : Pending → Run w Pending =
              λ fresh. and_then (write_change rule id identity decision now) (notify fresh) in
            let r0 = refresh_for rule id decision now waiting app in
            let (fresh, (p0, h0)) = after_done r0 write out ticks (rw q at rw s at h) in
            let r1 = write_change rule id identity decision now r0.0 in
            let (change, (p1, h1)) = after_done r1 (notify fresh) out ticks h0 in
            let r2 = notify_decision rule id identity decision now change r1.0 in
            let (x, (p2, h2)) = after_done r2 (last fresh) out ticks h1 in
            let r3 = forget_resolved id decision r2.0 in
            let (y, (p3, h3)) = after_done r3 (stop fresh) out ticks h2 in
            let same : r3.0 ≡ out = ap (λ o. o.0) h3 in
            rw (sym same) (forget_resolved_lem id decision r2.0 y r p3)
      ]
