-- ===== src/Notify/Refs.antt =====
-- internal/notify/notify.go: the references that the sender of a tracker leaves and asks for.
use malert.Domain.{firing, resolved, Notification}
use malert.Base.{Bool-cases, Text, ◌≡◌, sym, ap, inl, inr, false, Sum-cases, []}
use malert.Notify.Http.{Call}
use malert.Notify.Retry.{SendResult, delivered, Reply, refused}
use malert.Notify.Tracker.{
  TrackerWorld, TrackerSender, Body, created_reply, TrackerAction, resolved_reply, send_action,
  send_tracker,
}
use malert.Config.ValidateNotify.{is_blank}
use malert.Permanent.{GoError}

-- A delivered reply to a firing alert has a reference, that of the alert where it has one; a
-- delivered reply to a resolved alert repeats the reference of the alert, which is not blank.
abbrev pub KeepsReference : Notification → SendResult → Type 0
KeepsReference n r =
    (n.state ≡ firing
      → (is_blank r.external_ref ≡ false)
        × (is_blank n.external_ref ≡ false → r.external_ref ≡ n.external_ref))
    × (n.state ≡ resolved → (is_blank n.external_ref ≡ false) × (r.external_ref ≡ n.external_ref))

refused_ne : {e : GoError} {r : SendResult} → refused e ≡ delivered r → ⊥
refused_ne h = cc

reference_of : Reply → Text
reference_of (delivered r) = r.external_ref
reference_of (refused e) = []

module _ {S : Type 0} (w : TrackerWorld S) (sender : TrackerSender (Body w))
    (n : Notification) where
  created_reply-reference :
      (c : Call S Text) (r : SendResult)
      → (created_reply w sender n c).1 ≡ delivered r
      → is_blank r.external_ref ≡ false
  unfolding created_reply reference_of
  created_reply-reference (t, inl e) r h = cc
  created_reply-reference (t, inr ref) r h = elim (Bool-cases (is_blank ref)) [
    | inl e ↦ absurd (refused_ne (rw e at h))
    | inr e ↦ let q : ref ≡ r.external_ref = ap reference_of (rw e at h) in rw (sym q) e
  ]

  resolved_reply-reference :
      (c : Call S Text) (r : SendResult)
      → (resolved_reply w sender n c).1 ≡ delivered r
      → r.external_ref ≡ n.external_ref
  unfolding resolved_reply reference_of
  resolved_reply-reference (t, inl e) r h = cc
  resolved_reply-reference (t, inr ref) r h = sym (ap reference_of h)

  fires :
      (actions : TrackerAction (Body w) × TrackerAction (Body w)) (s : S) (r : SendResult)
      → n.state ≡ firing
      → (send_action w sender n actions s).1 ≡ delivered r
      → (is_blank r.external_ref ≡ false)
        × (is_blank n.external_ref ≡ false → r.external_ref ≡ n.external_ref)
  unfolding send_action reference_of
  fires (opening, closing) s r f h = elim (Bool-cases (is_blank n.external_ref)) [
    | inl e ↦ (created_reply-reference _ r (rw (f, e) at h), λ no. cc)
    | inr e ↦
        let q : n.external_ref ≡ r.external_ref = ap reference_of (rw (f, e) at h) in
        (rw (sym q) e, λ no. sym q)
  ]

  closes :
      (actions : TrackerAction (Body w) × TrackerAction (Body w)) (s : S) (r : SendResult)
      → n.state ≡ resolved
      → (send_action w sender n actions s).1 ≡ delivered r
      → (is_blank n.external_ref ≡ false) × (r.external_ref ≡ n.external_ref)
  unfolding send_action
  closes (opening, closing) s r f h = elim (Bool-cases (is_blank n.external_ref)) [
    | inl e ↦ absurd (refused_ne (rw (f, e) at h))
    | inr e ↦ (e, resolved_reply-reference _ r (rw (f, e) at h))
  ]

  -- A delivered reply of a tracker keeps the reference: a firing alert has one afterwards, its own
  -- where it came with one; a resolved alert came with one and keeps it.
  pub send_tracker-KeepsReference :
      (s : S) (r : SendResult) → (send_tracker w sender n s).1 ≡ delivered r → KeepsReference n r
  unfolding send_tracker
  send_tracker-KeepsReference s r h = elim (Sum-cases sender.actions) [
    | inl (e, q) ↦ absurd (refused_ne (rw (q, send_tracker) at h))
    | inr (actions, q) ↦
        let sent_by : (send_action w sender n actions s).1 ≡ delivered r =
          rw (q, send_tracker) at h in
        (λ f. fires actions s r f sent_by, λ c. closes actions s r c sent_by)
  ]
