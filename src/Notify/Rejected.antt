-- ===== src/Notify/Rejected.antt =====
-- internal/notify/notify.go: a notification that the dispatcher cannot send is refused for good.
use malert.Domain.{Notification}
use malert.Permanent.{GoError, is_permanent, plain, marked}
use malert.Base.{
  Option-cases, Sum-cases, lookup, Text, Unicode, ℕ, ◌≡◌, refl, ◌⊎◌, inl, inr, true, none, some,
  Bool-cases, codes, text_eq, trim_space, is_empty, to_lower, ◌++◌, text_eq_iff, sym, ap, ◌∙◌,
}
use malert.Notify.Retry.{refused, Sender, Timer, Sending, send_with_retry}
use malert.Notify.Dispatcher.{
  Templating, CompiledTemplate, Dispatcher, resolve_template, render_message, send, template_key,
  render_error,
}
use malert.Config.Channels.{no_retry}

inl_ne : {A : Type 0} {B : Type 0} {a : A} {b : B} → Path (A ⊎ B) (inl a) (inr b) → ⊥
inl_ne h = cc

inr_channel :
    {A B : Type 0} (x y : CompiledTemplate B)
    → Path (A ⊎ CompiledTemplate B) (inr x) (inr y)
    → x.channel ≡ y.channel
inr_channel x y h = let same : x ≡ y = cc in ap (λ entry. entry.channel) same

module _ {S : Type 0} (u : Unicode) (w : Templating) (d : Dispatcher S w.Body) (wait : Timer S)
    (fuel : ℕ) (s : S) (channel template_name : Text) (n : Notification) where
  -- The call ended before any sender was asked: with a permanent error, and nothing has changed.
  pub Rejects : Sending S → Type 0
  Rejects result = (e : GoError) × (result ≡ (s, some (refused e))) × (is_permanent (some e) ≡ true)

  -- The call is one of the channel's own sender, with the channel's policy, and with the message
  -- that the template of the channel makes of the notification.
  pub Passes : Sending S → Type 0
  Passes result =
      (sender : Sender S) × (entry : CompiledTemplate w.Body) × (text : Text) × (lookup channel
          d.senders
        ≡ some sender)
      × (resolve_template u w d template_name channel ≡ inr entry)
      × (entry.channel ≡ channel)
      × (w.execute entry.body (record n { channel = channel }) ≡ inr text)
      × (result
          ≡ send_with_retry u wait sender (record n { channel = channel; message = text })
              (elim (lookup channel d.retries) [ none ↦ no_retry | some retry ↦ retry ]) fuel s)

  resolve_template_channel :
      (entry : CompiledTemplate w.Body)
      → resolve_template u w d template_name channel ≡ inr entry
      → entry.channel ≡ channel
  unfolding resolve_template
  resolve_template_channel entry h =
      let name = to_lower u (trim_space template_name) in
      let key = template_key u channel name in
      elim (Bool-cases (is_empty name)) [
        | inl p ↦ absurd (inl_ne (rw (p, resolve_template) at h))
        | inr p ↦ elim (Option-cases (lookup key d.template_errs)) [
          | inr (e, q) ↦ absurd (inl_ne (rw (p, q, resolve_template) at h))
          | inl q ↦ elim (Option-cases (lookup key d.templates)) [
            | inl r ↦ absurd (inl_ne (rw (p, q, r, resolve_template) at h))
            | inr (compiled, r) ↦ elim (Option-cases compiled.body) [
              | inl b ↦ absurd (inl_ne (rw (p, q, r, b, resolve_template) at h))
              | inr (body, b) ↦ elim (Bool-cases (text_eq compiled.channel channel)) [
                | inr c ↦ absurd (inl_ne (rw (p, q, r, b, c, resolve_template) at h))
                | inl c ↦
                    sym (
                      inr_channel (record { channel = compiled.channel; body = body }) entry
                        (rw (p, q, r, b, c, resolve_template) at h))
                    ∙ (text_eq_iff compiled.channel channel).0 c
              ]
            ]
          ]
        ]
      ]

  -- Whatever the dispatcher holds, a call of `Send` either passes the rendered notification to the
  -- sender of its channel, with the template bound to that channel, or it is refused with a
  -- permanent error, and no sender was called: it will not be tried again.
  pub send-Rejects :
      Rejects (send u w d wait fuel s channel template_name n)
      ⊎ Passes (send u w d wait fuel s channel template_name n)
  unfolding send Rejects Passes render_message is_permanent
  send-Rejects = elim (Option-cases (lookup channel d.senders)) [
    | inl p ↦ inl (
      marked (plain (codes "notify channel " ++ w.quote channel ++ codes " is not configured")),
      rw (p, send) refl,
      refl,
    )
    | inr (sender, p) ↦ elim (Sum-cases (resolve_template u w d template_name channel)) [
      | inl (e, q) ↦ inl (marked e, rw (p, q, send) refl, refl)
      | inr (entry, q) ↦ elim (Sum-cases (w.execute entry.body (record n { channel = channel }))) [
        | inl (e, r) ↦ inl (marked (render_error u w d entry e), rw (p, q, r, send) refl, refl)
        | inr (text, r) ↦ inr (
          sender,
          entry,
          text,
          p,
          q,
          resolve_template_channel entry q,
          r,
          rw (p, q, r, send) refl,
        )
      ]
    ]
  ]
