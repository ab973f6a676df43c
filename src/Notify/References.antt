-- ===== src/Notify/References.antt =====
-- internal/notify/notify.go: the reference that Telegram's sender leaves on an alert is the one it
-- reads when the alert changes.
use malert.Queue.Job.{format_int, digits_below}
use malert.Base.{
  Int64, int64_mod, int64_half, leb_i64, ◌<◌, ◌≡◌, refl, false, some, arith, Bool-cases, Text, sym,
  ◌⊎◌, inl, inr, true, Option, none, ap, ◌∙◌, subst, All, is_empty, ◌≢◌, [], ◌∷◌, trim_space,
}
use malert.Notify.Ids.{
  atoi-format_int, IsDigit, digits_below-IsDigit, trim_space_digits, format_int_below,
  digits_below-nonempty,
}
use malert.Notify.Retry.{SendResult, Reply, delivered, refused}
use malert.Notify.Telegram.{
  parse_telegram_message_id, message_id_of, sent_message, positive_id, ChatId, TelegramBot,
  edited_reply, post_message, edit_by_id, edit_active, word_of, delete_by_id, delete_active,
}
use malert.Permanent.{GoError}
use malert.Domain.{resolved, state_eq, Notification}
use malert.Notify.Telegram.{send_active_only}
use malert.Config.ValidateNotify.{is_blank}
use malert.Config.OffWindow.{SignedInt, atoi}

positive-cases : (id : Int64) → leb_i64 id 0 ≡ false → id < int64_mod → (0 < id) × (id < int64_half)
unfolding leb_i64
positive-cases id h small = ground arith

abbrev result_of : SendResult → Reply → SendResult
result_of d (delivered r) = r
result_of d (refused e) = d

none_ne : {A : Type 0} {a : A} → Path (Option A) none (some a) → ⊥
none_ne h = cc

inl_ne : {A : Type 0} {B : Type 0} {a : A} {b : B} → Path (A ⊎ B) (inl a) (inr b) → ⊥
inl_ne h = cc

positive_id-nonneg :
    (id : Int64)
    → leb_i64 id 0 ≡ false
    → positive_id (some (record { negative = false; magnitude = id })) ≡ some id
unfolding positive_id
positive_id-nonneg id h = rw h refl

-- The reference of a message with an ID above 0 is parsed back.
pub parse_telegram_message_id-format_int :
    (id : Int64)
    → id < int64_mod
    → leb_i64 id 0 ≡ false
    → parse_telegram_message_id (format_int id) ≡ some id
unfolding parse_telegram_message_id
parse_telegram_message_id-format_int id small h =
    ap positive_id (atoi-format_int id (positive-cases id h small).1) ∙ positive_id-nonneg id h

-- A result with the ID of a message and that ID as its reference.
abbrev Referenced : SendResult → Type 0
Referenced r = (leb_i64 r.message_id 0 ≡ false) × (r.external_ref ≡ format_int r.message_id)

message_id_of-positive :
    (prefix missing : Text) (outcome : GoError ⊎ Option Int64) (id : Int64)
    → message_id_of prefix missing outcome ≡ inr id
    → leb_i64 id 0 ≡ false
unfolding message_id_of
message_id_of-positive p m (inl e) id h = cc
message_id_of-positive p m (inr none) id h = cc
message_id_of-positive p m (inr (some k)) id h = elim (Bool-cases (leb_i64 k 0)) [
  | inl e ↦ absurd (inl_ne (rw e at h))
  | inr e ↦ let q : k ≡ id = cc (rw e at h) in rw (sym q) e
]

sent_message-Referenced :
    (e : GoError ⊎ Int64) (r : SendResult)
    → ((id : Int64) → e ≡ inr id → leb_i64 id 0 ≡ false)
    → sent_message true e ≡ delivered r
    → Referenced r
sent_message-Referenced (inl e) r positive h = cc
sent_message-Referenced (inr id) r positive h =
    subst Referenced (ap (result_of r) h) (positive id refl, refl)

edited_reply-same :
    (id : Int64) (e : GoError ⊎ Int64) (r : SendResult)
    → edited_reply id e ≡ delivered r
    → record { message_id = id; external_ref = format_int id } ≡ r
unfolding edited_reply
edited_reply-same id (inl e) r h = cc
edited_reply-same id (inr k) r h = ap (result_of r) h

text_nonblank : (s : Text) → All IsDigit s → s ≢ [] → is_blank s ≡ false
unfolding is_empty
text_nonblank [] h ne = absurd (ne refl)
text_nonblank (c ∷ s) h ne = rw (trim_space_digits (c ∷ s) h) refl

format_int-nonblank : (id : Int64) → id < int64_half → is_blank (format_int id) ≡ false
format_int-nonblank id h = rw (format_int_below id h) (
    text_nonblank (digits_below 20 id []) (digits_below-IsDigit 20 id [] tt)
      (digits_below-nonempty 19 id))

positive_id-positive :
    (v : Option SignedInt) (k : Int64) → positive_id v ≡ some k → leb_i64 k 0 ≡ false
unfolding positive_id
positive_id-positive none k h = cc
positive_id-positive (some n) k h = elim (Bool-cases (leb_i64 (word_of n) 0)) [
  | inl e ↦ absurd (none_ne (rw e at h))
  | inr e ↦ let q : word_of n ≡ k = cc (rw e at h) in rw (sym q) e
]

parse_telegram_message_id-positive :
    (s : Text) (k : Int64) → parse_telegram_message_id s ≡ some k → leb_i64 k 0 ≡ false
unfolding parse_telegram_message_id
parse_telegram_message_id-positive s k h = positive_id-positive (atoi (trim_space s)) k h

module _ {S : Type 0} (bot : TelegramBot S) (chat : ChatId) where
  edit_by_id-Referenced :
      (s : S) (n : Notification) (r : SendResult) (id : Option Int64)
      → ((k : Int64) → id ≡ some k → leb_i64 k 0 ≡ false)
      → (edit_by_id bot s chat n id).1 ≡ delivered r
      → Referenced r
  unfolding edit_by_id
  edit_by_id-Referenced s n r none positive h = cc
  edit_by_id-Referenced s n r (some k) positive h =
      subst Referenced (edited_reply-same k _ r h) (positive k refl, refl)

  -- Whatever an alert that is not resolved is sent as, its result holds the reference.
  send_active_only-Referenced :
      (s : S) (n : Notification) (r : SendResult)
      → state_eq n.state resolved ≡ false
      → (send_active_only bot s chat n).1 ≡ delivered r
      → Referenced r
  unfolding send_active_only post_message edit_active
  send_active_only-Referenced s n r live h = elim (Bool-cases (is_blank n.external_ref)) [
    | inl e ↦ sent_message-Referenced _ r (message_id_of-positive _ _ _) (rw (live, e) at h)
    | inr e ↦
        edit_by_id-Referenced s n r (parse_telegram_message_id n.external_ref)
          (parse_telegram_message_id-positive n.external_ref) (rw (live, e) at h)
  ]

  -- The edit that an alert with a reference gets: it is of the message with that ID.
  edits-same :
      (s : S) (n : Notification) (id : Int64) (r : SendResult)
      → state_eq n.state resolved ≡ false
      → is_blank n.external_ref ≡ false
      → parse_telegram_message_id n.external_ref ≡ some id
      → ((send_active_only bot s chat n).0 ≡ (bot.edit_message_text s chat id n.message).0)
        × ((send_active_only bot s chat n).1 ≡ delivered r
            → record { message_id = id; external_ref = format_int id } ≡ r)
  unfolding send_active_only edit_active edit_by_id
  edits-same s n id r live nonblank e =
      rw (live, nonblank, e) (refl, λ h. edited_reply-same id _ r h)

  deletes-same :
      (s : S) (n : Notification) (id : Int64)
      → state_eq n.state resolved ≡ true
      → parse_telegram_message_id n.external_ref ≡ some id
      → (send_active_only bot s chat n).0 ≡ (bot.delete_message s chat id).0
  unfolding send_active_only delete_active delete_by_id
  deletes-same s n id closed e = rw (closed, e) refl

  -- An alert that is not resolved was sent, or its message was edited, and the client gave an
  -- int64 as the ID. A notification with the reference of that result then reaches the same message:
  -- a live one edits the message with that ID, and a delivered edit leaves the same result; one of a
  -- resolved alert deletes it.
  pub send_active_only-roundtrip :
      (s later : S) (n m : Notification) (r : SendResult)
      → state_eq n.state resolved ≡ false
      → (send_active_only bot s chat n).1 ≡ delivered r
      → r.message_id < int64_mod
      → m.external_ref ≡ r.external_ref
      → (state_eq m.state resolved ≡ false
          → ((send_active_only bot later chat m).0
              ≡ (bot.edit_message_text later chat r.message_id m.message).0)
            × ((x : SendResult) → (send_active_only bot later chat m).1 ≡ delivered x → x ≡ r))
        × (state_eq m.state resolved ≡ true
            → (send_active_only bot later chat m).0
              ≡ (bot.delete_message later chat r.message_id).0)
  send_active_only-roundtrip s later n m r live told small same =
      let h = send_active_only-Referenced s n r live told in
      let parsed : parse_telegram_message_id m.external_ref ≡ some r.message_id =
        ap parse_telegram_message_id (same ∙ h.1)
        ∙ parse_telegram_message_id-format_int r.message_id small h.0 in
      let nonblank : is_blank m.external_ref ≡ false =
        ap is_blank (same ∙ h.1)
        ∙ format_int-nonblank r.message_id (positive-cases r.message_id h.0 small).1 in
      let result : record { message_id = r.message_id; external_ref = format_int r.message_id }
          ≡ r =
        ap (λ ref. record { message_id = r.message_id; external_ref = ref }) (sym h.1) in
      (
        λ still.
            let both = edits-same later m r.message_id r still nonblank parsed in
            (
              both.0,
              λ x e. sym ((edits-same later m r.message_id x still nonblank parsed).1 e) ∙ result,
            ),
        λ closed. deletes-same later m r.message_id closed parsed,
      )
