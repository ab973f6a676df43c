-- ===== src/Notify/Telegram.antt =====
-- internal/notify/notify.go: the sender of Telegram. The client of the Bot API is a parameter; every
-- message is sent with the parse mode HTML.
use malert.Domain.{resolved, state_eq, Notification}
use malert.Permanent.{GoError, plain, wrapped}
use malert.Queue.Job.{format_int}
use malert.Base.{
  Int64, int64_mod, leb_i64, ltb_i64, Text, codes, text_eq, trim_space, Unicode, ℕ, ◌-◌, ◌%◌, ◌⊎◌,
  inl, inr, Bool, true, false, Option, none, some, [], if◌then◌else◌,
}
use malert.Notify.Retry.{SendResult, Reply, delivered, refused}
use malert.Config.Channels.{mode_active_only, normalize_notify_route_mode}
use malert.Config.OffWindow.{SignedInt, atoi}
use malert.Config.Notify.{TelegramNotifier}
use malert.Config.ValidateNotify.{is_blank}
use malert.Engine.Active.{keeps}
use malert.Engine.Run.{step}
use malert.Notify.Http.{trim_right_slash}

-- The chat of a message: a number, or a name.
pub data ChatId : Type 0 where
  chat_number : Int64 → ChatId
  chat_name : Text → ChatId

pub record TelegramMessage : Type 0 where
  pub chat_id : ChatId
  pub text : Text
  pub reply_to : Option ℕ

-- The calls of the client. A sent or edited message comes back with its ID, or as nil.
pub record TelegramBot (S : Type 0) : Type 0 where
  pub send_message : S → TelegramMessage → S × (GoError ⊎ Option Int64)
  pub edit_message_text : S → ChatId → Int64 → Text → S × (GoError ⊎ Option Int64)
  pub delete_message : S → ChatId → Int64 → S × (GoError ⊎ Bool)

-- `TelegramSender`: an error of its set-up, or the client.
pub record TelegramSender (S : Type 0) : Type 0 where
  pub client : GoError ⊎ TelegramBot S
  pub chat_id : ChatId
  pub active_chat_id : Option ChatId

-- The int64 of a parsed integer.
abbrev pub word_of : SignedInt → Int64
word_of n = if n.negative then (int64_mod - n.magnitude) % int64_mod else n.magnitude

-- `normalizeChatID`; ParseInt in base 10 reads what Atoi reads.
unfoldable pub normalize_chat_id : Text → ChatId
unfolding atoi
normalize_chat_id raw = elim (atoi (trim_space raw)) [
  | some n ↦ chat_number (word_of n)
  | none ↦ chat_name (trim_space raw)
]

-- A parsed integer, where it is above 0.
unfoldable pub positive_id : Option SignedInt → Option Int64
positive_id none = none
positive_id (some n) = if leb_i64 (word_of n) 0 then none else some (word_of n)

-- `parseTelegramMessageID`; `none` is its error.
unfoldable pub parse_telegram_message_id : Text → Option Int64
unfolding positive_id atoi
parse_telegram_message_id value = positive_id (atoi (trim_space value))

-- `NewTelegramSender`; `new_bot` is tgbot.New with a token and a URL.
unfoldable pub new_telegram_sender :
    {S : Type 0} → (Text → Text → GoError ⊎ TelegramBot S) → TelegramNotifier → TelegramSender S
unfolding normalize_chat_id trim_right_slash
new_telegram_sender new_bot cfg = record {
  chat_id = normalize_chat_id cfg.chat_id;
  active_chat_id =
      if is_blank cfg.active_chat_id then none else some (normalize_chat_id cfg.active_chat_id);
  client =
      if is_blank cfg.bot_token
      then inl (plain (codes "telegram bot token is required"))
      else if is_blank cfg.chat_id
      then inl (plain (codes "telegram chat_id is required"))
      else elim (new_bot cfg.bot_token (trim_right_slash cfg.api_base)) [
        | inl e ↦ inl (wrapped (codes "init telegram bot: ") e)
        | inr bot ↦ inr bot
      ];
}

-- The ID of the message that a call returned.
unfoldable pub message_id_of : Text → Text → GoError ⊎ Option Int64 → GoError ⊎ Int64
message_id_of prefix missing (inl e) = inl (wrapped prefix e)
message_id_of prefix missing (inr none) = inl (plain missing)
message_id_of prefix missing (inr (some id)) = if leb_i64 id 0 then inl (plain missing) else inr id

-- The reply to a message with its ID: its reference is the ID where the route keeps one.
abbrev pub sent_message : Bool → GoError ⊎ Int64 → Reply
sent_message keeps (inl e) = refused e
sent_message keeps (inr id) =
    delivered (record { message_id = id; external_ref = if keeps then format_int id else [] })

-- The reply to an edit: the ID stays that of the edited message.
unfoldable pub edited_reply : Int64 → GoError ⊎ Int64 → Reply
unfolding format_int
edited_reply id (inl e) = refused e
edited_reply id (inr edited) = sent_message true (inr id)

abbrev pub no_result : SendResult
no_result = record { message_id = 0; external_ref = [] }

-- The answer to a deletion.
unfoldable pub deleted : GoError ⊎ Bool → Reply
deleted (inl e) = refused (wrapped (codes "telegram delete: ") e)
deleted (inr true) = delivered no_result
deleted (inr false) = refused (plain (codes "telegram delete returned false"))

-- The error of a reference that is no message ID, without the quoted reference.
abbrev pub bad_message_id : Text → GoError
bad_message_id step = wrapped step (plain (codes "invalid telegram message id "))

module _ {S : Type 0} (bot : TelegramBot S) (s : S) (chat : ChatId) (n : Notification) where
  -- The call of `SendMessage` with its checks.
  unfoldable pub post_message : Option ℕ → Bool → S × Reply
  unfolding message_id_of format_int
  post_message reply_to keeps =
      let (t, outcome) =
        bot.send_message s (record { chat_id = chat; text = n.message; reply_to = reply_to }) in
      (
        t,
        sent_message keeps (
            message_id_of (codes "telegram send: ")
              (codes "telegram send returned empty message id") outcome),
      )

  -- `sendHistory`.
  unfoldable pub send_history : S × Reply
  unfolding post_message
  send_history =
      let reply_to : Option ℕ = elim n.reply_to_message_id [
        | none ↦ none
        | some id ↦ if ltb_i64 0 id then some id else none
      ] in
      post_message reply_to false

  -- The deletion of the message that a reference names.
  unfoldable pub delete_by_id : Option Int64 → S × Reply
  unfolding deleted
  delete_by_id none = (s, refused (bad_message_id (codes "telegram active delete: ")))
  delete_by_id (some id) = let (t, outcome) = bot.delete_message s chat id in (t, deleted outcome)

  -- The branch of a resolved alert: its message is deleted.
  unfoldable pub delete_active : S × Reply
  unfolding parse_telegram_message_id delete_by_id
  delete_active = delete_by_id (parse_telegram_message_id n.external_ref)

  -- The edit of the message that a reference names.
  unfoldable pub edit_by_id : Option Int64 → S × Reply
  unfolding message_id_of edited_reply
  edit_by_id none = (s, refused (bad_message_id (codes "telegram active edit: ")))
  edit_by_id (some id) =
      let (t, outcome) = bot.edit_message_text s chat id n.message in
      (
        t,
        edited_reply id (
            message_id_of (codes "telegram edit: ") (codes "telegram edit returned empty message")
              outcome),
      )

  -- The branch of an alert with a message: it is edited.
  unfoldable pub edit_active : S × Reply
  unfolding parse_telegram_message_id edit_by_id
  edit_active = edit_by_id (parse_telegram_message_id n.external_ref)

  -- `sendActiveOnly`.
  unfoldable pub send_active_only : S × Reply
  unfolding delete_active edit_active post_message
  send_active_only =
      if state_eq n.state resolved
      then delete_active
      else if is_blank n.external_ref
      then post_message none true
      else edit_active

-- `Send`.
unfoldable pub send_telegram :
    {S : Type 0} → Unicode → TelegramSender S → S → Notification → S × Reply
unfolding send_history send_active_only normalize_notify_route_mode
send_telegram u sender s n = elim sender.client [
  | inl e ↦ (s, refused e)
  | inr bot ↦
      if text_eq (normalize_notify_route_mode u n.route_mode) mode_active_only
      then send_active_only bot s
          (elim sender.active_chat_id [ none ↦ sender.chat_id | some chat ↦ chat ]) n
      else send_history bot s sender.chat_id n
]
