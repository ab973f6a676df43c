-- ===== src/Tests/SenderRuns.antt =====
-- The theorems about the senders at concrete inputs.
use malert.Domain.{firing, resolved, state_eq, Notification}
use malert.Tests.QueueRuns.{constant_templating}
use malert.Tests.Worlds.{plain_unicode}
use malert.Base.{
  codes, ℕ, ◌+◌, ◌≡◌, refl, inr, true, false, none, some, [], arith, leb_i64, trim_space, is_empty,
  ltb_i64, text_eq, is_space,
}
use malert.Notify.Retry.{SendResult, delivered}
use malert.Notify.Refs.{KeepsReference, send_tracker-KeepsReference}
use malert.Notify.Json.{json_string, json_object, member, object_end}
use malert.Notify.Telegram.{send_active_only, chat_number, TelegramBot}
use malert.Notify.Tracker.{TrackerWorld, TrackerSender, Body, new_tracker_sender, send_tracker}
use malert.Config.Notify.{TrackerActionConfig, TrackerNotifier}
use malert.Tests.ConfigRuns.{no_action, no_tracker}
use malert.Tests.ManagerRuns.{resolved_note}
use malert.Notify.References.{send_active_only-roundtrip}

-- A client that counts its calls and numbers every message 4217.
abbrev counting_bot : TelegramBot ℕ
counting_bot = record {
  send_message = λ calls m. (calls + 1, inr (some 4217));
  edit_message_text = λ calls chat id text. (calls + 1, inr (some id));
  delete_message = λ calls chat id. (calls + 1, inr true);
}

abbrev first_note : Notification
first_note = record resolved_note { state = firing; external_ref = [] }

abbrev later_note : Notification
later_note = record resolved_note { state = firing; external_ref = codes "4217" }

abbrev numbered : SendResult
numbered = record { message_id = 4217; external_ref = codes "4217" }

send_active_only-roundtrip_example :
    (state_eq later_note.state resolved ≡ false
      → ((send_active_only counting_bot 1 (chat_number 5) later_note).0 ≡ 2)
        × ((x : SendResult)
            → (send_active_only counting_bot 1 (chat_number 5) later_note).1 ≡ delivered x
            → x ≡ numbered))
    × (state_eq later_note.state resolved ≡ true
        → (send_active_only counting_bot 1 (chat_number 5) later_note).0 ≡ 2)
unfolding send_active_only is_empty trim_space leb_i64
send_active_only-roundtrip_example =
    send_active_only-roundtrip counting_bot (chat_number 5) 0 1 first_note later_note numbered refl
      refl (omega arith) refl

-- A tracker that answers every request with 201 and the same document.
abbrev sample_tracker_world : TrackerWorld ℕ
sample_tracker_world = record {
  http = record {
    exchange =
        λ calls request. (calls + 1, inr (record { status_code = 201; body = inr (codes "{}") }));
    refuses = λ method url. none;
    canonical = λ name. name;
  };
  templating = constant_templating;
  unicode = plain_unicode;
  upper = λ t. t;
  url_error = λ url. none;
  base64 = λ t. t;
  unmarshal =
      λ t. some (json_object (member (codes "key") (json_string (codes "OPS-7")) object_end));
  format_float = λ x. [];
}

abbrev sample_action : TrackerActionConfig
sample_action = record no_action {
  method = codes "POST";
  path = codes "/issue";
  ref_json_path = codes "key";
}

abbrev sample_tracker : TrackerNotifier
sample_tracker = record no_tracker {
  base_url = codes "http://tracker";
  create = sample_action;
  resolve = sample_action;
}

abbrev opened_issue : SendResult
opened_issue = record { message_id = 0; external_ref = codes "OPS-7" }

abbrev sample_tracker_sender : TrackerSender (Body sample_tracker_world)
sample_tracker_sender = new_tracker_sender sample_tracker_world (codes "jira") sample_tracker

send_tracker-KeepsReference_example : KeepsReference first_note opened_issue
unfolding send_tracker new_tracker_sender is_empty trim_space is_space leb_i64 ltb_i64 text_eq
send_tracker-KeepsReference_example =
    send_tracker-KeepsReference sample_tracker_world sample_tracker_sender first_note 0 opened_issue
      refl
