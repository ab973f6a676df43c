-- ===== src/Tests/QueueRuns.antt =====
-- The dispatcher's and the worker's theorems at concrete inputs.
use Prim.Native.Nat.{min, ◌^◌}
use malert.Permanent.{GoError, plain, is_permanent}
use malert.Queue.Job.{Job}
use malert.Queue.Outcomes.{logged, Traced, process_message-Traced}
use malert.Queue.Worker.{QueueMessage, QueueWorld, notify_queue_subject, process_message}
use malert.Tests.ManagerRuns.{resolved_note}
use malert.Tests.Worlds.{plain_unicode}
use malert.Base.{
  ◌==◌, Text, codes, is_empty, ℕ, ◌+◌, ◌-◌, ◌*◌, ◌≡◌, refl, ◌⊎◌, inl, inr, true, false, none, some,
  [], ◌∷◌, arith, if◌then◌else◌, add_i64, mul_i64, leb_i64, ltb_i64, text_eq, ascii_lower,
  equal_fold,
}
use malert.Notify.Attempts.{logged_sender, logged_timer, Ends, send_with_retry-Ends}
use malert.Notify.Rejected.{Rejects, Passes, send-Rejects}
use malert.Notify.Retry.{
  delivered, refused, Sender, Timer, send_with_retry, milliseconds, next_backoff, is_last_attempt,
}
use malert.Notify.Dispatcher.{Templating, Dispatcher, send}
use malert.Notify.Schedule.{backoff_after, backoff_after-exponential}
use malert.Config.Channels.{channel_telegram, mode_history}
use malert.Config.Notify.{NotifyRetry, NotifyQueue}

-- A sender that fails a number of times before it succeeds; its state counts down.
abbrev flaky_sender : Sender ℕ
flaky_sender = record {
  channel = channel_telegram;
  send = λ left n. (
    left - 1,
    if left == 0
        then delivered (record { message_id = 7; external_ref = [] })
        else refused (plain (codes "timeout")),
  );
}

abbrev patient_timer : Timer ℕ
patient_timer left d = (left, none)

abbrev doubling : NotifyRetry
doubling = record {
  enabled = true;
  backoff = codes "Exponential";
  initial_ms = 500;
  max_ms = 1500;
  max_attempts = 4;
  log_each_attempt = false;
}

backoff_after-exponential_example :
    (backoff_after plain_unicode doubling 0 ≡ 500 * 1000000)
    × (backoff_after plain_unicode doubling 2 ≡ min (500 * 2 ^ 2) 1500 * 1000000)
unfolding equal_fold text_eq ascii_lower
backoff_after-exponential_example =
    backoff_after-exponential plain_unicode doubling refl (omega arith) (omega arith) 1

send_with_retry-Ends_example :
    Ends plain_unicode patient_timer flaky_sender resolved_note doubling (
      send_with_retry plain_unicode
        (logged_timer patient_timer)
        (logged_sender flaky_sender)
        resolved_note
        doubling
        4
        (2, record { sends = 0; waits = []; latest = none; ended = none }))
send_with_retry-Ends_example =
    send_with_retry-Ends plain_unicode patient_timer flaky_sender resolved_note doubling
      (omega arith) (omega arith) refl 2

send_with_retry_run :
    send_with_retry plain_unicode
      (logged_timer patient_timer)
      (logged_sender flaky_sender)
      resolved_note
      doubling
      4
      (2, record { sends = 0; waits = []; latest = none; ended = none })
    ≡ (
      (
        0,
        record {
          sends = 3;
          waits = 500000000 ∷ 1000000000 ∷ [];
          latest = some (delivered (record { message_id = 7; external_ref = [] }));
          ended = none;
        },
      ),
      some (delivered (record { message_id = 7; external_ref = [] })),
    )
unfolding send_with_retry logged_sender is_permanent is_last_attempt ltb_i64 leb_i64 add_i64
    logged_timer milliseconds next_backoff mul_i64 equal_fold text_eq ascii_lower
send_with_retry_run = refl

abbrev pub constant_templating : Templating
constant_templating = record {
  Body = Text;
  parse = λ title body. if is_empty body then inl (plain title) else inr body;
  execute = λ body n. inr body;
  quote = λ text. text;
}

abbrev empty_dispatcher : Dispatcher ℕ Text
empty_dispatcher = record {
  senders = (channel_telegram, flaky_sender) ∷ [];
  channels = channel_telegram ∷ [];
  retries = (channel_telegram, doubling) ∷ [];
  templates = [];
  template_errs = [];
}

send-Rejects_example :
    Rejects plain_unicode constant_templating empty_dispatcher patient_timer 4 2 channel_telegram
      (codes "plain")
      resolved_note
      (send plain_unicode constant_templating empty_dispatcher patient_timer 4 2 channel_telegram
        (codes "plain")
        resolved_note)
    ⊎ Passes plain_unicode constant_templating empty_dispatcher patient_timer 4 2 channel_telegram
        (codes "plain")
        resolved_note
        (send plain_unicode constant_templating empty_dispatcher patient_timer 4 2 channel_telegram
          (codes "plain")
          resolved_note)
send-Rejects_example =
    send-Rejects plain_unicode constant_templating empty_dispatcher patient_timer 4 2
      channel_telegram (codes "plain") resolved_note

abbrev sample_job : Job
sample_job = record {
  id = codes "j1";
  route_key = codes "ops";
  route_mode = mode_history;
  channel = channel_telegram;
  template = codes "plain";
  notification = resolved_note;
  created_at = 95000000000;
}

-- Every job fails with the given error, and every publish succeeds. The state is the clock.
abbrev failing_queue : GoError → QueueWorld ℕ
failing_queue e = record {
  unmarshal_job = λ body. if is_empty body then none else some sample_job;
  marshal_job = λ job. inr job.id;
  marshal_entry = λ entry. inr entry.error;
  publish = λ clock m. (clock, none);
  read_clock = λ clock. (clock + 1, clock);
  handler = λ clock job. (clock, some e);
}

abbrev pub sample_queue : NotifyQueue
sample_queue = record {
  enabled = true;
  url = [];
  ack_wait_sec = 30;
  nack_delay_ms = 1000;
  max_deliver = 3;
  max_ack_pending = 64;
  dlq = true;
}

abbrev third_delivery : QueueMessage
third_delivery = record {
  body = codes "{}";
  subject = notify_queue_subject;
  msg_id = codes "j1";
  num_delivered = some 3;
}

process_message-Traced_example :
    Traced
      (failing_queue (plain (codes "timeout")))
      sample_queue
      third_delivery
      sample_job
      (some (plain (codes "timeout")))
      []
      (process_message
        (logged (failing_queue (plain (codes "timeout"))))
        sample_queue
        (5, [])
        third_delivery)
unfolding is_empty process_message logged is_permanent leb_i64
process_message-Traced_example =
    process_message-Traced (failing_queue (plain (codes "timeout"))) sample_queue (5, [])
      third_delivery sample_job refl refl refl
