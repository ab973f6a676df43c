-- ===== src/Queue/Worker.antt =====
-- internal/notifyqueue/nats.go: the callback of the queue's consumer. The NATS client, JSON and the
-- clock are parameters, as is the handler; the logger leaves no trace.
use malert.Permanent.{GoError, wrapped, is_permanent, error_text}
use malert.Queue.Job.{Job, format_int}
use malert.Base.{
  leb, Time, Duration, Int64, leb_i64, ltb_i64, Text, codes, trim_space, is_empty, ℕ, ◌⊎◌, inl, inr,
  Bool, false, Option, none, some, ◌∷◌, ◌++◌, if◌then◌else◌,
}
use malert.Notify.Retry.{milliseconds}
use malert.Config.Notify.{NotifyQueue}

pub data DlqReason : Type 0 where
  permanent_error max_deliver_exceeded : DlqReason

unfoldable pub reason_text : DlqReason → Text
reason_text permanent_error = codes "permanent_error"
reason_text max_deliver_exceeded = codes "max_deliver_exceeded"

-- `DLQEntry`.
pub record DlqEntry : Type 0 where
  pub job : Job
  pub reason : DlqReason
  pub error : Text
  pub attempts : ℕ
  pub max_deliver : Int64
  pub subject : Text
  pub failed_at : Time
  pub original_msg_id : Text

-- A delivered message. `num_delivered` is none where its metadata cannot be read; `msg_id` is the
-- header Nats-Msg-Id, which is empty where it is missing.
pub record QueueMessage : Type 0 where
  pub body : Text
  pub subject : Text
  pub msg_id : Text
  pub num_delivered : Option ℕ

-- A message that is published: its subject, its header Nats-Msg-Id if it has one, and its body.
pub record Published : Type 0 where
  pub subject : Text
  pub msg_id : Option Text
  pub body : Text

-- What the worker does with a message at last.
pub data Disposition : Type 0 where
  acked nacked : Disposition
  nacked_with_delay : Duration → Disposition

-- The state N is that of the world outside; a publish that fails gives its error.
pub record QueueWorld (N : Type 0) : Type 0 where
  pub unmarshal_job : Text → Option Job
  pub marshal_job : Job → GoError ⊎ Text
  pub marshal_entry : DlqEntry → GoError ⊎ Text
  pub publish : N → Published → N × Option GoError
  pub read_clock : N → N × Time
  pub handler : N → Job → N × Option GoError

abbrev pub notify_queue_subject : Text
notify_queue_subject = codes "alerting.notify.jobs"

abbrev pub notify_queue_dlq_subject : Text
notify_queue_dlq_subject = codes "alerting.notify.jobs.dlq"

-- `deliveryAttempts` of a message that is there.
unfoldable pub delivery_attempts : QueueMessage → ℕ
delivery_attempts message = elim message.num_delivered [
  | none ↦ 1
  | some count ↦ if leb count 0 then 1 else count
]

-- `isMaxDeliverExceeded`; uint64 of a positive int is the same number.
unfoldable pub is_max_deliver_exceeded : ℕ → Int64 → Bool
is_max_deliver_exceeded attempts max_deliver =
    if leb_i64 max_deliver 0 then false else leb max_deliver attempts

-- The Nats-Msg-Id of a job.
abbrev pub job_msg_id : Job → Option Text
job_msg_id job = if is_empty (trim_space job.id) then none else some (trim_space job.id)

-- The Nats-Msg-Id of a dead letter; `%d` of the attempts, which are below 2 ^ 63.
unfoldable pub dlq_msg_id : Job → DlqReason → ℕ → Option Text
unfolding format_int reason_text
dlq_msg_id job reason attempts =
    if is_empty (trim_space job.id)
    then none
    else some
        (trim_space job.id ++ codes ":dlq:" ++ reason_text reason ++ (b':' ∷ format_int attempts))

module _ (cfg : NotifyQueue) where
  unfoldable pub nack : Disposition
  unfolding milliseconds
  nack =
      if ltb_i64 0 (milliseconds cfg.nack_delay_ms)
      then nacked_with_delay (milliseconds cfg.nack_delay_ms)
      else nacked

  -- Why a job that failed is given up, if it is.
  unfoldable pub failure_reason : GoError → ℕ → Option DlqReason
  unfolding is_max_deliver_exceeded
  failure_reason e attempts =
      if is_permanent (some e)
      then some permanent_error
      else if is_max_deliver_exceeded attempts cfg.max_deliver
      then some max_deliver_exceeded
      else none

-- The fields of a dead letter.
unfoldable pub dlq_entry : QueueMessage → Job → DlqReason → GoError → ℕ → Int64 → Time → DlqEntry
unfolding error_text
dlq_entry message job reason cause attempts max_deliver at = record {
  job = job;
  reason = reason;
  error = trim_space (error_text cause);
  attempts = attempts;
  max_deliver = max_deliver;
  subject = message.subject;
  failed_at = at;
  original_msg_id = trim_space message.msg_id;
}

-- The result of a publish, whose error gets a prefix.
unfoldable pub labelled : {N : Type 0} → Text → N × Option GoError → N × Option GoError
labelled label (s, none) = (s, none)
labelled label (s, some e) = (s, some (wrapped label e))

module _ {N : Type 0} (w : QueueWorld N) where
  -- `Enqueue`.
  unfoldable pub enqueue : N → Job → N × Option GoError
  unfolding labelled
  enqueue s job = elim (w.marshal_job job) [
    | inl e ↦ (s, some (wrapped (codes "marshal notify queue job: ") e))
    | inr body ↦ labelled (codes "publish notify queue job: ") (
        w.publish s
          (record { subject = notify_queue_subject; msg_id = job_msg_id job; body = body }))
  ]

  -- The second half of `publishDLQ`.
  unfoldable pub publish_entry : N → Option Text → DlqEntry → N × Option GoError
  unfolding labelled
  publish_entry s msg_id entry = elim (w.marshal_entry entry) [
    | inl e ↦ (s, some (wrapped (codes "marshal notify dlq entry: ") e))
    | inr body ↦
        labelled (codes "publish notify dlq entry: ") (
          w.publish s (record { subject = notify_queue_dlq_subject; msg_id = msg_id; body = body }))
  ]

  -- `publishDLQ` of a worker whose DLQ is on.
  unfoldable pub publish_dlq :
      N → QueueMessage → Job → DlqReason → GoError → ℕ → Int64 → N × Option GoError
  unfolding dlq_entry dlq_msg_id publish_entry
  publish_dlq s message job reason cause attempts max_deliver =
      let (timed, at) = w.read_clock s in
      publish_entry timed (dlq_msg_id job reason attempts)
        (dlq_entry message job reason cause attempts max_deliver at)

  module _ (cfg : NotifyQueue) where
    -- The branch of a job whose handling failed.
    unfoldable pub handle_failure : N → QueueMessage → Job → GoError → N × Disposition
    unfolding nack failure_reason delivery_attempts publish_dlq
    handle_failure s message job e =
        let attempts = delivery_attempts message in
        elim (failure_reason cfg e attempts) [
          | none ↦ (s, nack cfg)
          | some reason ↦
              if cfg.dlq
              then (let (t, failure) =
                    publish_dlq s message job reason e attempts cfg.max_deliver in
                  elim failure [ none ↦ (t, acked) | some dlq_error ↦ (t, nack cfg) ])
              else (s, acked)
        ]

    -- What follows the handler's return.
    unfoldable pub settle : N → QueueMessage → Job → Option GoError → N × Disposition
    unfolding handle_failure
    settle s message job none = (s, acked)
    settle s message job (some e) = handle_failure s message job e

    -- The callback of `NewNATSWorker`.
    unfoldable pub process_message : N → QueueMessage → N × Disposition
    unfolding settle
    process_message s message = elim (w.unmarshal_job message.body) [
      | none ↦ (s, acked)
      | some job ↦ settle (w.handler s job).0 message job (w.handler s job).1
    ]
