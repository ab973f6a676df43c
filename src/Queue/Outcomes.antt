-- ===== src/Queue/Outcomes.antt =====
-- internal/notifyqueue/nats.go: which messages of the queue are acknowledged, and what is left of a
-- job that is given up.
use malert.Permanent.{GoError}
use malert.Queue.Job.{Job}
use malert.Queue.Worker.{
  DlqReason, DlqEntry, QueueMessage, Published, acked, QueueWorld, notify_queue_dlq_subject,
  delivery_attempts, dlq_msg_id, dlq_entry, publish_dlq, failure_reason, handle_failure, nack,
  process_message, Disposition, settle, labelled, publish_entry,
}
use malert.Base.{
  is_some, trim_space, ◌≡◌, inr, true, none, some, List, [], ◌∷◌, ◌++◌, if◌then◌else◌, Option-cases,
  Sum-cases, refl, inl, codes, ◌≢◌, arith, ◌∙◌, Option, Text, before,
}
use malert.Config.Notify.{NotifyQueue}

-- The worlds whose successful publishes are logged.
unfoldable pub logged : {N : Type 0} → QueueWorld N → QueueWorld (N × List Published)
logged w = record {
  unmarshal_job = w.unmarshal_job;
  marshal_job = w.marshal_job;
  marshal_entry = w.marshal_entry;
  publish = λ s m. (
    ((w.publish s.0 m).0, if is_some (w.publish s.0 m).1 then s.1 else s.1 ++ (m ∷ [])),
    (w.publish s.0 m).1,
  );
  read_clock = λ s. (((w.read_clock s.0).0, s.1), (w.read_clock s.0).1);
  handler = λ s job. (((w.handler s.0 job).0, s.1), (w.handler s.0 job).1);
}

labelled_state : {N : Type 0} (label : Text) (r : N × Option GoError) → (labelled label r).0 ≡ r.0
unfolding labelled
labelled_state label (s, none) = refl
labelled_state label (s, some e) = refl

labelled-none :
    {N : Type 0} (label : Text) (r : N × Option GoError) → (labelled label r).1 ≡ none → r.1 ≡ none
unfolding labelled
labelled-none label (s, none) h = refl
labelled-none label (s, some e) h = cc

some_ne : {A : Type 0} {a : A} → some a ≢ none
some_ne h = cc

-- A successful publish leaves its message in the log.
logged_publish :
    {N : Type 0} (w : QueueWorld N) (s : N × List Published) (m : Published)
    → ((logged w).publish s m).1 ≡ none
    → ((logged w).publish s m).0.1 ≡ s.1 ++ (m ∷ [])
unfolding logged
logged_publish w s m h = rw h refl

-- An entry that is published without an error stands in the log, under its ID.
publish_entry-logged :
    {N : Type 0} (w : QueueWorld N) (s : N × List Published) (id : Option Text) (entry : DlqEntry)
    → (publish_entry (logged w) s id entry).1 ≡ none
    → (body : Text) × (w.marshal_entry entry ≡ inr body)
      × ((publish_entry (logged w) s id entry).0.1
          ≡ s.1 ++ (record { subject = notify_queue_dlq_subject; msg_id = id; body = body } ∷ []))
unfolding publish_entry logged
publish_entry-logged w s id entry h = elim (Sum-cases (w.marshal_entry entry)) [
  | inl (x, q) ↦ absurd (some_ne (rw (q, publish_entry) at h))
  | inr (body, q) ↦
      let m : Published = record { subject = notify_queue_dlq_subject; msg_id = id; body = body } in
      let sent = (logged w).publish s m in
      let label = codes "publish notify dlq entry: " in
      let quiet : sent.1 ≡ none = labelled-none label sent (rw (q, publish_entry) at h) in
      (body, q, rw (q, publish_entry, labelled_state label sent) (logged_publish w s m quiet))
]

nack_ne : (cfg : NotifyQueue) → nack cfg ≢ acked
unfolding nack
nack_ne cfg = ground arith

module _ {N : Type 0} (w : QueueWorld N) (cfg : NotifyQueue) where
  -- A dead letter of a job of a message: it stands on the subject of the DLQ, under an ID of the
  -- job, the reason and the delivery, and holds the job, the reason and the message's own ID.
  pub DeadLetter : QueueMessage → Job → DlqReason → Published → Type 0
  DeadLetter message job reason m =
      (m.subject ≡ notify_queue_dlq_subject)
      × (m.msg_id ≡ dlq_msg_id job reason (delivery_attempts message))
      × ((entry : DlqEntry) × (w.marshal_entry entry ≡ inr m.body)
          × (entry.job ≡ job)
          × (entry.reason ≡ reason)
          × (entry.attempts ≡ delivery_attempts message)
          × (entry.original_msg_id ≡ trim_space message.msg_id))

  -- A publish of a dead letter that succeeds leaves exactly that letter.
  publish_dlq-DeadLetter :
      (s : N × List Published) (message : QueueMessage) (job : Job) (reason : DlqReason)
      (e : GoError)
      → (publish_dlq
          (logged w)
          s
          message
          job
          reason
          e
          (delivery_attempts message)
          cfg.max_deliver).1
        ≡ none
      → (m : Published) × ((publish_dlq
            (logged w)
            s
            message
            job
            reason
            e
            (delivery_attempts message)
            cfg.max_deliver).0.1
          ≡ s.1 ++ (m ∷ []))
        × DeadLetter message job reason m
  unfolding publish_dlq logged DeadLetter dlq_entry
  publish_dlq-DeadLetter s message job reason e h =
      let timed : N × List Published = ((w.read_clock s.0).0, s.1) in
      let id = dlq_msg_id job reason (delivery_attempts message) in
      let entry =
        dlq_entry message job reason e (delivery_attempts message) cfg.max_deliver
          (w.read_clock s.0).1 in
      let (body, q, log) = publish_entry-logged w timed id entry h in
      (
        record { subject = notify_queue_dlq_subject; msg_id = id; body = body },
        log,
        (refl, refl, (entry, q, refl, refl, refl, refl)),
      )

  -- What a failure leaves of a job: an acknowledged message has its dead letter, if the DLQ is on.
  handle_failure-lossless :
      (s : N × List Published) (message : QueueMessage) (job : Job) (e : GoError)
      → cfg.dlq ≡ true
      → (handle_failure (logged w) cfg s message job e).1 ≡ acked
      → (reason : DlqReason) × (m : Published) × (failure_reason cfg e (delivery_attempts message)
          ≡ some reason)
        × ((handle_failure (logged w) cfg s message job e).0.1 ≡ s.1 ++ (m ∷ []))
        × DeadLetter message job reason m
  unfolding handle_failure
  handle_failure-lossless s message job e on h =
      elim (Option-cases (failure_reason cfg e (delivery_attempts message))) [
        | inl q ↦ absurd (nack_ne cfg (rw (q, handle_failure) at h))
        | inr (reason, q) ↦
            elim (Option-cases
              (publish_dlq (logged w) s message job reason e (delivery_attempts message)
                cfg.max_deliver).1) [
                  | inl p ↦
                      let (m, log, letter) = publish_dlq-DeadLetter s message job reason e p in
                      let same : (handle_failure (logged w) cfg s message job e).0.1
                          ≡ (publish_dlq (logged w) s message job reason e
                              (delivery_attempts message) cfg.max_deliver).0.1 =
                        rw (q, on, p, handle_failure) refl in
                      (reason, m, q, same ∙ log, letter)
                  | inr (x, p) ↦ absurd (nack_ne cfg (rw (q, on, p, handle_failure) at h))
                ]
      ]

  -- What is left of a job whose message was acknowledged: it was handled, and nothing was
  -- published, or its failure is final, and its dead letter was published.
  pub Traced :
      QueueMessage
      → Job
      → Option GoError
      → List Published
      → (N × List Published) × Disposition
      → Type 0
  Traced message job none before result = result.0.1 ≡ before
  Traced message job (some e) before result =
      (reason : DlqReason) × (m : Published) × (failure_reason cfg e (delivery_attempts message)
        ≡ some reason)
      × (result.0.1 ≡ before ++ (m ∷ []))
      × DeadLetter message job reason m

  settle-Traced :
      (s : N × List Published) (message : QueueMessage) (job : Job) (failure : Option GoError)
      → cfg.dlq ≡ true
      → (settle (logged w) cfg s message job failure).1 ≡ acked
      → Traced message job failure s.1 (settle (logged w) cfg s message job failure)
  unfolding settle Traced
  settle-Traced s message job none on h = refl
  settle-Traced s message job (some e) on h = handle_failure-lossless s message job e on h

  -- With the DLQ on, and for a message whose body holds a job: if the message is acknowledged, then
  -- either the handler returned no error and nothing was published, or the failure of the handler is
  -- final and exactly one dead letter was published, which holds the job, the reason and the
  -- message's own ID. Nothing is said of a message that is not acknowledged.
  pub process_message-Traced :
      (s : N × List Published) (message : QueueMessage) (job : Job)
      → cfg.dlq ≡ true
      → w.unmarshal_job message.body ≡ some job
      → (process_message (logged w) cfg s message).1 ≡ acked
      → Traced message job (w.handler s.0 job).1 s.1 (process_message (logged w) cfg s message)
  unfolding process_message logged
  process_message-Traced s message job on q h =
      rw (q, process_message)
        (settle-Traced ((w.handler s.0 job).0, s.1) message job (w.handler s.0 job).1 on
          (rw (q, process_message) at h))
