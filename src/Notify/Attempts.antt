-- ===== src/Notify/Attempts.antt =====
-- internal/notify/notify.go: how often a notification is sent, and how the attempts end.
use malert.Domain.{Notification}
use malert.Permanent.{GoError, is_permanent, wrapped}
use malert.Base.{
  leb, Duration, int64_half, Unicode, ℕ, zero, suc, ◌+◌, ◌≤◌, ◌<◌, ◌≡◌, refl, ◌⊎◌, inl, inr, true,
  false, Option, some, List, [], ◌∷◌, ◌++◌, arith, Bool-cases, leb_i64, ltb_i64, Option-cases,
  add_i64, Text, codes, ap, none,
}
use malert.Notify.Retry.{
  SendResult, Reply, delivered, refused, Sender, Timer, is_last_attempt, send_attempts, Sending,
  after_failure, attempts_error, send_with_retry, next_backoff, after_reply,
}
use malert.Notify.Schedule.{backoff_after, waits_before}
use malert.Config.Notify.{NotifyRetry}
use malert.Queue.Job.{format_int}

-- The calls of a sender and of its timer: how often, the latest reply, and the latest error of the
-- context, if a wait was cut short.
pub record Log : Type 0 where
  pub sends : ℕ
  pub waits : List Duration
  pub latest : Option Reply
  pub ended : Option GoError

-- A sender whose calls are logged.
unfoldable pub logged_sender : {S : Type 0} → Sender S → Sender (S × Log)
logged_sender sender = record {
  channel = sender.channel;
  send = λ s n.
      let (after_send, reply) = sender.send s.0 n in
      ((after_send, record s.1 { sends = suc s.1.sends; latest = some reply }), reply);
}

unfoldable pub logged_timer : {S : Type 0} → Timer S → Timer (S × Log)
logged_timer wait s d =
    let (after_wait, error) = wait s.0 d in
    ((after_wait, record s.1 { waits = s.1.waits ++ (d ∷ []); ended = error }), error)

-- How the attempts of a policy with a limit may end, after a number of waits and with a log: with
-- the result of the latest send; with its error, which is permanent; after `limit` sends, with the
-- error of the latest one, wrapped in "channel <channel> failed after <limit> attempts"; or with the
-- error of the context that cut the latest wait short.
pub Ending : ℕ → Text → ℕ → Log → Reply → Type 0
Ending limit channel waits log (delivered result) =
    (log.sends ≡ waits + 1) × (log.latest ≡ some (delivered result))
Ending limit channel waits log (refused e) =
    ((log.sends ≡ waits + 1) × (log.latest ≡ some (refused e)) × (is_permanent (some e) ≡ true))
    ⊎ ((cause : GoError) × (log.sends ≡ waits + 1)
        × (log.sends ≡ limit)
        × (log.latest ≡ some (refused cause))
        × (is_permanent (some cause) ≡ false)
        × (e
            ≡ wrapped
                (codes "channel "
                  ++ channel
                  ++ codes " failed after "
                  ++ format_int limit
                  ++ codes " attempts: ")
                cause))
    ⊎ ((log.sends ≡ waits)
        × (log.ended ≡ some e)
        × ((cause : GoError) × (log.latest ≡ some (refused cause))
            × (is_permanent (some cause) ≡ false)))

Reply-cases :
    (r : Reply) → ((x : SendResult) × (r ≡ delivered x)) ⊎ ((e : GoError) × (r ≡ refused e))
Reply-cases (delivered x) = inl (x, refl)
Reply-cases (refused e) = inr (e, refl)

next_attempt : (attempt : ℕ) → suc attempt < int64_half → add_i64 attempt 1 ≡ suc attempt
unfolding add_i64
next_attempt attempt h = omega arith

is_last_attempt-leb :
    (retry : NotifyRetry) (attempt : ℕ)
    → 0 < retry.max_attempts
    → retry.max_attempts < int64_half
    → attempt ≤ retry.max_attempts
    → is_last_attempt retry attempt ≡ leb retry.max_attempts attempt
unfolding is_last_attempt ltb_i64 leb_i64
is_last_attempt-leb retry attempt pos small h = ground arith

module _ {S : Type 0} (u : Unicode) (wait : Timer S) (sender : Sender S) (n : Notification)
    (retry : NotifyRetry) where
  -- The attempts end with a reply, and the log then holds at least one and at most `max_attempts` calls of the
  -- sender, with the first waits of the policy between them.
  pub Ends : (S × Log) × Option Reply → Type 0
  Ends (s, reply) =
      (r : Reply) × (waits : ℕ) × (reply ≡ some r)
      × (s.1.waits ≡ waits_before u retry waits)
      × (0 < s.1.sends)
      × (s.1.sends ≤ retry.max_attempts)
      × Ending retry.max_attempts sender.channel waits s.1 r

  -- The log after a number of sends and the first waits.
  log : ℕ → ℕ → Option Reply → Option GoError → Log
  log sends waits latest ended = record {
    sends = sends;
    waits = waits_before u retry waits;
    latest = latest;
    ended = ended;
  }

  Ends-intro :
      (s : S) (r : Reply) (earlier waits : ℕ) (latest : Option Reply) (ended : Option GoError)
      → suc earlier ≤ retry.max_attempts
      → Ending retry.max_attempts sender.channel waits (log (suc earlier) waits latest ended) r
      → Ends ((s, log (suc earlier) waits latest ended), some r)
  unfolding Ends log
  Ends-intro s r earlier waits latest ended h ending =
      (r, waits, refl, refl, omega arith, h, ending)

  -- What goes on after a wait ends well.
  GoesOn : ℕ → (S × Log → Sending (S × Log)) → Type 0
  GoesOn attempt again =
      (t : S) (latest : Option Reply) (ended : Option GoError)
      → suc attempt < retry.max_attempts
      → Ends (again (t, log (suc attempt) (suc attempt) latest ended))

  module _ (positive : 0 < retry.max_attempts) (small : retry.max_attempts < int64_half) where
    -- After a failed attempt with the given number.
    failure-Ends :
        (attempt : ℕ) (s : S) (ended : Option GoError) (e : GoError)
        (again : S × Log → Sending (S × Log))
        → suc attempt ≤ retry.max_attempts
        → GoesOn attempt again
        → Ends (
            after_failure u
              (logged_timer wait)
              (logged_sender sender)
              n
              retry
              (suc attempt)
              (backoff_after u retry attempt)
              (s, log (suc attempt) attempt (some (refused e)) ended)
              e
              again)
    unfolding GoesOn after_failure logged_sender logged_timer Ending waits_before log is_permanent
    failure-Ends attempt s ended e again h next = elim (Bool-cases (is_permanent (some e))) [
      | inl p ↦ rw p (
          Ends-intro s (refused e) attempt attempt (some (refused e)) ended h
            (inl (omega arith, refl, p)))
      | inr p ↦ elim (Bool-cases (leb retry.max_attempts (suc attempt))) [
        | inl b ↦
            let limit : suc attempt ≡ retry.max_attempts = ground (arith, b, h) in
            rw (p, is_last_attempt-leb retry (suc attempt) positive small h, b)
              (Ends-intro s (refused (attempts_error sender.channel (suc attempt) e)) attempt
                attempt (some (refused e)) ended h
                (inr (
                  inl (
                    e,
                    omega arith,
                    limit,
                    refl,
                    p,
                    ap (λ k. attempts_error sender.channel k e) limit,
                  ))))
        | inr b ↦
            let waited = wait s (backoff_after u retry attempt) in
            elim (Option-cases waited.1) [
              | inl q ↦
                  rw (p, is_last_attempt-leb retry (suc attempt) positive small h, b, q)
                    (next waited.0 (some (refused e)) waited.1 (ground (arith, b)))
              | inr (reason, q) ↦
                  rw (p, is_last_attempt-leb retry (suc attempt) positive small h, b, q)
                    (Ends-intro waited.0 (refused reason) attempt (suc attempt) (some (refused e))
                      waited.1 h (inr (inr (refl, q, (e, refl, p)))))
            ]
      ]
    ]

    reply-Ends :
        (attempt : ℕ) (s : S) (ended : Option GoError) (r : Reply)
        (again : S × Log → Sending (S × Log))
        → suc attempt ≤ retry.max_attempts
        → GoesOn attempt again
        → Ends (
            after_reply u
              (logged_timer wait)
              (logged_sender sender)
              n
              retry
              (suc attempt)
              (backoff_after u retry attempt)
              (s, log (suc attempt) attempt (some r) ended)
              r
              again)
    unfolding after_reply Ending log
    reply-Ends attempt s ended (delivered x) again h next =
        Ends-intro s (delivered x) attempt attempt (some (delivered x)) ended h (omega arith, refl)
    reply-Ends attempt s ended (refused e) again h next =
        failure-Ends attempt s ended e again h next

    attempts_end :
        (fuel attempt : ℕ) (s : S) (latest : Option Reply) (ended : Option GoError)
        → attempt + fuel ≡ retry.max_attempts
        → 0 < fuel
        → Ends (
            send_attempts u
              (logged_timer wait)
              (logged_sender sender)
              n
              retry
              fuel
              attempt
              (backoff_after u retry attempt)
              (s, log attempt attempt latest ended))
    unfolding send_attempts logged_sender backoff_after log GoesOn
    attempts_end zero attempt s latest ended limit h = absurd (omega arith)
    attempts_end (suc fuel) attempt s latest ended limit h =
        let sent_once = sender.send s n in
        rw (next_attempt attempt (omega arith), send_attempts)
          (reply-Ends attempt sent_once.0 ended sent_once.1 _ (omega arith) (λ t said cut more.
            attempts_end fuel (suc attempt) t said cut (omega arith) (omega arith)))

    -- With an enabled policy of a positive number of attempts, fewer than 2^63, and that number as
    -- fuel, sending a notification comes to an end whatever the sender replies: it is called at
    -- least once and at most max_attempts times, the waits between its calls are the first ones of
    -- the schedule, and the end is the result of the latest call; its error, if that is permanent;
    -- the error of the call number max_attempts, wrapped in the channel's name and that number; or
    -- the error of the context, which cut short the wait after a call that failed.
    pub send_with_retry-Ends :
        retry.enabled ≡ true
        → (s : S)
        → Ends (
            send_with_retry u
              (logged_timer wait)
              (logged_sender sender)
              n
              retry
              retry.max_attempts
              (s, record { sends = 0; waits = []; latest = none; ended = none }))
    unfolding send_with_retry waits_before backoff_after is_last_attempt next_backoff log Ends
    send_with_retry-Ends on s =
        rw on (attempts_end retry.max_attempts 0 s none none (omega arith) positive)
