-- ===== src/Notify/Retry.antt =====
-- internal/notify/notify.go: one notification is sent with the retry policy of its channel. The
-- logger leaves no trace; the timer is the call `wait`, and draining it has no effect of its own.
use malert.Domain.{Notification}
use malert.Permanent.{GoError, wrapped, is_permanent}
use malert.Queue.Job.{format_int}
use malert.Base.{
  Duration, Int64, add_i64, mul_i64, leb_i64, ltb_i64, Text, codes, Unicode, equal_fold, ℕ, zero,
  suc, Bool, ◌&&◌, Option, none, some, ◌++◌, if◌then◌else◌,
}
use malert.Config.Notify.{NotifyRetry}

pub record SendResult : Type 0 where
  pub message_id : Int64
  pub external_ref : Text

-- What a call of `Send` returns: a result with a nil error, or an error.
pub data Reply : Type 0 where
  delivered : SendResult → Reply
  refused : GoError → Reply

-- `ChannelSender`, whose calls change the state S of the world outside.
pub record Sender (S : Type 0) : Type 0 where
  pub channel : Text
  pub send : S → Notification → S × Reply

-- The select on the timer and the context: an error is that of the context, which ended first.
abbrev pub Timer : Type 0 → Type 0
Timer S = S → Duration → S × Option GoError

-- time.Duration(ms) * time.Millisecond.
unfoldable pub milliseconds : Int64 → Duration
milliseconds ms = mul_i64 ms 1000000

-- The backoff after a wait.
unfoldable pub next_backoff : Unicode → NotifyRetry → Duration → Duration
next_backoff u retry backoff =
    if equal_fold u retry.backoff (codes "exponential")
    then (let doubled = mul_i64 backoff 2 in
        let longest = milliseconds retry.max_ms in
        if ltb_i64 longest doubled then longest else doubled)
    else backoff

-- Whether the attempt was the last one that the policy allows.
unfoldable pub is_last_attempt : NotifyRetry → Int64 → Bool
is_last_attempt retry attempt = ltb_i64 0 retry.max_attempts && leb_i64 retry.max_attempts attempt

abbrev pub attempts_error : Text → Int64 → GoError → GoError
attempts_error channel attempt e =
    wrapped
      (codes "channel "
        ++ channel
        ++ codes " failed after "
        ++ format_int attempt
        ++ codes " attempts: ")
      e

-- A call that ends with its state and a reply, or `none` where the fuel runs out.
abbrev pub Sending : Type 0 → Type 0
Sending S = S × Option Reply

module _ {S : Type 0} (u : Unicode) (wait : Timer S) (sender : Sender S) where
  module _ (n : Notification) (retry : NotifyRetry) where
    -- The part of the loop after an error: the call is over, or goes on after the wait.
    unfoldable pub after_failure : Int64 → Duration → S → GoError → (S → Sending S) → Sending S
    after_failure attempt backoff s e again =
        if is_permanent (some e)
        then (s, some (refused e))
        else if is_last_attempt retry attempt
        then (s, some (refused (attempts_error sender.channel attempt e)))
        else (let (after_wait, ended) = wait s backoff in
            elim ended [
              | some reason ↦ (after_wait, some (refused reason))
              | none ↦ again after_wait
            ])

    -- One round of the loop, with what the sender replied.
    unfoldable pub after_reply : Int64 → Duration → S → Reply → (S → Sending S) → Sending S
    unfolding after_failure
    after_reply attempt backoff s (delivered result) again = (s, some (delivered result))
    after_reply attempt backoff s (refused e) again = after_failure attempt backoff s e again

    -- The loop, for at most `fuel` attempts. A policy without a limit may go on for ever.
    unfoldable pub send_attempts : ℕ → Int64 → Duration → S → Sending S
    unfolding after_reply
    send_attempts zero attempt backoff s = (s, none)
    send_attempts (suc fuel) attempt backoff s =
        let (after_send, reply) = sender.send s n in
        after_reply (add_i64 attempt 1) backoff after_send reply
          (send_attempts fuel (add_i64 attempt 1) (next_backoff u retry backoff))

    -- `sendWithRetry`.
    unfoldable pub send_with_retry : ℕ → S → Sending S
    unfolding send_attempts
    send_with_retry fuel s =
        if retry.enabled
        then send_attempts fuel 0 (milliseconds retry.initial_ms) s
        else (let (after_send, reply) = sender.send s n in (after_send, some reply))
