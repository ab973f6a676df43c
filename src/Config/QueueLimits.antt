-- ===== src/Config/QueueLimits.antt =====
-- internal/config/config.go, `applyDefaults` and `validateConfig`: what the defaults leave of the
-- checks of the queue.
use malert.Base.{
  Bool-cases, Int64, int64_mod, leb_i64, ltb_i64, Text, codes, ◌<◌, ◌≡◌, refl, ◌↔◌, inl, inr, Bool,
  true, false, not, ◌&&◌, none, List, [], ◌∷◌, arith, if◌then◌else◌,
}
use malert.Config.ValidateConfig.{is_bad_max_deliver, queue_checks}
use malert.Config.Checks.{
  first_failing, first_failing_only, first_failing_both, is_nonpositive, is_negative,
}
use malert.Config.Defaults.{
  positive_or, nonzero_or, delay_or, default_nats_max_deliver, queue_defaults,
}
use malert.Config.Notify.{NotifyQueue}

positive_or_positive :
    (n d : Int64) → is_nonpositive d ≡ false → is_nonpositive (positive_or n d) ≡ false
positive_or_positive n d h = elim (Bool-cases (is_nonpositive n)) [
  | inl e ↦ rw e h
  | inr e ↦ rw (e, e) refl
]

delay_or_nonnegative : (n d : Int64) → is_negative d ≡ false → is_negative (delay_or n d) ≡ false
delay_or_nonnegative n d h = ground (arith, h)

-- A limit on the deliveries is only bad if it was below -1.
max_deliver_bad :
    (n : Int64)
    → n < int64_mod
    → is_bad_max_deliver (nonzero_or n default_nats_max_deliver)
      ≡ ltb_i64 n default_nats_max_deliver
unfolding ltb_i64
max_deliver_bad n h = ground arith

not_negative : is_negative 1000 ≡ false
unfolding ltb_i64
not_negative = refl

only_check :
    {E : Type 0} (bad : Bool) (a b c d : E)
    → (first_failing ((false, a) ∷ (false, b) ∷ (bad, c) ∷ (false, d) ∷ []) ≡ none) ↔ (bad ≡ false)
unfolding first_failing
only_check true a b c d = (λ h. cc, λ h. cc)
only_check false a b c d = (λ h. refl, λ h. refl)

no_checks : {E : Type 0} → first_failing {E = E} [] ≡ none
unfolding first_failing
no_checks = refl

enabled_queue_checks :
    (enabled : Bool) (queue : NotifyQueue)
    → queue.max_deliver < int64_mod
    → (first_failing (
          if not enabled
          then []
          else (
            is_nonpositive (positive_or queue.ack_wait_sec 30),
            codes "notify.queue.ack_wait_sec must be >0",
          )
            ∷ (
              is_negative (delay_or queue.nack_delay_ms 1000),
              codes "notify.queue.nack_delay_ms must be >=0",
            )
            ∷ (
              is_bad_max_deliver (nonzero_or queue.max_deliver default_nats_max_deliver),
              codes "notify.queue.max_deliver must be -1 or >0",
            )
            ∷ (
              is_nonpositive (positive_or queue.max_ack_pending 2048),
              codes "notify.queue.max_ack_pending must be >0",
            )
            ∷ [])
        ≡ none)
      ↔ ((enabled && ltb_i64 queue.max_deliver default_nats_max_deliver) ≡ false)
unfolding leb_i64
enabled_queue_checks false queue h = (λ e. refl, λ e. no_checks)
enabled_queue_checks true queue h =
    rw
      (
        positive_or_positive queue.ack_wait_sec 30 refl,
        delay_or_nonnegative queue.nack_delay_ms 1000 not_negative,
        max_deliver_bad queue.max_deliver h,
        positive_or_positive queue.max_ack_pending 2048 refl,
      )
      (only_check _ _ _ _ _)

-- In nats mode the checks of the queue can fail after the defaults in two ways only: a queue that is
-- enabled has a max_deliver below -1, or the DLQ is on without the queue.
pub queue_defaults-queue_checks :
    (urls : List Text) (queue : NotifyQueue)
    → queue.max_deliver < int64_mod
    → (first_failing (queue_checks (queue_defaults urls queue)) ≡ none) ↔ (
        ((queue.enabled && ltb_i64 queue.max_deliver default_nats_max_deliver) ≡ false)
        × ((queue.dlq && not queue.enabled) ≡ false))
unfolding queue_checks queue_defaults
queue_defaults-queue_checks urls queue h =
    first_failing_both _ _ (enabled_queue_checks queue.enabled queue h)
      (first_failing_only _ (λ e. e, λ e. e))
