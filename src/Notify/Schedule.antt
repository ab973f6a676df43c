-- ===== src/Notify/Schedule.antt =====
-- internal/notify/notify.go: the waits of a retry policy in closed form.
use Prim.Native.Nat.{min, ◌^◌}
use malert.Base.{
  Duration, mul_i64, ltb_i64, codes, Unicode, equal_fold, ℕ, zero, suc, ◌*◌, ◌≤◌, ◌≡◌, refl, true,
  false, List, [], ◌∷◌, ◌++◌, arith,
}
use malert.Notify.Retry.{milliseconds, next_backoff}
use malert.Config.Notify.{NotifyRetry}

-- The backoff after a number of waits.
unfoldable pub backoff_after : Unicode → NotifyRetry → ℕ → Duration
backoff_after u retry zero = milliseconds retry.initial_ms
backoff_after u retry (suc i) = next_backoff u retry (backoff_after u retry i)

-- The first waits of a policy, in order.
unfoldable pub waits_before : Unicode → NotifyRetry → ℕ → List Duration
waits_before u retry zero = []
waits_before u retry (suc i) = waits_before u retry i ++ (backoff_after u retry i ∷ [])

-- Four trillion milliseconds: twice that duration is still an int64.
abbrev pub max_milliseconds : ℕ
max_milliseconds = 4000000000000

module _ (u : Unicode) (retry : NotifyRetry) where
  module _ (exponential : equal_fold u retry.backoff (codes "exponential") ≡ true)
      (initial : retry.initial_ms ≤ max_milliseconds)
      (longest : retry.max_ms ≤ max_milliseconds) where
    next_backoff_doubled :
        (b : ℕ)
        → b ≤ max_milliseconds * 1000000
        → next_backoff u retry b ≡ min (2 * b) (retry.max_ms * 1000000)
    unfolding next_backoff milliseconds mul_i64 ltb_i64
    next_backoff_doubled b h = rw exponential (ground arith)

    doubled_waits :
        (i : ℕ)
        → backoff_after u retry (suc i) ≡ min (retry.initial_ms * 2 ^ suc i) retry.max_ms * 1000000
    unfolding backoff_after milliseconds mul_i64
    doubled_waits zero =
        rw (next_backoff_doubled (milliseconds retry.initial_ms) (omega arith)) (omega arith)
    doubled_waits (suc i) =
        let before = doubled_waits i in
        let bound : backoff_after u retry (suc i) ≤ max_milliseconds * 1000000 = omega arith in
        let doubled : 2 ^ suc (suc i) ≡ 2 * 2 ^ suc i = omega arith in
        rw (next_backoff_doubled (backoff_after u retry (suc i)) bound, before, doubled)
          (omega arith)

    -- Where initial_ms and max_ms are each from 0 to 4*10^12, the first wait of an exponential policy
    -- is initial_ms whatever max_ms is, and each later one, after i + 1 waits, is the least of
    -- initial_ms * 2 ^ (i + 1) and max_ms.
    pub backoff_after-exponential :
        (i : ℕ)
        → (backoff_after u retry 0 ≡ retry.initial_ms * 1000000)
          × (backoff_after u retry (suc i)
              ≡ min (retry.initial_ms * 2 ^ suc i) retry.max_ms * 1000000)
    unfolding backoff_after milliseconds mul_i64
    backoff_after-exponential i = (omega arith, doubled_waits i)

  -- Any other policy waits for `initial_ms` every time.
  pub backoff_after-constant :
      equal_fold u retry.backoff (codes "exponential") ≡ false
      → (i : ℕ) → backoff_after u retry i ≡ milliseconds retry.initial_ms
  unfolding backoff_after next_backoff
  backoff_after-constant e zero = refl
  backoff_after-constant e (suc i) = rw (e, backoff_after-constant e i) refl
