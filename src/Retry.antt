-- ===== src/Retry.antt =====
-- internal/retry/strategy.go and `RetryConfig` of internal/config/config.go. A `time.Duration` is
-- its nanoseconds. The floats of the source are exact fractions here: the configured jitter and
-- the sample that `rand.Float64` gives, in [0, 1); a product with a power of two is exact in both.
pub mod Decision
pub mod Delay
mod Tests
use howk.Prelude.{
  ℕ, ◌+◌, ◌-◌, ◌*◌, ◌/◌, ◌^◌, zero, suc, Bool, true, false, not, List, [], ◌∷◌, Option, none, some,
  ltb, leb, ◌==◌, if◌then◌else◌, any,
}
use Prim.Native.Nat.{min}
use howk.Prelude.Int.{ℤ, pos, negsuc, ltb_ℤ}
use howk.Prelude.Text.{Bytes}
use howk.Domain.{Webhook, CircuitState, closed, open_circuit, half_open, is_retryable}

-- A fraction `num / den`.
pub record Fraction : Type 0 where
  pub num : ℕ
  pub den : ℕ

pub record RetryConfig : Type 0 where
  pub base_delay : ℕ
  pub max_delay : ℕ
  pub max_attempts : ℕ
  pub jitter : Fraction

abbrev pub minute : ℕ
minute = 60000000000

abbrev pub second : ℕ
second = 1000000000

abbrev is_error : Option Bytes → Bool
is_error none = false
is_error (some e) = true

-- `err` is the error of the HTTP call, if there was one.
unfoldable pub should_retry : Webhook → ℕ → Option Bytes → Bool
unfolding is_retryable
should_retry webhook status_code err =
    if not (ltb_ℤ webhook.attempt webhook.max_attempts)
    then false
    else if is_error err
    then true
    else if any (λ s. s == status_code) webhook.retry_on_status
    then true
    else is_retryable status_code

-- `BaseDelay * 2^min(attempt, 10)`; a negative attempt divides.
unfoldable pub backoff : ℕ → ℤ → ℕ
backoff base (pos n) = base * 2 ^ min n 10
backoff base (negsuc n) = base / 2 ^ (n + 1)

-- The `switch` of `NextDelay`.
unfoldable pub base_delay_for : RetryConfig → ℤ → CircuitState → ℕ
unfolding backoff
base_delay_for c attempt open_circuit = 5 * minute
base_delay_for c attempt half_open = 30 * second
base_delay_for c attempt closed = backoff c.base_delay attempt

unfoldable pub cap_delay : RetryConfig → ℕ → ℕ
cap_delay c d = if ltb c.max_delay d then c.max_delay else d

-- d + (2r - 1) · d · jitter, truncated, over the common denominator.
unfoldable pub add_jitter : RetryConfig → Fraction → ℕ → ℕ
add_jitter c r d =
    if c.jitter.num == 0
    then d
    else (d * c.jitter.den * r.den + 2 * (d * c.jitter.num * r.num) - d * c.jitter.num * r.den)
      / (c.jitter.den * r.den)

unfoldable pub next_delay : RetryConfig → Fraction → ℤ → CircuitState → ℕ
unfolding base_delay_for cap_delay add_jitter
next_delay c r attempt state = add_jitter c r (cap_delay c (base_delay_for c attempt state))

unfoldable pub next_retry_at : RetryConfig → Fraction → ℕ → ℤ → CircuitState → ℕ
unfolding next_delay
next_retry_at c r now attempt state = now + next_delay c r attempt state

unfoldable pub is_exhausted : RetryConfig → ℤ → Bool
is_exhausted c attempt = not (ltb_ℤ attempt (pos c.max_attempts))

-- The loop of `RetrySchedule` from attempt `i` with `n` rounds left; the source then prints each
-- total. `samples` is what the generator gives in each round.
unfoldable pub retry_schedule_from : RetryConfig → (ℕ → Fraction) → ℕ → ℕ → ℕ → List ℕ
unfolding next_delay
retry_schedule_from c samples i total zero = []
retry_schedule_from c samples i total (suc n) =
    let total' = total + next_delay c (samples i) (pos i) closed in
    total' ∷ retry_schedule_from c samples (i + 1) total' n

unfoldable pub retry_schedule : RetryConfig → (ℕ → Fraction) → List ℕ
unfolding retry_schedule_from
retry_schedule c samples = retry_schedule_from c samples 0 0 c.max_attempts
