-- ===== src/Retry/Tests.antt =====
-- internal/retry/strategy.go: runs of the strategy on a concrete configuration.
use howk.Prelude.{◌+◌, ◌*◌, ◌<◌, ◌≤◌, ◌≡◌, refl, true, false, none, [], ◌∷◌, arith}
use howk.Prelude.Int.{pos}
use howk.Domain.{closed, open_circuit}
use howk.Domain.Samples.{sample_webhook}
use howk.Retry.{
  RetryConfig, Fraction, minute, second, should_retry, base_delay_for, cap_delay, next_delay,
  retry_schedule,
}
use howk.Retry.Delay.{next_delay_bounds}

-- The defaults of the configuration: 10 seconds, 24 hours, 20 attempts and a jitter of 0.2.
abbrev defaults : RetryConfig
defaults = record {
  base_delay = 10 * second;
  max_delay = 1440 * minute;
  max_attempts = 20;
  jitter = record { num = 1; den = 5 };
}

abbrev quarter : Fraction
quarter = record { num = 1; den = 4 }

-- A sample of 1/4 takes a tenth away.
third_delay : next_delay defaults quarter (pos 3) closed ≡ 72 * second
unfolding next_delay
third_delay = refl

open_delay : next_delay defaults quarter (pos 3) open_circuit ≡ 270 * second
unfolding next_delay
open_delay = refl

first_rounds :
    retry_schedule (record defaults { max_attempts = 3 }) (λ i. quarter)
    ≡ 9 * second ∷ 27 * second ∷ 63 * second ∷ []
unfolding retry_schedule
first_rounds = refl

listed_status_is_retried : should_retry sample_webhook 404 none ≡ true
unfolding should_retry
listed_status_is_retried = refl

gone_is_not_retried : should_retry sample_webhook 410 none ≡ false
unfolding should_retry
gone_is_not_retried = refl

next_delay_bounds_example :
    let d = cap_delay defaults (base_delay_for defaults (pos 3) closed) in
    let delay = next_delay defaults quarter (pos 3) closed in
    (d ≤ 1440 * minute) × (d * 4 < (delay + 1) * 5) × (delay * 5 ≤ d * 6)
next_delay_bounds_example =
    next_delay_bounds defaults quarter (pos 3) closed
      (record { at_most_one = omega arith; den_pos = omega arith })
      (record { at_most_one = omega arith; den_pos = omega arith })
