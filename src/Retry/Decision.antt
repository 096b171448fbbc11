-- ===== src/Retry/Decision.antt =====
-- internal/retry/strategy.go: when a failed delivery is tried again.
use howk.Prelude.{
  ℕ, ◌≤◌, ◌≡◌, ◌⊎◌, inl, inr, ◌↔◌, true, List, [], ◌∷◌, Option, some, arith, ◌==◌, any,
}
use howk.Prelude.Int.{◌<ℤ◌}
use howk.Prelude.Text.{Bytes}
use howk.Domain.{Webhook}
use howk.Retry.{should_retry}

-- The status is one of those that the script asked to retry.
abbrev pub Listed : ℕ → List ℕ → Type 0
Listed s [] = ⊥
Listed s (x ∷ xs) = (x ≡ s) ⊎ Listed s xs

any→Listed : (s : ℕ) (xs : List ℕ) → any (λ x. x == s) xs ≡ true → Listed s xs
any→Listed s [] h = cc
any→Listed s (x ∷ xs) h = ground (arith, any→Listed s xs)

Listed→any : (s : ℕ) (xs : List ℕ) → Listed s xs → any (λ x. x == s) xs ≡ true
Listed→any s [] l = absurd l
Listed→any s (x ∷ xs) (inl e) = ground arith
Listed→any s (x ∷ xs) (inr l) = ground (arith, Listed→any s xs l)

abbrev pub Retryable : Webhook → ℕ → Option Bytes → Type 0
Retryable w status err =
    (w.attempt <ℤ w.max_attempts)
    × (((e : Bytes) × (err ≡ some e))
        ⊎ Listed status w.retry_on_status
        ⊎ (500 ≤ status)
        ⊎ (status ≡ 408)
        ⊎ (status ≡ 429))

retry_sound :
    (w : Webhook) (status : ℕ) (err : Option Bytes)
    → should_retry w status err ≡ true
    → Retryable w status err
unfolding should_retry
retry_sound w status err h = ground (arith, any→Listed status w.retry_on_status)

retry_complete :
    (w : Webhook) (status : ℕ) (err : Option Bytes)
    → Retryable w status err
    → should_retry w status err ≡ true
unfolding should_retry
retry_complete w status err h = ground (arith, Listed→any status w.retry_on_status)

-- A failed delivery is tried again exactly if attempts are left and there was a network error,
-- the script listed the status, or it is 5xx or more, 408 or 429.
should_retry_iff :
    (w : Webhook) (status : ℕ) (err : Option Bytes)
    → (should_retry w status err ≡ true) ↔ Retryable w status err
should_retry_iff w status err = (retry_sound w status err, retry_complete w status err)
