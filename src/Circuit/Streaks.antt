-- ===== src/Circuit/Streaks.antt =====
-- internal/hotstate/redis.go: runs of failures and of successes.
use howk.Prelude.{
  ℕ, suc, ◌+◌, ◌≤◌, ◌<◌, ◌≡◌, List, [], ◌∷◌, some, arith, length, leb, if◌then◌else◌, Bool-cases,
  inl, inr,
}
use howk.Domain.{CircuitBreaker, closed, open_circuit, half_open}
use howk.Circuit.{CircuitConfig, succeed, fail}

unfoldable pub fail_all : CircuitConfig → List ℕ → CircuitBreaker → CircuitBreaker
fail_all c [] cb = cb
fail_all c (t ∷ ts) cb = fail_all c ts (fail c t cb)

unfoldable pub succeed_all : CircuitConfig → List ℕ → CircuitBreaker → CircuitBreaker
succeed_all c [] cb = cb
succeed_all c (t ∷ ts) cb = succeed_all c ts (succeed c t cb)

-- Each failure comes within the window of the one before it.
abbrev pub IsStreak : CircuitConfig → ℕ → List ℕ → Type 0
IsStreak c last [] = Unit
IsStreak c last (t ∷ ts) = (t < last + c.failure_window) × IsStreak c t ts

fail_open :
    (c : CircuitConfig) (t : ℕ) (cb : CircuitBreaker)
    → cb.state ≡ open_circuit
    → (fail c t cb).state ≡ open_circuit
unfolding fail
fail_open c t cb h = ground arith

fail_all_open :
    (c : CircuitConfig) (ts : List ℕ) (cb : CircuitBreaker)
    → cb.state ≡ open_circuit
    → (fail_all c ts cb).state ≡ open_circuit
unfolding fail_all
fail_all_open c [] cb h = h
fail_all_open c (t ∷ ts) cb h = fail_all_open c ts (fail c t cb) (fail_open c t cb h)

-- One failure of a streak, at a closed circuit.
fail_step :
    (c : CircuitConfig) (t last : ℕ) (cb : CircuitBreaker)
    → cb.state ≡ closed
    → cb.last_failure_at ≡ some last
    → t < last + c.failure_window
    → ((fail c t cb).failures ≡ cb.failures + 1)
      × ((fail c t cb).last_failure_at ≡ some t)
      × ((fail c t cb).state
          ≡ (if leb c.failure_threshold (cb.failures + 1) then open_circuit else closed))
unfolding fail
fail_step c t last cb s l w = (ground arith, ground arith, ground arith)

-- A closed circuit whose failures follow each other within the window is open exactly when their
-- number has reached the threshold.
fail_streak :
    (c : CircuitConfig) (ts : List ℕ) (last : ℕ) (cb : CircuitBreaker)
    → cb.state ≡ closed
    → cb.failures < c.failure_threshold
    → cb.last_failure_at ≡ some last
    → IsStreak c last ts
    → (fail_all c ts cb).state
      ≡ (if leb c.failure_threshold (cb.failures + length ts) then open_circuit else closed)
unfolding fail_all
fail_streak c [] last cb s b l w = ground arith
fail_streak c (t ∷ ts) last cb s b l w =
    let (n, at, st) = fail_step c t last cb s l w.0 in
    elim (Bool-cases (leb c.failure_threshold (cb.failures + 1))) [
      | inl reached ↦ let e = fail_all_open c ts (fail c t cb) (ground arith) in ground arith
      | inr below ↦
          let e = fail_streak c ts t (fail c t cb) (ground arith) (ground arith) at w.1 in
          ground arith
    ]

succeed_step :
    (c : CircuitConfig) (t : ℕ) (cb : CircuitBreaker)
    → cb.state ≡ half_open
    → cb.successes + 1 < c.success_threshold
    → ((succeed c t cb).state ≡ half_open) × ((succeed c t cb).successes ≡ cb.successes + 1)
unfolding succeed
succeed_step c t cb s h = (ground arith, ground arith)

succeed_last :
    (c : CircuitConfig) (t : ℕ) (cb : CircuitBreaker)
    → cb.state ≡ half_open
    → c.success_threshold ≤ cb.successes + 1
    → ((succeed c t cb).state ≡ closed) × ((succeed c t cb).failures ≡ 0)
unfolding succeed
succeed_last c t cb s h = (ground arith, ground arith)

-- Successes in a row close a half-open circuit exactly when, with those that it has, they reach the
-- threshold; until then it stays half open.
success_streak :
    (c : CircuitConfig) (t : ℕ) (ts : List ℕ) (cb : CircuitBreaker)
    → cb.state ≡ half_open
    → cb.successes + suc (length ts) ≤ c.success_threshold
    → let after = succeed_all c (t ∷ ts) cb in
      after.state
      ≡ (if leb c.success_threshold (cb.successes + suc (length ts)) then closed else half_open)
unfolding succeed_all
success_streak c t [] cb s h = elim (Bool-cases (leb c.success_threshold (cb.successes + 1))) [
  | inl e ↦ rw e (succeed_last c t cb s (ground arith)).0
  | inr e ↦ rw e (succeed_step c t cb s (ground arith)).0
]
success_streak c t (t' ∷ ts) cb s h =
    let (st, n) = succeed_step c t cb s (omega arith) in
    let e = success_streak c t' ts (succeed c t cb) st (omega arith) in ground arith
