-- ===== src/Circuit/Transitions.antt =====
-- internal/hotstate/redis.go: what each operation does to the state of a circuit.
use howk.Prelude.{ℕ, ◌+◌, ◌≤◌, ◌<◌, ◌≡◌, ◌≢◌, Option, none, some, arith, ltb, if◌then◌else◌}
use howk.Prelude.Text.{Bytes}
use howk.Domain.{CircuitBreaker, CircuitState, closed, open_circuit, half_open}
use howk.Redis.{replied}
use howk.Circuit.{
  CircuitConfig, Saved, Endpoint, get_breaker, save_breaker, to_half_open, succeed, fail,
  should_allow, probe, deny, after_get,
}

-- The thresholds are positive.
pub record IsUsable (c : CircuitConfig) : Type 0 where
  pub failures_pos : 0 < c.failure_threshold
  pub successes_pos : 0 < c.success_threshold

-- A closed circuit is below the failure threshold, one that is not closed has seen a failure, and
-- a half-open one has at most the successes that close it.
pub record IsWellFormed (c : CircuitConfig) (cb : CircuitBreaker) : Type 0 where
  pub below : cb.state ≡ closed → cb.failures < c.failure_threshold
  pub failed : cb.state ≢ closed → 0 < cb.failures
  pub probing : cb.state ≡ half_open → cb.successes ≤ c.success_threshold

-- What Redis holds of an endpoint is well formed.
abbrev pub HoldsWellFormed : CircuitConfig → Option Saved → Type 0
HoldsWellFormed c none = Unit
HoldsWellFormed c (some s) = IsWellFormed c s.value

module _ {c : CircuitConfig} (u : IsUsable c) where
  pub get-IsWellFormed :
      (hash : Bytes) (now : ℕ) (o : Option Saved)
      → HoldsWellFormed c o
      → IsWellFormed c (get_breaker hash now o)
  unfolding get_breaker
  get-IsWellFormed hash now none h = ground arith
  get-IsWellFormed hash now (some s) h = ground arith

  pub succeed-IsWellFormed :
      (now : ℕ) (cb : CircuitBreaker) → IsWellFormed c cb → IsWellFormed c (succeed c now cb)
  unfolding succeed
  succeed-IsWellFormed now cb h = ground arith

  pub fail-IsWellFormed :
      (now : ℕ) (cb : CircuitBreaker) → IsWellFormed c cb → IsWellFormed c (fail c now cb)
  unfolding fail
  fail-IsWellFormed now cb h = ground arith

  pub to_half_open-IsWellFormed :
      (now : ℕ) (cb : CircuitBreaker)
      → cb.state ≡ open_circuit
      → IsWellFormed c cb
      → IsWellFormed c (to_half_open c now cb)
  unfolding to_half_open
  to_half_open-IsWellFormed now cb e h = ground arith

-- What a success may do to a circuit's state, and what a failure may do.
pub data SuccessEdge : CircuitState → CircuitState → Type 0 where
  stays_closed : SuccessEdge closed closed
  keeps_probing : SuccessEdge half_open half_open
  closes : SuccessEdge half_open closed
  recovers : SuccessEdge open_circuit half_open

pub data FailureEdge : CircuitState → CircuitState → Type 0 where
  tolerates : FailureEdge closed closed
  trips : FailureEdge closed open_circuit
  reopens : FailureEdge half_open open_circuit
  stays_open : FailureEdge open_circuit open_circuit

-- A success closes a circuit only from half open and always leaves the open state; a failure opens
-- a half-open circuit at once and never closes one.
record_edges :
    (c : CircuitConfig) (now : ℕ) (cb : CircuitBreaker)
    → SuccessEdge cb.state (succeed c now cb).state × FailureEdge cb.state (fail c now cb).state
unfolding succeed fail
record_edges c now cb = (
  grind (arith, stays_closed, keeps_probing, closes, recovers),
  grind (arith, tolerates, trips, reopens, stays_open),
)

-- A circuit that has been open for longer than the recovery timeout lets the next request through
-- as a probe and is then half open in Redis, if Redis answers; until then it lets none through and
-- nothing changes.
open_recovers :
    (c : CircuitConfig) (hash : Bytes) (now : ℕ) (e : Endpoint)
    → (get_breaker hash now e.circuit).state ≡ open_circuit
    → let cb = get_breaker hash now e.circuit in
      should_allow c hash now replied replied replied e ≡ (
        if ltb (cb.state_changed_at + c.recovery_timeout) now
        then (probe, save_breaker c now (to_half_open c now cb) e)
        else (deny, e))
unfolding should_allow
open_recovers c hash now e h = rw h (rw (h, after_get) (ground arith))
