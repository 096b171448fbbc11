-- ===== src/Circuit.antt =====
-- internal/hotstate/redis.go: the circuit breaker of one endpoint. `Endpoint` is what Redis holds
-- of it: the key circuit:<hash> and the lock probe_lock:<hash>, each with its expiry.
pub mod Transitions
pub mod Streaks
pub mod Workers
pub mod Probes
pub mod Tests
use howk.Prelude.{
  ℕ, ◌+◌, ◌*◌, Bool, true, false, not, ◌&&◌, Option, none, some, ltb, leb, ◌==◌, if◌then◌else◌,
}
use howk.Prelude.Text.{Bytes}
use howk.Redis.{Reply, replied, lost, late, wrote, arrived, reported, Entry, expiry, is_live}
use howk.Domain.{CircuitBreaker, CircuitState, closed, open_circuit, half_open}

pub record CircuitConfig : Type 0 where
  pub failure_threshold : ℕ
  pub failure_window : ℕ
  pub recovery_timeout : ℕ
  pub probe_interval : ℕ
  pub success_threshold : ℕ
  pub circuit_state_ttl : ℕ

abbrev pub Saved : Type 0
Saved = Entry CircuitBreaker

-- The value of the lock is the string "1".
abbrev pub Lock : Type 0
Lock = Entry (Unit {0})

pub record Endpoint : Type 0 where
  pub circuit : Option Saved
  pub probe_lock : Option Lock

unfoldable pub fresh_breaker : Bytes → ℕ → CircuitBreaker
fresh_breaker hash now = record {
  endpoint_hash = hash;
  state = closed;
  failures = 0;
  successes = 0;
  last_failure_at = none;
  last_success_at = none;
  state_changed_at = now;
  next_probe_at = none;
}

-- `Get` and `getWithTx`, where Redis answers.
unfoldable pub get_breaker : Bytes → ℕ → Option Saved → CircuitBreaker
unfolding fresh_breaker
get_breaker hash now none = fresh_breaker hash now
get_breaker hash now (some s) = if is_live now s.expires then s.value else fresh_breaker hash now

abbrev pub is_closed : CircuitState → Bool
is_closed closed = true
is_closed _ = false

abbrev pub is_open : CircuitState → Bool
is_open open_circuit = true
is_open _ = false

unfoldable pub save_ttl : CircuitConfig → CircuitBreaker → ℕ
save_ttl c cb =
    if is_closed cb.state && cb.failures == 0 then 2 * c.recovery_timeout else c.circuit_state_ttl

-- `save` and `saveWithTx`.
unfoldable pub save_breaker : CircuitConfig → ℕ → CircuitBreaker → Endpoint → Endpoint
unfolding save_ttl
save_breaker c now cb e = record e {
  circuit = some (record { value = cb; expires = expiry now (save_ttl c cb) });
}

-- The three results of `ShouldAllow`.
pub record Verdict : Type 0 where
  pub allowed : Bool
  pub is_probe : Bool
  pub failed : Bool

abbrev pub allow : Verdict
allow = record { allowed = true; is_probe = false; failed = false }

abbrev pub deny : Verdict
deny = record { allowed = false; is_probe = false; failed = false }

abbrev pub probe : Verdict
probe = record { allowed = true; is_probe = true; failed = false }

abbrev pub deny_failed : Verdict
deny_failed = record { allowed = false; is_probe = false; failed = true }

abbrev pub probe_failed : Verdict
probe_failed = record { allowed = true; is_probe = true; failed = true }

abbrev pub allow_failed : Verdict
allow_failed = record { allowed = true; is_probe = false; failed = true }

-- The assignments of the transaction that lets one request through an open circuit.
unfoldable pub to_half_open : CircuitConfig → ℕ → CircuitBreaker → CircuitBreaker
to_half_open c now cb = record cb {
  state = half_open;
  state_changed_at = now;
  successes = 0;
  next_probe_at = some (now + c.probe_interval);
}

-- The transaction of the open case: it reads the circuit again.
unfoldable pub try_half_open : CircuitConfig → Bytes → ℕ → Reply → Endpoint → Verdict × Endpoint
unfolding get_breaker to_half_open save_breaker
try_half_open c hash now r e =
    let current = get_breaker hash now e.circuit in
    if is_open current.state
    then (
      if arrived r then probe else deny_failed,
      wrote r (save_breaker c now (to_half_open c now current) e) e,
    )
    else (if arrived r then deny else deny_failed, e)

abbrev pub lock_is_held : ℕ → Option Lock → Bool
lock_is_held now none = false
lock_is_held now (some l) = is_live now l.expires

-- `SETNX` on the probe lock.
unfoldable pub set_probe_lock : CircuitConfig → ℕ → Endpoint → Endpoint
set_probe_lock c now e = if lock_is_held now e.probe_lock then e else record e {
  probe_lock = some (record { value = tt; expires = expiry now c.probe_interval });
}

-- Where `ShouldAllow` stands after its second call to Redis: it has its verdict, or it holds the
-- probe lock and goes on to save the breaker that it read first.
pub data Progress : Type 0 where
  decided : Verdict → Progress
  holds_lock : CircuitBreaker → Progress

unfoldable pub try_probe_lock :
    CircuitConfig → ℕ → CircuitBreaker → Reply → Endpoint → Progress × Endpoint
unfolding set_probe_lock
try_probe_lock c now seen r e = (
  if arrived r
      then if lock_is_held now e.probe_lock
        then decided deny
        else holds_lock (record seen { next_probe_at = some (now + c.probe_interval) })
      else decided probe_failed,
  wrote r (set_probe_lock c now e) e,
)

abbrev pub probe_is_due : ℕ → Option ℕ → Bool
probe_is_due now none = true
probe_is_due now (some t) = ltb t now

-- `ShouldAllow` after `Get` gave `seen`: the `switch` on its state.
unfoldable pub after_get :
    CircuitConfig
    → Bytes
    → ℕ
    → CircuitBreaker
    → CircuitState
    → Reply
    → Endpoint
    → Progress × Endpoint
unfolding try_half_open try_probe_lock
after_get c hash now seen closed r e = (decided allow, e)
after_get c hash now seen open_circuit r e =
    if ltb (seen.state_changed_at + c.recovery_timeout) now
    then (let (v, e') = try_half_open c hash now r e in (decided v, e'))
    else (decided deny, e)
after_get c hash now seen half_open r e =
    if probe_is_due now seen.next_probe_at then try_probe_lock c now seen r e else (decided deny, e)

-- The last call of the half-open case.
unfoldable pub finish_allow : CircuitConfig → ℕ → Reply → Progress × Endpoint → Verdict × Endpoint
unfolding save_breaker
finish_allow c now r (decided v, e) = (v, e)
finish_allow c now r (holds_lock cb, e) =
    (if arrived r then probe else probe_failed, wrote r (save_breaker c now cb e) e)

-- `ShouldAllow` with no other worker in between; the replies are those of its three calls.
unfoldable pub should_allow :
    CircuitConfig → Bytes → ℕ → Reply → Reply → Reply → Endpoint → Verdict × Endpoint
unfolding after_get finish_allow
should_allow c hash now r₁ r₂ r₃ e =
    let seen = get_breaker hash now e.circuit in
    if arrived r₁
    then finish_allow c now r₃ (after_get c hash now seen seen.state r₂ e)
    else (allow_failed, e)

-- The `switch` of `RecordSuccess`; `cb` has its `LastSuccessAt` set.
unfoldable pub on_success : CircuitConfig → ℕ → CircuitState → CircuitBreaker → CircuitBreaker
on_success c now closed cb = record cb { failures = 0 }
on_success c now half_open cb =
    if leb c.success_threshold (cb.successes + 1)
    then record cb {
      state = closed;
      state_changed_at = now;
      failures = 0;
      successes = 0;
      next_probe_at = none;
    }
    else record cb { successes = cb.successes + 1 }
on_success c now open_circuit cb = record cb {
  state = half_open;
  state_changed_at = now;
  successes = 1;
}

unfoldable pub succeed : CircuitConfig → ℕ → CircuitBreaker → CircuitBreaker
unfolding on_success
succeed c now cb = on_success c now cb.state (record cb { last_success_at = some now })

-- `lastFailureAt.After(now - FailureWindow)`.
abbrev pub in_window : CircuitConfig → ℕ → Option ℕ → Bool
in_window c now none = false
in_window c now (some t) = ltb now (t + c.failure_window)

-- The `switch` of `RecordFailure`; `cb` has its failures counted.
unfoldable pub on_failure : CircuitConfig → ℕ → CircuitState → CircuitBreaker → CircuitBreaker
on_failure c now closed cb =
    if leb c.failure_threshold cb.failures
    then record cb { state = open_circuit; state_changed_at = now }
    else cb
on_failure c now half_open cb = record cb {
  state = open_circuit;
  state_changed_at = now;
  successes = 0;
  next_probe_at = none;
}
on_failure c now open_circuit cb = cb

unfoldable pub fail : CircuitConfig → ℕ → CircuitBreaker → CircuitBreaker
unfolding on_failure
fail c now cb = on_failure c now cb.state (record cb {
  last_failure_at = some now;
  failures = if in_window c now cb.last_failure_at then cb.failures + 1 else 1;
})

-- `RecordSuccess` and `RecordFailure`: one transaction; `none` is its error.
unfoldable pub record_success :
    CircuitConfig → Bytes → ℕ → Reply → Endpoint → Option CircuitBreaker × Endpoint
unfolding get_breaker succeed save_breaker
record_success c hash now r e =
    let cb = succeed c now (get_breaker hash now e.circuit) in
    (reported r cb, wrote r (save_breaker c now cb e) e)

unfoldable pub record_failure :
    CircuitConfig → Bytes → ℕ → Reply → Endpoint → Option CircuitBreaker × Endpoint
unfolding get_breaker fail save_breaker
record_failure c hash now r e =
    let cb = fail c now (get_breaker hash now e.circuit) in
    (reported r cb, wrote r (save_breaker c now cb e) e)
