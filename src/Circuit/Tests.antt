-- ===== src/Circuit/Tests.antt =====
-- internal/hotstate/redis.go: runs of the circuit breaker on a concrete endpoint.
use howk.Prelude.{◌*◌, ◌≡◌, refl, false, List, [], ◌∷◌, none, some, arith, ◌==◌, if◌then◌else◌}
use howk.Prelude.Text.{Bytes, codes}
use howk.Redis.{replied, late}
use howk.Domain.{CircuitBreaker, closed, open_circuit, half_open}
use howk.Retry.{second}
use howk.Circuit.{CircuitConfig, Endpoint, fresh_breaker, get_breaker, fail}
use howk.Circuit.Workers.{
  System, SystemWellFormed, Event, idle, locked, got, gets, commits, saves, succeeds, step, run,
  run-SystemWellFormed,
}
use howk.Circuit.Probes.{is_locked, probe_exclusive, stored_state, stale_save_reopens}

abbrev pub limits : CircuitConfig
limits = record {
  failure_threshold = 3;
  failure_window = 60 * second;
  recovery_timeout = 300 * second;
  probe_interval = 60 * second;
  success_threshold = 2;
  circuit_state_ttl = 86400 * second;
}

abbrev hash : Bytes
hash = codes "h1"

abbrev pub opened : CircuitBreaker
opened = record {
  endpoint_hash = hash;
  state = open_circuit;
  failures = 3;
  successes = 0;
  last_failure_at = some (10 * second);
  last_success_at = none;
  state_changed_at = 10 * second;
  next_probe_at = none;
}

abbrev pub holding : CircuitBreaker → Endpoint
holding cb = record { circuit = some (record { value = cb; expires = none }); probe_lock = none }

-- Two failures in the window, the third opens.
abbrev two_failures : CircuitBreaker
two_failures = record (fresh_breaker hash 0) { failures = 2; last_failure_at = some (5 * second) }

abbrev probing : CircuitBreaker
probing = record opened { state = half_open; successes = 1; next_probe_at = some (20 * second) }

third_failure_opens : (fail limits (9 * second) two_failures).state ≡ open_circuit
unfolding fail fresh_breaker
third_failure_opens = refl

after_the_window : (fail limits (90 * second) two_failures).failures ≡ 1
unfolding fail fresh_breaker
after_the_window = refl

-- Worker 0 has read the half-open circuit; worker 1 has not begun.
abbrev two_workers : System
two_workers = record {
  endpoint = holding probing;
  workers = λ i. if (i == 0) then got probing else idle;
}

abbrev take_lock : Event
take_lock = record { now = 30 * second; worker = 0; act = commits; reply = replied }

abbrev other_steps : List Event
other_steps =
    record { now = 31 * second; worker = 1; act = gets; reply = replied }
    ∷ record { now = 32 * second; worker = 1; act = commits; reply = late }
    ∷ []

probe_exclusive_example :
    is_locked ((run limits hash (step limits hash two_workers take_lock) other_steps).workers 1)
    ≡ false
unfolding step
probe_exclusive_example =
    probe_exclusive limits hash two_workers take_lock other_steps 1 (omega arith) refl refl
      (omega arith, (omega arith, tt)) (ground arith) refl

run-SystemWellFormed_example :
    SystemWellFormed limits (run limits hash two_workers (take_lock ∷ other_steps))
run-SystemWellFormed_example =
    run-SystemWellFormed (record { failures_pos = omega arith; successes_pos = omega arith }) hash
      two_workers (take_lock ∷ other_steps)
      (record { stored = ground arith; carried = λ i. ground arith })

-- Worker 0 holds the lock of a half-open circuit, and worker 1 has a probe under way.
abbrev slow_prober : System
slow_prober = record {
  endpoint = holding probing;
  workers = λ i. if (i == 0) then locked probing else idle;
}

stale_save_reopens_example :
    let v : Event = record { now = 30 * second; worker = 1; act = succeeds; reply = replied } in
    let w : Event = record { now = 31 * second; worker = 0; act = saves; reply = replied } in
    (stored_state (step limits hash slow_prober v).endpoint ≡ some closed)
    × (stored_state (step limits hash (step limits hash slow_prober v) w).endpoint ≡ some half_open)
unfolding get_breaker
stale_save_reopens_example =
    stale_save_reopens limits hash slow_prober 1 0 (30 * second) (31 * second) probing
      (ground arith) refl refl refl (omega arith)
