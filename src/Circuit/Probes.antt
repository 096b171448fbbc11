-- ===== src/Circuit/Probes.antt =====
-- internal/hotstate/redis.go: which of several workers may probe a half-open circuit.
use howk.Prelude.{
  ℕ, ◌+◌, ◌≤◌, ◌<◌, ◌≡◌, refl, ◌≢◌, Bool, true, false, List, [], ◌∷◌, Option, none, some, arith,
  All, ltb, ap, ◌∙◌, ◌==◌, Bool-cases, inl, inr,
}
use howk.Prelude.Text.{Bytes}
use howk.Domain.{CircuitBreaker, CircuitState, closed, open_circuit, half_open}
use howk.Redis.{Reply, replied, lost, late, expiry, is_live}
use howk.Circuit.{
  CircuitConfig, Endpoint, deny, get_breaker, after_get, record_success, try_probe_lock,
  try_half_open, probe_is_due, save_ttl,
}
use howk.Circuit.Workers.{
  Phase, idle, got, locked, done, System, Event, Act, gets, commits, saves, succeeds, fails, commit,
  finish, act, step, run, phase_of, update,
}

abbrev pub is_locked : Phase → Bool
is_locked (locked cb) = true
is_locked _ = false

-- The probe lock is held until `t`.
abbrev LockedUntil : ℕ → Endpoint → Type 0
LockedUntil t e = e.probe_lock ≡ some (record { value = tt; expires = some t })

try_half_open-lock :
    (c : CircuitConfig) (hash : Bytes) (now : ℕ) (r : Reply) (e : Endpoint)
    → (try_half_open c hash now r e).1.probe_lock ≡ e.probe_lock
unfolding try_half_open
try_half_open-lock c hash now r e = ground arith

finish-lock :
    (c : CircuitConfig) (v : Event) (p : Phase) (e : Endpoint)
    → ((finish c v p e).1.probe_lock ≡ e.probe_lock)
      × (is_locked (finish c v p e).0 ≡ true → is_locked p ≡ true)
unfolding finish
finish-lock c v (locked cb) e = (ground arith, λ h. refl)
finish-lock c v idle e = (refl, λ h. h)
finish-lock c v (got cb) e = (refl, λ h. h)
finish-lock c v (done w) e = (refl, λ h. h)

-- What a step leaves: the lock until `t`, and no lock for a worker that had none.
abbrev Excludes : ℕ → Phase → Phase × Endpoint → Type 0
Excludes t p (q, e) = LockedUntil t e × (is_locked p ≡ false → is_locked q ≡ false)

try_probe_lock-Excludes :
    (c : CircuitConfig) (t now : ℕ) (cb : CircuitBreaker) (p : Phase) (r : Reply) (e : Endpoint)
    → now < t
    → LockedUntil t e
    → let (q, e') = try_probe_lock c now cb r e in Excludes t p (phase_of q, e')
unfolding try_probe_lock
try_probe_lock-Excludes c t now cb p r e h k = (ground arith, λ n. ground arith)

commit-Excludes :
    (c : CircuitConfig) (hash : Bytes) (t : ℕ) (v : Event) (p : Phase) (e : Endpoint)
    → v.now < t
    → LockedUntil t e
    → Excludes t p (commit c hash v p e)
unfolding commit
commit-Excludes c hash t v (got cb) e h k = go cb.state
  where
    go :
        (s : CircuitState)
        → let (q, e') = after_get c hash v.now cb s v.reply e in
          Excludes t (got cb) (phase_of q, e')
    go closed = (k, λ n. refl)
    go open_circuit = elim (Bool-cases (ltb (cb.state_changed_at + c.recovery_timeout) v.now)) [
      | inl b ↦ rw b (try_half_open-lock c hash v.now v.reply e ∙ k, λ n. refl)
      | inr b ↦ rw b (k, λ n. refl)
    ]
    go half_open = elim (Bool-cases (probe_is_due v.now cb.next_probe_at)) [
      | inl b ↦ rw b (try_probe_lock-Excludes c t v.now cb (got cb) v.reply e h k)
      | inr b ↦ rw b (k, λ n. refl)
    ]
commit-Excludes c hash t v idle e h k = (k, λ n. n)
commit-Excludes c hash t v (locked cb) e h k = (k, λ n. n)
commit-Excludes c hash t v (done w) e h k = (k, λ n. n)

act-Excludes :
    (c : CircuitConfig) (hash : Bytes) (t : ℕ) (v : Event) (a : Act) (p : Phase) (e : Endpoint)
    → v.now < t
    → LockedUntil t e
    → Excludes t p (act c hash v a p e)
unfolding act
act-Excludes c hash t v gets p e h k = (k, λ n. ground arith)
act-Excludes c hash t v commits p e h k = commit-Excludes c hash t v p e h k
act-Excludes c hash t v saves p e h k =
    let (l, q) = finish-lock c v p e in (l ∙ k, λ n. ground arith)
act-Excludes c hash t v succeeds p e h k = (ground arith, λ n. n)
act-Excludes c hash t v fails p e h k = (ground arith, λ n. n)

run-Excludes :
    (c : CircuitConfig) (hash : Bytes) (t : ℕ) (s : System) (vs : List Event) (j : ℕ)
    → All (λ v. v.now < t) vs
    → LockedUntil t s.endpoint
    → is_locked (s.workers j) ≡ false
    → is_locked ((run c hash s vs).workers j) ≡ false
unfolding run
run-Excludes c hash t s [] j h k n = n
run-Excludes c hash t s (v ∷ vs) j h k n =
    let (l, q) = act-Excludes c hash t v v.act (s.workers v.worker) s.endpoint h.0 k in
    run-Excludes c hash t (step c hash s v) vs j h.1 (unfold step in l)
      (elim (Bool-cases (v.worker == j)) [
        | inl b ↦ unfold step in rw b (q (let e : v.worker ≡ j = ground arith in rw e n))
        | inr b ↦ unfold step in rw b n
      ])

try_probe_lock-locks :
    (c : CircuitConfig) (now : ℕ) (cb : CircuitBreaker) (r : Reply) (e : Endpoint)
    → 0 < c.probe_interval
    → let (q, e') = try_probe_lock c now cb r e in
      is_locked (phase_of q) ≡ true → LockedUntil (now + c.probe_interval) e'
unfolding try_probe_lock
try_probe_lock-locks c now cb r e h k = ground arith

commit-locks :
    (c : CircuitConfig) (hash : Bytes) (v : Event) (p : Phase) (e : Endpoint)
    → 0 < c.probe_interval
    → is_locked p ≡ false
    → is_locked (commit c hash v p e).0 ≡ true
    → LockedUntil (v.now + c.probe_interval) (commit c hash v p e).1
unfolding commit
commit-locks c hash v (got cb) e h n k = go cb.state k
  where
    go :
        (s : CircuitState)
        → let (q, e') = after_get c hash v.now cb s v.reply e in
          is_locked (phase_of q) ≡ true → LockedUntil (v.now + c.probe_interval) e'
    go closed l = cc
    go open_circuit l = absurd (ground arith)
    go half_open l = elim (Bool-cases (probe_is_due v.now cb.next_probe_at)) [
      | inl b ↦ rw b (try_probe_lock-locks c v.now cb v.reply e h (rw b at l))
      | inr b ↦ absurd (ground arith)
    ]
commit-locks c hash v idle e h n k = cc
commit-locks c hash v (locked cb) e h n k = cc
commit-locks c hash v (done w) e h n k = cc

act-locks :
    (c : CircuitConfig) (hash : Bytes) (v : Event) (a : Act) (p : Phase) (e : Endpoint)
    → 0 < c.probe_interval
    → is_locked p ≡ false
    → is_locked (act c hash v a p e).0 ≡ true
    → LockedUntil (v.now + c.probe_interval) (act c hash v a p e).1
unfolding act
act-locks c hash v gets p e h n k = absurd (ground arith)
act-locks c hash v commits p e h n k = commit-locks c hash v p e h n k
act-locks c hash v saves p e h n k = absurd (ground (arith, (finish-lock c v p e).1 k))
act-locks c hash v succeeds p e h n k = absurd (ground arith)
act-locks c hash v fails p e h n k = absurd (ground arith)

-- When a worker takes the probe lock of a half-open circuit, then for the length of the probe
-- interval no other worker that was without it takes it, whatever steps of any workers fall in
-- that time, results recorded and replies lost among them.
pub probe_exclusive :
    (c : CircuitConfig) (hash : Bytes) (s : System) (v : Event) (vs : List Event) (j : ℕ)
    → 0 < c.probe_interval
    → is_locked (s.workers v.worker) ≡ false
    → is_locked ((step c hash s v).workers v.worker) ≡ true
    → All (λ w. w.now < v.now + c.probe_interval) vs
    → v.worker ≢ j
    → is_locked (s.workers j) ≡ false
    → is_locked ((run c hash (step c hash s v) vs).workers j) ≡ false
unfolding step
probe_exclusive c hash s v vs j h n k w other m =
    run-Excludes c hash (v.now + c.probe_interval) (step c hash s v) vs j w
      (act-locks c hash v v.act (s.workers v.worker) s.endpoint h n (ground arith)) (ground arith)

-- Of two workers that both saw an open circuit past its recovery timeout, the second to come to
-- its transaction is turned away and changes nothing, if the first one's was carried out and the
-- entry has not run out.
half_open_once :
    (c : CircuitConfig) (hash : Bytes) (now later : ℕ) (r : Reply) (e : Endpoint)
    → (get_breaker hash now e.circuit).state ≡ open_circuit
    → r ≢ lost
    → is_live later (expiry now c.circuit_state_ttl) ≡ true
    → let e' = (try_half_open c hash now r e).1 in
      try_half_open c hash later replied e' ≡ (deny, e')
unfolding try_half_open save_ttl
half_open_once c hash now later replied e h n l = rw h (rw l refl)
half_open_once c hash now later late e h n l = rw h (rw l refl)
half_open_once c hash now later lost e h n l = absurd (n refl)

-- The state in the stored breaker.
abbrev pub stored_state : Endpoint → Option CircuitState
stored_state e = elim e.circuit [ none ↦ none | some d ↦ some d.value.state ]

success-closes :
    (c : CircuitConfig) (hash : Bytes) (now : ℕ) (e : Endpoint)
    → (get_breaker hash now e.circuit).state ≡ half_open
    → c.success_threshold ≤ (get_breaker hash now e.circuit).successes + 1
    → stored_state (record_success c hash now replied e).1 ≡ some closed
unfolding record_success
success-closes c hash now e h t = ground arith

finish-stores :
    (c : CircuitConfig) (w : Event) (cb : CircuitBreaker) (p : Phase) (e : Endpoint)
    → p ≡ locked cb
    → w.reply ≡ replied
    → stored_state (finish c w p e).1 ≡ some cb.state
unfolding finish
finish-stores c w cb p e l r = rw (l, r) refl

-- The save that ends a half-open probe is no transaction: it puts back the breaker that the worker
-- read at first. So if the success of another worker closes the circuit in between, the circuit is
-- half open again afterwards.
pub stale_save_reopens :
    (c : CircuitConfig) (hash : Bytes) (s : System) (i j t t' : ℕ) (cb : CircuitBreaker)
    → i ≢ j
    → s.workers j ≡ locked cb
    → cb.state ≡ half_open
    → (get_breaker hash t s.endpoint.circuit).state ≡ half_open
    → c.success_threshold ≤ (get_breaker hash t s.endpoint.circuit).successes + 1
    → let v : Event = record { now = t; worker = i; act = succeeds; reply = replied } in
      let w : Event = record { now = t'; worker = j; act = saves; reply = replied } in
      (stored_state (step c hash s v).endpoint ≡ some closed)
      × (stored_state (step c hash (step c hash s v) w).endpoint ≡ some half_open)
unfolding step
stale_save_reopens c hash s i j t t' cb o l sc st th = (
  success-closes c hash t s.endpoint st th,
  finish-stores c w cb (update s.workers i (s.workers i) j) _ (ground arith) refl ∙ ap some sc,
)
  where
    w : Event
    w = record { now = t'; worker = j; act = saves; reply = replied }
