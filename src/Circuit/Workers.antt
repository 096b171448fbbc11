-- ===== src/Circuit/Workers.antt =====
-- internal/hotstate/redis.go: any number of workers that use the circuit of one endpoint at once.
-- A worker's `ShouldAllow` is three steps, one for each call to Redis, and other workers'
-- steps may fall between them; recording a result is one transaction. All clocks agree.
use howk.Prelude.{
  ℕ, ◌+◌, ◌≡◌, refl, true, List, [], ◌∷◌, arith, ltb, ◌==◌, if◌then◌else◌, Bool-cases, inl, inr,
}
use howk.Prelude.Text.{Bytes}
use howk.Domain.{CircuitBreaker, CircuitState, closed, open_circuit, half_open}
use howk.Redis.{Reply, replied, lost, late, wrote, arrived}
use howk.Circuit.{
  CircuitConfig, Endpoint, Verdict, allow_failed, Progress, decided, holds_lock, get_breaker,
  save_breaker, after_get, finish_allow, record_success, record_failure, try_probe_lock,
  try_half_open, is_open, probe_is_due,
}
use howk.Circuit.Transitions.{
  IsUsable, IsWellFormed, HoldsWellFormed, get-IsWellFormed, succeed-IsWellFormed,
  fail-IsWellFormed, to_half_open-IsWellFormed,
}

-- Where a worker stands in `ShouldAllow`.
pub data Phase : Type 0 where
  idle : Phase
  got : CircuitBreaker → Phase
  locked : CircuitBreaker → Phase
  done : Verdict → Phase

pub record System : Type 0 where
  pub endpoint : Endpoint
  pub workers : ℕ → Phase

pub data Act : Type 0 where
  gets commits saves succeeds fails : Act

-- A step of one worker: when, who, what, and how Redis answered.
pub record Event : Type 0 where
  pub now : ℕ
  pub worker : ℕ
  pub act : Act
  pub reply : Reply

abbrev pub update : (ℕ → Phase) → ℕ → Phase → ℕ → Phase
update f i p j = if i == j then p else f j

abbrev pub phase_of : Progress → Phase
phase_of (decided v) = done v
phase_of (holds_lock cb) = locked cb

unfoldable pub commit : CircuitConfig → Bytes → Event → Phase → Endpoint → Phase × Endpoint
unfolding after_get
commit c hash v (got cb) e =
    let (p, e') = after_get c hash v.now cb cb.state v.reply e in (phase_of p, e')
commit c hash v p e = (p, e)

unfoldable pub finish : CircuitConfig → Event → Phase → Endpoint → Phase × Endpoint
unfolding finish_allow
finish c v (locked cb) e =
    let (w, e') = finish_allow c v.now v.reply (holds_lock cb, e) in (done w, e')
finish c v p e = (p, e)

-- A step of the worker and what it leaves in Redis.
unfoldable pub act : CircuitConfig → Bytes → Event → Act → Phase → Endpoint → Phase × Endpoint
unfolding commit finish get_breaker record_success record_failure
act c hash v gets p e =
    (if arrived v.reply then got (get_breaker hash v.now e.circuit) else done allow_failed, e)
act c hash v commits p e = commit c hash v p e
act c hash v saves p e = finish c v p e
act c hash v succeeds p e = (p, (record_success c hash v.now v.reply e).1)
act c hash v fails p e = (p, (record_failure c hash v.now v.reply e).1)

unfoldable pub step : CircuitConfig → Bytes → System → Event → System
unfolding act
step c hash s v =
    let (p, e) = act c hash v v.act (s.workers v.worker) s.endpoint in
    record { endpoint = e; workers = update s.workers v.worker p }

unfoldable pub run : CircuitConfig → Bytes → System → List Event → System
unfolding step
run c hash s [] = s
run c hash s (v ∷ vs) = run c hash (step c hash s v) vs

-- The breaker that a worker carries between its steps is well formed.
abbrev PhaseWellFormed : CircuitConfig → Phase → Type 0
PhaseWellFormed c (got cb) = IsWellFormed c cb
PhaseWellFormed c (locked cb) = IsWellFormed c cb
PhaseWellFormed c idle = Unit
PhaseWellFormed c (done v) = Unit

pub record SystemWellFormed (c : CircuitConfig) (s : System) : Type 0 where
  pub stored : HoldsWellFormed c s.endpoint.circuit
  pub carried : (i : ℕ) → PhaseWellFormed c (s.workers i)

-- What a step keeps, of the worker and of Redis.
abbrev Keeps : CircuitConfig → Phase × Endpoint → Type 0
Keeps c (p, e) = PhaseWellFormed c p × HoldsWellFormed c e.circuit

wrote-WellFormed :
    (c : CircuitConfig) (now : ℕ) (cb : CircuitBreaker) (r : Reply) (e : Endpoint)
    → IsWellFormed c cb
    → HoldsWellFormed c e.circuit
    → HoldsWellFormed c (wrote r (save_breaker c now cb e) e).circuit
unfolding save_breaker
wrote-WellFormed c now cb replied e h k = h
wrote-WellFormed c now cb late e h k = h
wrote-WellFormed c now cb lost e h k = k

try_probe_lock-Keeps :
    (c : CircuitConfig) (now : ℕ) (cb : CircuitBreaker) (r : Reply) (e : Endpoint)
    → IsWellFormed c cb
    → HoldsWellFormed c e.circuit
    → let (p, e') = try_probe_lock c now cb r e in Keeps c (phase_of p, e')
unfolding try_probe_lock
try_probe_lock-Keeps c now cb r e h k = ground arith

finish-Keeps :
    (c : CircuitConfig) (v : Event) (p : Phase) (e : Endpoint)
    → PhaseWellFormed c p
    → HoldsWellFormed c e.circuit
    → Keeps c (finish c v p e)
unfolding finish
finish-Keeps c v (locked cb) e h k = (tt, wrote-WellFormed c v.now cb v.reply e h k)
finish-Keeps c v idle e h k = (h, k)
finish-Keeps c v (got cb) e h k = (h, k)
finish-Keeps c v (done w) e h k = (h, k)

is_open_eq : (s : CircuitState) → is_open s ≡ true → s ≡ open_circuit
is_open_eq open_circuit h = refl
is_open_eq closed h = cc
is_open_eq half_open h = cc

module _ {c : CircuitConfig} (u : IsUsable c) (hash : Bytes) where
  try_half_open-WellFormed :
      (now : ℕ) (r : Reply) (e : Endpoint)
      → HoldsWellFormed c e.circuit
      → HoldsWellFormed c (try_half_open c hash now r e).1.circuit
  unfolding try_half_open
  try_half_open-WellFormed now r e k =
      elim (Bool-cases (is_open (get_breaker hash now e.circuit).state)) [
        | inl o ↦
            let w = get-IsWellFormed u hash now e.circuit k in
            rw o (
              wrote-WellFormed c now _ r e
                (to_half_open-IsWellFormed u now (get_breaker hash now e.circuit) (is_open_eq _ o)
                  w)
                k)
        | inr o ↦ rw o k
      ]

  commit-Keeps :
      (v : Event) (p : Phase) (e : Endpoint)
      → PhaseWellFormed c p
      → HoldsWellFormed c e.circuit
      → Keeps c (commit c hash v p e)
  unfolding commit
  commit-Keeps v (got cb) e h k = go cb.state
    where
      go :
          (s : CircuitState)
          → let (p, e') = after_get c hash v.now cb s v.reply e in Keeps c (phase_of p, e')
      go closed = (tt, k)
      go open_circuit = elim (Bool-cases (ltb (cb.state_changed_at + c.recovery_timeout) v.now)) [
        | inl t ↦ rw t (tt, try_half_open-WellFormed v.now v.reply e k)
        | inr t ↦ rw t (tt, k)
      ]
      go half_open = elim (Bool-cases (probe_is_due v.now cb.next_probe_at)) [
        | inl t ↦ rw t (try_probe_lock-Keeps c v.now cb v.reply e h k)
        | inr t ↦ rw t (tt, k)
      ]
  commit-Keeps v idle e h k = (h, k)
  commit-Keeps v (locked cb) e h k = (h, k)
  commit-Keeps v (done w) e h k = (h, k)

  act-Keeps :
      (v : Event) (a : Act) (p : Phase) (e : Endpoint)
      → PhaseWellFormed c p
      → HoldsWellFormed c e.circuit
      → Keeps c (act c hash v a p e)
  unfolding act
  act-Keeps v gets p e h k = elim (Bool-cases (arrived v.reply)) [
    | inl t ↦ rw t (get-IsWellFormed u hash v.now e.circuit k, k)
    | inr t ↦ rw t (tt, k)
  ]
  act-Keeps v commits p e h k = commit-Keeps v p e h k
  act-Keeps v saves p e h k = finish-Keeps c v p e h k
  act-Keeps v succeeds p e h k = (
    h,
    wrote-WellFormed c v.now _ v.reply e
        (succeed-IsWellFormed u v.now _ (get-IsWellFormed u hash v.now e.circuit k)) k,
  )
  act-Keeps v fails p e h k = (
    h,
    wrote-WellFormed c v.now _ v.reply e
        (fail-IsWellFormed u v.now _ (get-IsWellFormed u hash v.now e.circuit k)) k,
  )

  step-WellFormed :
      (s : System) (v : Event) → SystemWellFormed c s → SystemWellFormed c (step c hash s v)
  unfolding step
  step-WellFormed s v h = record {
    stored = kept.1;
    carried =
        λ i. elim (Bool-cases (v.worker == i)) [ inl t ↦ rw t kept.0 | inr t ↦ rw t (h.carried i) ];
  }
    where
      kept : Keeps c (act c hash v v.act (s.workers v.worker) s.endpoint)
      kept = act-Keeps v v.act (s.workers v.worker) s.endpoint (h.carried v.worker) h.stored

  -- However the steps of any number of workers fall, and whichever replies of Redis are lost, the
  -- stored circuit stays well formed, and so does every copy of it that a worker still holds.
  pub run-SystemWellFormed :
      (s : System) (vs : List Event) → SystemWellFormed c s → SystemWellFormed c (run c hash s vs)
  unfolding run
  run-SystemWellFormed s [] h = h
  run-SystemWellFormed s (v ∷ vs) h =
      run-SystemWellFormed (step c hash s v) vs (step-WellFormed s v h)
