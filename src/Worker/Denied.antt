-- ===== src/Worker/Denied.antt =====
-- internal/worker/worker.go: what becomes of a webhook that an open circuit turns away.
use howk.Prelude.{ℕ, suc, ◌+◌, ◌≡◌, refl, ap, ◌∙◌, Bool, true, List, none, some, arith}
use howk.Prelude.Int.{ℤ}
use howk.Prelude.Text.{Bytes, codes, bytes_eq_refl}
use howk.Domain.{Webhook, open_circuit}
use howk.Redis.{Reply, replied, live, expiry, is_live}
use howk.Redis.ZSet.{zscore, zscore-zadd}
use howk.Circuit.{deny, should_allow}
use howk.HotState.{
  Store, TtlConfig, unix, reference, check_and_set_processed, ensure_retry_data, schedule_retry,
}
use howk.Effects.{Env, World, pure, ◌>>=◌, redis, redis₂, redis₃, time_now, next_sample}
use howk.Worker.Config.{WorkerConfig, Outcome, ack, on_endpoint}
use howk.Worker.Record.{
  schedule_reference, schedule_webhook_retry, next_retry_time, schedule_retry_for_circuit, acked_if,
}
use howk.Worker.{by_circuit, admit, unless_duplicate, process_webhook}
use howk.Worker.Once.{process_all, at_most_once}

-- Acknowledged, no request sent, and the attempt stands in the retry queue.
abbrev pub Queued : Webhook → World → Outcome × World → Type 0
Queued h w (o, w') =
    (o ≡ ack)
    × (w'.sent ≡ w.sent)
    × ((t : ℕ) × (zscore (reference h.id h.attempt) w'.store.retries ≡ some t))

schedule_retry-scores :
    (c : TtlConfig) (id : Bytes) (n : ℤ) (at : ℕ) (reason : Bytes) (now : ℕ) (s : Store)
    → zscore (reference id n) (schedule_retry c id n at reason now replied s).1.retries
      ≡ some (unix at)
unfolding schedule_retry
schedule_retry-scores c id n at reason now s = ground (
  arith,
  zscore-zadd (reference id n) (reference id n) (unix at) s.retries,
  bytes_eq_refl (reference id n),
)

schedule_reference-queues :
    (c : WorkerConfig) (h : Webhook) (at : ℕ) (reason : Bytes) (env : Env) (w : World)
    → env.reply w.calls ≡ replied
    → let (b, w') = schedule_reference c h at reason (some tt) env w in
      (b ≡ true)
      × (w'.sent ≡ w.sent)
      × (zscore (reference h.id h.attempt) w'.store.retries ≡ some (unix at))
unfolding schedule_reference ◌>>=◌ redis pure schedule_retry
schedule_reference-queues c h at reason env w r =
    rw r
      (refl, refl, schedule_retry-scores c.ttl h.id h.attempt at reason (env.clock w.calls) w.store)

ensure_retry_data-replied :
    (ttl : ℕ) (h : Webhook) (now : ℕ) (s : Store)
    → (ensure_retry_data ttl h now replied replied s).0 ≡ some tt
unfolding ensure_retry_data
ensure_retry_data-replied ttl h now s = ground arith

schedule_webhook_retry-queues :
    (c : WorkerConfig) (h : Webhook) (at : ℕ) (reason : Bytes) (env : Env) (w : World)
    → ((n : ℕ) → env.reply n ≡ replied)
    → let (b, w') = schedule_webhook_retry c h at reason env w in
      (b ≡ true)
      × (w'.sent ≡ w.sent)
      × (zscore (reference h.id h.attempt) w'.store.retries ≡ some (unix at))
unfolding schedule_webhook_retry ◌>>=◌ redis₂
schedule_webhook_retry-queues c h at reason env w r =
    let f = ensure_retry_data c.ttl.retry_data_ttl h in
    let e : (redis₂ f env w).0 ≡ some tt =
      rw (r w.calls, r (w.calls + 1))
        (ensure_retry_data-replied c.ttl.retry_data_ttl h (env.clock w.calls) w.store) in
    rw e (schedule_reference-queues c h at reason env (redis₂ f env w).1 (r _))

schedule_retry_for_circuit-Queued :
    (c : WorkerConfig) (h : Webhook) (env : Env) (w : World)
    → ((n : ℕ) → env.reply n ≡ replied)
    → Queued h w (schedule_retry_for_circuit c h env w)
unfolding schedule_retry_for_circuit ◌>>=◌ acked_if pure next_retry_time time_now next_sample
schedule_retry_for_circuit-Queued c h env w r =
    let (at, w₁) = next_retry_time c h.attempt open_circuit env w in
    let (done, sent, queued) =
      schedule_webhook_retry-queues c (record h { scheduled_at = at }) at (codes "circuit_open") env
        w r in
    rw done (refl, sent, (unix at, queued))

check-first :
    (id : Bytes) (n : ℤ) (ttl now : ℕ) (r : Reply) (s : Store)
    → live now (s.processed (reference id n)) ≡ none
    → r ≡ replied
    → let (o, s') = check_and_set_processed id n ttl now r s in
      (o ≡ some true) × (s'.endpoints ≡ s.endpoints)
unfolding check_and_set_processed
check-first id n ttl now r s h e = (ground arith, ground arith)

admit-Queued :
    (c : WorkerConfig) (slow : Bool) (h : Webhook) (env : Env) (w : World)
    → ((n : ℕ) → env.reply n ≡ replied)
    → (should_allow c.circuit h.endpoint_hash
        (env.clock w.calls)
        replied
        replied
        replied
        (w.store.endpoints h.endpoint_hash)).0
      ≡ deny
    → Queued h w (admit c slow h env w)
unfolding admit ◌>>=◌ redis₃ on_endpoint by_circuit
admit-Queued c slow h env w r d =
    rw (r w.calls, r (w.calls + 1), r (w.calls + 2), d)
      (schedule_retry_for_circuit-Queued c h env _ r)

process-Queued :
    (c : WorkerConfig) (slow : Bool) (h : Webhook) (env : Env) (w : World)
    → live (env.clock w.calls) (w.store.processed (reference h.id h.attempt)) ≡ none
    → ((n : ℕ) → env.reply n ≡ replied)
    → (should_allow c.circuit h.endpoint_hash
        (env.clock (suc w.calls))
        replied
        replied
        replied
        (w.store.endpoints h.endpoint_hash)).0
      ≡ deny
    → Queued h w (process_webhook c slow h env w)
unfolding process_webhook ◌>>=◌ redis unless_duplicate
process-Queued c slow h env w n r d =
    let (a, w') = redis (check_and_set_processed h.id h.attempt c.ttl.idempotency_ttl) env w in
    let (first, same) =
      check-first h.id h.attempt c.ttl.idempotency_ttl (env.clock w.calls) (env.reply w.calls)
        w.store n (r w.calls) in
    rw first (
      admit-Queued c slow h env w' r (
        ap
          (λ m.
            (should_allow c.circuit h.endpoint_hash (env.clock (suc w.calls)) replied replied
              replied (m h.endpoint_hash)).0)
          same
        ∙ d))

-- As long as Redis and Kafka answer: a webhook that an open circuit turns away stands in the retry
-- queue under the attempt that it had. So when its time comes and the scheduler publishes it again,
-- before its idempotency key has run out, the worker takes it for processed and acknowledges it with
-- no request sent, whatever messages it processes in between.
pub circuit_retry_is_dropped :
    (c : WorkerConfig) (slow again : Bool) (h h' : Webhook) (hs : List (Bool × Webhook)) (env : Env)
    (w : World)
    → h'.id ≡ h.id
    → h'.attempt ≡ h.attempt
    → live (env.clock w.calls) (w.store.processed (reference h.id h.attempt)) ≡ none
    → ((n : ℕ) → env.reply n ≡ replied)
    → ((n : ℕ) → is_live (env.clock n) (expiry (env.clock w.calls) c.ttl.idempotency_ttl) ≡ true)
    → (should_allow c.circuit h.endpoint_hash
        (env.clock (suc w.calls))
        replied
        replied
        replied
        (w.store.endpoints h.endpoint_hash)).0
      ≡ deny
    → let w' = process_all c hs env (process_webhook c slow h env w).1 in
      Queued h w (process_webhook c slow h env w)
      × (process_webhook c again h' env w' ≡ (ack, record w' { calls = suc w'.calls }))
circuit_retry_is_dropped c slow again h h' hs env w e f n r l d = (
  process-Queued c slow h env w n r d,
  at_most_once c slow again h h' hs env w e f n (ground (arith, r w.calls)) l
      (ground (arith, r (process_all c hs env (process_webhook c slow h env w).1).calls)),
)
