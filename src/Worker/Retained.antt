-- ===== src/Worker/Retained.antt =====
-- internal/worker/worker.go: a failed attempt that may be tried again.
use howk.Prelude.{
  ℕ, ◌+◌, ◌≡◌, ◌≢◌, refl, sym, ap, ◌∙◌, ◌⊎◌, ◌&&◌, inl, inr, Bool, true, false, Option, none, some,
  arith,
}
use howk.Prelude.Int.{ℤ, incr}
use howk.Prelude.Text.{Bytes, bytes_eq_refl}
use howk.Domain.{
  Webhook, WebhookState, pending, delivering, delivered, failed, exhausted, WebhookStatus,
  DeliveryResult, CircuitState, is_success,
}
use howk.Redis.{Reply, replied, lost, late, Entry, Map}
use howk.Redis.ZSet.{ZSet, zscore, zscore-zadd}
use howk.Retry.{should_retry}
use howk.HotState.{
  Store, Op, TtlConfig, unix, reference, ensure_retry_data, schedule_retry, set_status, incr_stats,
  add_to_hll,
}
use howk.Effects.{
  Env, World, Topics, Delivery, pure, ◌>>=◌, redis, redis₂, publish, publish_result, publish_state,
  publish_tombstone, resolve_overrides, deliverable, send, time_now,
}
use howk.Effects.Keeps.{Keeps, keeps_rules}
use howk.Worker.Config.{WorkerConfig, Outcome, ack, nack, retry_not_scheduled}
use howk.Worker.Record.{
  publish_state_snapshot, update_status, record_stats, schedule_reference, schedule_webhook_retry,
  next_retry_time, is_some,
}
use howk.Worker.Attempt.{
  is_none, result_of, retry_scheduled, next_attempt, on_retry, retry_or_not, on_failed, by_success,
  attempt,
}

-- The attempt's reference is queued, and the webhook's data is there.
abbrev pub Retained : Bytes → ℤ → Store → Type 0
Retained id n s =
    ((t : ℕ) × (zscore (reference id n) s.retries ≡ some t)) × (s.retry_data id ≢ none)

-- The queue and the data are as given.
abbrev pub Kept : ZSet → Map (Entry Webhook) → World → Type 0
Kept z m w = (w.store.retries ≡ z) × (w.store.retry_data ≡ m)

module _ {z : ZSet} {m : Map (Entry Webhook)} where
  Kept-redis :
      {A : Type 0} (f : ℕ → Reply → Op A)
      → ((now : ℕ) (r : Reply) (s : Store)
          → ((f now r s).1.retries ≡ s.retries) × ((f now r s).1.retry_data ≡ s.retry_data))
      → Keeps (Kept z m) (redis f)
  unfolding redis
  Kept-redis f g = record { at = λ env w h. let (a, b) = g _ _ w.store in (a ∙ h.0, b ∙ h.1) }

  Kept-publish : (f : Topics → Topics) → Keeps (Kept z m) (publish f)
  unfolding publish
  Kept-publish f = record { at = λ env w h. h }

  Kept-set_status :
      (c : TtlConfig) (st : WebhookStatus) → Keeps (Kept z m) (redis (set_status c st))
  unfolding set_status
  Kept-set_status c st = Kept-redis (set_status c st) (λ now r s. (ground arith, ground arith))

  Kept-publish_state_snapshot :
      (h : Webhook) (s : WebhookState) (st : WebhookStatus)
      → Keeps (Kept z m) (publish_state_snapshot h s st)
  unfolding publish_state_snapshot publish_state publish_tombstone
  Kept-publish_state_snapshot h pending st = search keeps_rules
  Kept-publish_state_snapshot h delivering st = search keeps_rules
  Kept-publish_state_snapshot h delivered st = search (keeps_rules, Kept-publish)
  Kept-publish_state_snapshot h failed st = search (keeps_rules, Kept-publish)
  Kept-publish_state_snapshot h exhausted st = search (keeps_rules, Kept-publish)

  pub Kept-update_status :
      (c : WorkerConfig) (h : Webhook) (s : WebhookState) (r : Option DeliveryResult)
      → Keeps (Kept z m) (update_status c h s r)
  unfolding update_status
  Kept-update_status c h s r = search (keeps_rules, Kept-set_status, Kept-publish_state_snapshot)

  pub Kept-record_stats : (stat : Bytes) (h : Webhook) → Keeps (Kept z m) (record_stats stat h)
  unfolding record_stats incr_stats add_to_hll
  Kept-record_stats stat h = search (keeps_rules, Kept-redis)

  Kept-retry_scheduled :
      (c : WorkerConfig) (h : Webhook) (r : DeliveryResult)
      → Keeps (Kept z m) (retry_scheduled c h r true)
  unfolding retry_scheduled publish_result
  Kept-retry_scheduled c h r =
      search (keeps_rules, Kept-publish, Kept-update_status, Kept-record_stats) depth 8

ensure-data :
    (ttl : ℕ) (h : Webhook) (now : ℕ) (r q : Reply) (s : Store) (u : Unit {0})
    → (ensure_retry_data ttl h now r q s).0 ≡ some u
    → (ensure_retry_data ttl h now r q s).1.retry_data h.id ≢ none
unfolding ensure_retry_data
ensure-data ttl h now r q s u e = ground (arith, bytes_eq_refl h.id)

schedule-score :
    (c : TtlConfig) (id : Bytes) (n : ℤ) (at : ℕ) (reason : Bytes) (now : ℕ) (r : Reply) (s : Store)
    → is_some (schedule_retry c id n at reason now r s).0 ≡ true
    → let s' = (schedule_retry c id n at reason now r s).1 in
      (zscore (reference id n) s'.retries ≡ some (unix at)) × (s'.retry_data ≡ s.retry_data)
unfolding schedule_retry
schedule-score c id n at reason now replied s e = (
  ground (
    arith,
    zscore-zadd (reference id n) (reference id n) (unix at) s.retries,
    bytes_eq_refl (reference id n),
  ),
  refl,
)
schedule-score c id n at reason now lost s e = absurd (ground arith)
schedule-score c id n at reason now late s e = absurd (ground arith)

schedule_reference-Retained :
    (c : WorkerConfig) (h : Webhook) (at : ℕ) (reason : Bytes) (o : Option (Unit {0})) (env : Env)
    (w : World)
    → ((u : Unit {0}) → o ≡ some u → w.store.retry_data h.id ≢ none)
    → (schedule_reference c h at reason o env w).0 ≡ true
    → Retained h.id h.attempt (schedule_reference c h at reason o env w).1.store
unfolding schedule_reference ◌>>=◌ redis pure
schedule_reference-Retained c h at reason none env w d e = absurd (ground arith)
schedule_reference-Retained c h at reason (some u) env w d e =
    let (score, same) =
      schedule-score c.ttl h.id h.attempt at reason (env.clock w.calls) (env.reply w.calls) w.store
        e in
    ((unix at, score), λ n. d u refl (ap (λ m. m h.id) (sym same) ∙ n))

pub schedule_webhook_retry-Retained :
    (c : WorkerConfig) (h : Webhook) (at : ℕ) (reason : Bytes) (env : Env) (w : World)
    → (schedule_webhook_retry c h at reason env w).0 ≡ true
    → Retained h.id h.attempt (schedule_webhook_retry c h at reason env w).1.store
unfolding schedule_webhook_retry ◌>>=◌ redis₂
schedule_webhook_retry-Retained c h at reason env w e =
    let (o, w') = redis₂ (ensure_retry_data c.ttl.retry_data_ttl h) env w in
    schedule_reference-Retained c h at reason o env w'
      (λ u q.
        ensure-data c.ttl.retry_data_ttl h (env.clock w.calls) (env.reply w.calls)
          (env.reply (w.calls + 1)) w.store u q)
      e

-- The two ways in which an attempt that may be tried again ends.
abbrev pub KeptOrNacked : Webhook → Outcome × World → Type 0
KeptOrNacked h (o, w) =
    ((o ≡ ack) × Retained h.id (incr h.attempt) w.store) ⊎ (o ≡ nack retry_not_scheduled)

pub Retained-same :
    (id : Bytes) (n : ℤ) (s t : Store)
    → t.retries ≡ s.retries
    → t.retry_data ≡ s.retry_data
    → Retained id n s
    → Retained id n t
Retained-same id n s t a b ((at, k), d) =
    ((at, ap (zscore (reference id n)) a ∙ k), λ e. d (ap (λ m. m id) (sym b) ∙ e))

retry_scheduled-acks :
    (c : WorkerConfig) (g : Webhook) (r : DeliveryResult) (env : Env) (w : World)
    → (retry_scheduled c g r true env w).0 ≡ ack
unfolding retry_scheduled ◌>>=◌ pure
retry_scheduled-acks c g r env w = refl

retry_scheduled-kept :
    (c : WorkerConfig) (h g : Webhook) (r : DeliveryResult) (done : Bool) (env : Env) (w : World)
    → g.id ≡ h.id
    → g.attempt ≡ incr h.attempt
    → (done ≡ true → Retained g.id g.attempt w.store)
    → KeptOrNacked h (retry_scheduled c g r done env w)
unfolding retry_scheduled pure
retry_scheduled-kept c h g r false env w e f k = inr refl
retry_scheduled-kept c h g r true env w e f k =
    let (a, b) = (Kept-retry_scheduled c g r).at env w (refl, refl) in
    let t = (retry_scheduled c g r true env w).1.store in
    inl (
      retry_scheduled-acks c g r env w,
      rw (← e, ← f) (Retained-same g.id g.attempt w.store t a b (k refl)),
    )

on_retry-kept :
    (c : WorkerConfig) (h : Webhook) (r : Delivery) (t : DeliveryResult) (s : CircuitState)
    (env : Env) (w : World)
    → KeptOrNacked h (on_retry c h r t s env w)
unfolding on_retry ◌>>=◌ next_attempt
on_retry-kept c h r t s env w =
    let (at, w₁) = next_retry_time c h.attempt s env w in
    let g = next_attempt h at in
    retry_scheduled-kept c h g _ _ env _ refl refl (schedule_webhook_retry-Retained c g at _ env w₁)

on_failed-kept :
    (c : WorkerConfig) (h : Webhook) (r : Delivery) (t : DeliveryResult) (env : Env) (w : World)
    → should_retry h r.status_code r.error ≡ true
    → KeptOrNacked h (on_failed c h r t env w)
unfolding on_failed ◌>>=◌ retry_or_not
on_failed-kept c h r t env w y = rw y (on_retry-kept c h r t _ env _)

-- When an attempt failed and may be tried again, then either the message is acknowledged, and the
-- next attempt stands in the retry queue with the webhook's data in Redis, or it is left to be
-- redelivered, however the calls to Redis and Kafka end.
pub failed_attempt_is_kept :
    (c : WorkerConfig) (slow : Bool) (h : Webhook) (env : Env) (w : World)
    → let r = env.respond w.calls (deliverable env h) in
      (is_none r.error && is_success r.status_code) ≡ false
      → should_retry h r.status_code r.error ≡ true
      → KeptOrNacked h (attempt c slow h env w)
unfolding attempt ◌>>=◌ resolve_overrides send time_now result_of by_success
failed_attempt_is_kept c slow h env w f y =
    rw f (on_failed-kept c h (env.respond w.calls (deliverable env h)) _ env _ y)
