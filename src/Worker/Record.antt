-- ===== src/Worker/Record.antt =====
-- internal/worker/worker.go: `updateStatus`, `publishStateSnapshot`, `recordStats`,
-- `scheduleRetry` and `cleanupRetryData`.
use howk.Prelude.{ℕ, ◌++◌, ◌∷◌, [], Bool, true, false, Option, none, some, if◌then◌else◌}
use howk.Prelude.Int.{ℤ, incr}
use howk.Prelude.Text.{Bytes, codes}
use howk.Domain.{
  Webhook, WebhookState, pending, delivering, delivered, failed, exhausted, WebhookStatus,
  DeliveryResult, WebhookStateSnapshot, CircuitState, open_circuit,
}
use howk.Retry.{next_retry_at}
use howk.HotState.{
  ensure_retry_data, schedule_retry, delete_retry_data, set_status, incr_stats, add_to_hll,
}
use howk.Effects.{
  M, ◌>>=◌, pure, redis, redis₂, time_now, bucket, next_sample, publish_state, publish_tombstone,
}
use howk.Worker.Config.{WorkerConfig, Outcome, ack, nack, retry_not_scheduled}

unfoldable pub snapshot_of : Webhook → WebhookState → WebhookStatus → ℕ → WebhookStateSnapshot
snapshot_of h state status now = record {
  webhook_id = h.id;
  config_id = h.config_id;
  endpoint = h.endpoint;
  endpoint_hash = h.endpoint_hash;
  payload = h.payload;
  headers = h.headers;
  idempotency_key = h.idempotency_key;
  signing_secret = h.signing_secret;
  script_hash = h.script_hash;
  delivery_query_params = h.delivery_query_params;
  delivery_headers = h.delivery_headers;
  retry_on_status = h.retry_on_status;
  state = state;
  attempt = h.attempt;
  max_attempts = h.max_attempts;
  created_at = h.created_at;
  updated_at_ns = now;
  next_retry_at = status.next_retry_at;
  last_error = status.last_error;
}

-- Only terminal and failed states are published, the former as tombstones.
unfoldable pub publish_state_snapshot : Webhook → WebhookState → WebhookStatus → M (Unit {0})
unfolding snapshot_of
publish_state_snapshot h delivered status = do _ ← publish_tombstone h.id; pure tt
publish_state_snapshot h exhausted status = do _ ← publish_tombstone h.id; pure tt
publish_state_snapshot h failed status = do
  now ← time_now
  _ ← publish_state (snapshot_of h failed status now)
  pure tt
publish_state_snapshot h pending status = pure tt
publish_state_snapshot h delivering status = pure tt

unfoldable pub status_of : Webhook → WebhookState → ℕ → Option DeliveryResult → WebhookStatus
status_of h state now none = record {
  webhook_id = h.id;
  state = state;
  attempts = incr h.attempt;
  last_attempt_at = none;
  last_status_code = 0;
  last_error = [];
  next_retry_at = none;
  delivered_at = none;
  updated_at_ns = now;
}
status_of h state now (some r) = record {
  webhook_id = h.id;
  state = state;
  attempts = incr h.attempt;
  last_attempt_at = some r.timestamp;
  last_status_code = r.status_code;
  last_error = r.error;
  next_retry_at = if r.should_retry then some r.next_retry_at else none;
  delivered_at = if r.success then some r.timestamp else none;
  updated_at_ns = now;
}

unfoldable pub update_status :
    WorkerConfig → Webhook → WebhookState → Option DeliveryResult → M (Unit {0})
unfolding status_of publish_state_snapshot
update_status c h state result = do
  now ← time_now
  let status = status_of h state now result
  _ ← redis (set_status c.ttl status)
  publish_state_snapshot h state status

abbrev pub diverted_stat : Bytes
diverted_stat = codes "diverted"

unfoldable pub record_stats : Bytes → Webhook → M (Unit {0})
record_stats stat h = do
  hour ← bucket
  _ ← redis (incr_stats (stat ++ b':' ∷ hour) 1)
  _ ← redis (add_to_hll (codes "endpoints:" ++ hour) h.endpoint_hash)
  pure tt

abbrev pub is_some {ℓ} : {A : Type ℓ} → Option A → Bool
is_some none = false
is_some (some a) = true

unfoldable pub schedule_reference : WorkerConfig → Webhook → ℕ → Bytes → Option (Unit {0}) → M Bool
schedule_reference c h at reason none = pure false
schedule_reference c h at reason (some _) = do
  scheduled ← redis (schedule_retry c.ttl h.id h.attempt at reason)
  pure (is_some scheduled)

-- `scheduleRetry`: the data, then the reference. Whether both went well.
unfoldable pub schedule_webhook_retry : WorkerConfig → Webhook → ℕ → Bytes → M Bool
unfolding schedule_reference
schedule_webhook_retry c h at reason = do
  ensured ← redis₂ (ensure_retry_data c.ttl.retry_data_ttl h)
  schedule_reference c h at reason ensured

unfoldable pub cleanup_retry_data : Webhook → M (Unit {0})
cleanup_retry_data h = do _ ← redis (delete_retry_data h.id); pure tt

-- `NextRetryAt` of the strategy.
unfoldable pub next_retry_time : WorkerConfig → ℤ → CircuitState → M ℕ
next_retry_time c n state = do
  sample ← next_sample
  now ← time_now
  pure (next_retry_at c.retry sample now n state)

unfoldable pub acked_if : Bool → M Outcome
acked_if true = pure ack
acked_if false = pure (nack retry_not_scheduled)

-- The attempt stays the same.
unfoldable pub schedule_retry_for_circuit : WorkerConfig → Webhook → M Outcome
unfolding next_retry_time schedule_webhook_retry acked_if
schedule_retry_for_circuit c h = do
  at ← next_retry_time c h.attempt open_circuit
  done ← schedule_webhook_retry c (record h { scheduled_at = at }) at (codes "circuit_open")
  acked_if done
