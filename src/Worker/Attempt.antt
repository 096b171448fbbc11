-- ===== src/Worker/Attempt.antt =====
-- internal/worker/worker.go: one delivery attempt and the ways in which it ends.
use howk.Prelude.{ℕ, ◌++◌, [], Bool, true, false, ◌&&◌, Option, none, some, if◌then◌else◌}
use howk.Prelude.Int.{pos, incr, ltb_ℤ}
use howk.Prelude.Text.{Bytes, codes}
use howk.Prelude.Decimal.{itoa}
use howk.Domain.{
  Webhook, delivered, failed, exhausted, DeliveryResult, CircuitState, closed, CircuitBreaker,
  DeadLetter, DeadLetterReason, attempts_exhausted, unrecoverable, is_success,
}
use howk.Circuit.{record_success, record_failure}
use howk.Retry.{should_retry}
use howk.Effects.{
  M, ◌>>=◌, ◌>>◌, pure, redis, time_now, send, resolve_overrides, publish_result,
  publish_dead_letter, Delivery,
}
use howk.Worker.Config.{WorkerConfig, Outcome, ack, nack, retry_not_scheduled, on_endpoint}
use howk.Worker.Record.{
  update_status, record_stats, schedule_webhook_retry, cleanup_retry_data, next_retry_time,
}
use howk.Worker.DeadLetters.{dead_letter_webhook, dlq_response_body}

abbrev error_text : Option Bytes → Bytes
error_text none = []
error_text (some e) = e

abbrev pub is_none : Option Bytes → Bool
is_none none = true
is_none (some e) = false

unfoldable pub result_of : Webhook → Delivery → ℕ → DeliveryResult
result_of h r now = record {
  webhook_id = h.id;
  config_id = h.config_id;
  endpoint = h.endpoint;
  endpoint_hash = h.endpoint_hash;
  attempt = h.attempt;
  success = is_none r.error && is_success r.status_code;
  status_code = r.status_code;
  error = error_text r.error;
  duration = r.duration;
  timestamp = now;
  should_retry = false;
  next_retry_at = 0;
  webhook = some h;
}

unfoldable pub slow_stats : Bool → Webhook → M (Unit {0})
slow_stats true h = record_stats (codes "slow_delivered") h
slow_stats false h = pure tt

unfoldable pub on_delivered : WorkerConfig → Bool → Webhook → DeliveryResult → M Outcome
unfolding slow_stats
on_delivered c slow h result = do
  _ ← redis (λ now r. on_endpoint h.endpoint_hash (record_success c.circuit h.endpoint_hash now r))
  update_status c h delivered (some result)
  _ ← publish_result result
  record_stats (codes "delivered") h
  slow_stats slow h
  cleanup_retry_data h
  pure ack

-- The state that `RecordFailure` reports; closed, if it failed.
abbrev state_after : Option CircuitBreaker → CircuitState
state_after none = closed
state_after (some cb) = cb.state

abbrev number : ℕ → Bytes
number n = itoa (pos n)

-- After the attempt to schedule: a failure leaves the message to be redelivered.
unfoldable pub retry_scheduled : WorkerConfig → Webhook → DeliveryResult → Bool → M Outcome
retry_scheduled c h result false = pure (nack retry_not_scheduled)
retry_scheduled c h result true = do
  update_status c h failed (some result)
  record_stats (codes "failed") h
  _ ← publish_result result
  pure ack

-- The webhook of the next attempt.
unfoldable pub next_attempt : Webhook → ℕ → Webhook
next_attempt h at = record h { attempt = incr h.attempt; scheduled_at = at }

unfoldable pub on_retry :
    WorkerConfig → Webhook → Delivery → DeliveryResult → CircuitState → M Outcome
unfolding next_attempt retry_scheduled
on_retry c h r result state = do
  at ← next_retry_time c h.attempt state
  done ←
      schedule_webhook_retry c (next_attempt h at) at
        (codes "status=" ++ (number r.status_code ++ (codes ", error=" ++ result.error)))
  retry_scheduled c (next_attempt h at)
      (record result {
        should_retry = true;
        next_retry_at = at;
        webhook = some (next_attempt h at);
      })
      done

unfoldable dead_letter_reason : Webhook → Delivery → DeadLetterReason × Bytes
dead_letter_reason h r =
    if ltb_ℤ h.attempt h.max_attempts
    then (unrecoverable, codes "unrecoverable error: status=" ++ number r.status_code)
    else (
      attempts_exhausted,
      codes "exhausted after "
          ++ (itoa (incr h.attempt) ++ (codes " attempts, last_status=" ++ number r.status_code)),
    )

-- A dead letter that cannot be published is only logged.
unfoldable pub on_dead : WorkerConfig → Webhook → Delivery → DeliveryResult → M Outcome
unfolding dead_letter_reason dlq_response_body
on_dead c h r result = do
  update_status c h exhausted (some result)
  now ← time_now
  let reason = dead_letter_reason h r
  let letter : DeadLetter = record {
    webhook = dead_letter_webhook c h;
    reason = reason.1;
    reason_type = reason.0;
    last_error = result.error;
    status_code = r.status_code;
    response_body = dlq_response_body c r.response_body;
    time = now;
  }
  _ ← publish_dead_letter letter
  record_stats (codes "exhausted") h
  cleanup_retry_data h
  _ ← publish_result result
  pure ack

unfoldable pub retry_or_not :
    WorkerConfig → Webhook → Delivery → DeliveryResult → CircuitState → Bool → M Outcome
unfolding on_retry on_dead
retry_or_not c h r result state true = on_retry c h r result state
retry_or_not c h r result state false = on_dead c h r result

unfoldable pub on_failed : WorkerConfig → Webhook → Delivery → DeliveryResult → M Outcome
unfolding retry_or_not
on_failed c h r result = do
  cb ← redis (λ now q. on_endpoint h.endpoint_hash (record_failure c.circuit h.endpoint_hash now q))
  retry_or_not c h r result (state_after cb) (should_retry h r.status_code r.error)

unfoldable pub by_success :
    WorkerConfig → Bool → Webhook → Delivery → DeliveryResult → Bool → M Outcome
unfolding on_delivered on_failed
by_success c slow h r result true = on_delivered c slow h result
by_success c slow h r result false = on_failed c h r result

-- From the overrides to the end; the request goes out with the overrides, the records do not
-- have them.
unfoldable pub attempt : WorkerConfig → Bool → Webhook → M Outcome
unfolding result_of by_success
attempt c slow h = do
  deliverable ← resolve_overrides h
  r ← send deliverable
  now ← time_now
  let result = result_of h r now
  by_success c slow h r result result.success
