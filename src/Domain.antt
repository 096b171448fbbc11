-- ===== src/Domain.antt =====
-- internal/domain/types.go: the records that the components exchange, and the classifiers of
-- status codes. A Go string is its bytes, a `map[string]string` the list of its entries (`none`
-- for a nil map), a `time.Time` its nanoseconds since the epoch and a nil pointer `none`.
pub mod Headers
pub mod Matching
pub mod Entries
pub mod Samples
mod Tests
use howk.Prelude.{
  ℕ, ◌+◌, ◌≤◌, ◌<◌, Bool, true, ◌&&◌, ◌||◌, List, [], ◌++◌, Option, if◌then◌else◌, ltb, leb, ◌==◌,
}
use howk.Prelude.Int.{ℤ, pos, negsuc}
use howk.Prelude.Text.{Bytes, codes}

-- A nil map is `none`.
abbrev pub StringMap : Type 0
StringMap = Option (List (Bytes × Bytes))

pub record Webhook : Type 0 where
  pub id : Bytes
  pub config_id : Bytes
  pub endpoint : Bytes
  pub endpoint_hash : Bytes
  pub payload : Bytes
  pub headers : StringMap
  pub idempotency_key : Bytes
  pub signing_secret : Bytes
  pub attempt : ℤ
  pub max_attempts : ℤ
  pub created_at : ℕ
  pub scheduled_at : ℕ
  pub script_hash : Bytes
  pub delivery_query_params : StringMap
  pub delivery_headers : StringMap
  pub retry_on_status : List ℕ

-- `Webhook`, the last field of the Go struct, is the webhook of the attempt; `error` is the text
-- of the error, empty if there was none.
pub record DeliveryResult : Type 0 where
  pub webhook_id : Bytes
  pub config_id : Bytes
  pub endpoint : Bytes
  pub endpoint_hash : Bytes
  pub attempt : ℤ
  pub success : Bool
  pub status_code : ℕ
  pub error : Bytes
  pub duration : ℕ
  pub timestamp : ℕ
  pub should_retry : Bool
  pub next_retry_at : ℕ
  pub webhook : Option Webhook

pub data WebhookState : Type 0 where
  pending delivering delivered failed exhausted : WebhookState

pub record WebhookStatus : Type 0 where
  pub webhook_id : Bytes
  pub state : WebhookState
  pub attempts : ℤ
  pub last_attempt_at : Option ℕ
  pub last_status_code : ℕ
  pub last_error : Bytes
  pub next_retry_at : Option ℕ
  pub delivered_at : Option ℕ
  pub updated_at_ns : ℕ

pub data CircuitState : Type 0 where
  closed open_circuit half_open : CircuitState

pub record CircuitBreaker : Type 0 where
  pub endpoint_hash : Bytes
  pub state : CircuitState
  pub failures : ℕ
  pub successes : ℕ
  pub last_failure_at : Option ℕ
  pub last_success_at : Option ℕ
  pub state_changed_at : ℕ
  pub next_probe_at : Option ℕ

pub data DeadLetterReason : Type 0 where
  attempts_exhausted unrecoverable script_disabled script_not_found script_syntax_error :
      DeadLetterReason
  script_runtime_error script_timeout script_memory_limit crypto_key_not_found : DeadLetterReason
  script_invalid_output : DeadLetterReason

pub record DeadLetter : Type 0 where
  pub webhook : Webhook
  pub reason : Bytes
  pub reason_type : DeadLetterReason
  pub last_error : Bytes
  pub status_code : ℕ
  pub response_body : Bytes
  pub time : ℕ

pub record SystemEpoch : Type 0 where
  pub epoch : ℕ
  pub reconciler_host : Bytes
  pub messages_replayed : ℕ
  pub completed_at : ℕ

pub record WebhookStateSnapshot : Type 0 where
  pub webhook_id : Bytes
  pub config_id : Bytes
  pub endpoint : Bytes
  pub endpoint_hash : Bytes
  pub payload : Bytes
  pub headers : StringMap
  pub idempotency_key : Bytes
  pub signing_secret : Bytes
  pub script_hash : Bytes
  pub delivery_query_params : StringMap
  pub delivery_headers : StringMap
  pub retry_on_status : List ℕ
  pub state : WebhookState
  pub attempt : ℤ
  pub max_attempts : ℤ
  pub created_at : ℕ
  pub updated_at_ns : ℕ
  pub next_retry_at : Option ℕ
  pub last_error : Bytes

-- The fields that the callers of `NewWebhook` give.
pub record NewWebhookOpts : Type 0 where
  pub config_id : Bytes
  pub endpoint : Bytes
  pub payload : Bytes
  pub headers : StringMap
  pub idempotency_key : Bytes
  pub signing_secret : Bytes
  pub script_hash : Bytes
  pub max_attempts : ℤ
  pub delivery_query_params : StringMap
  pub delivery_headers : StringMap

abbrev pub default_max_attempts : ℕ
default_max_attempts = 20

-- `MaxAttempts <= 0` asks for the default.
unfoldable pub attempts_or_default : ℤ → ℤ
attempts_or_default (negsuc n) = pos default_max_attempts
attempts_or_default (pos n) = if n == 0 then pos default_max_attempts else pos n

-- `hash` is `HashEndpoint`, `ulid` the fresh identifier and `now` the time of the call.
unfoldable pub new_webhook : (Bytes → Bytes) → Bytes → ℕ → NewWebhookOpts → Webhook
unfolding attempts_or_default
new_webhook hash ulid now opts = record {
  id = codes "wh_" ++ ulid;
  config_id = opts.config_id;
  endpoint = opts.endpoint;
  endpoint_hash = hash opts.endpoint;
  payload = opts.payload;
  headers = opts.headers;
  idempotency_key = opts.idempotency_key;
  signing_secret = opts.signing_secret;
  attempt = pos 0;
  max_attempts = attempts_or_default opts.max_attempts;
  created_at = now;
  scheduled_at = now;
  script_hash = opts.script_hash;
  delivery_query_params = opts.delivery_query_params;
  delivery_headers = opts.delivery_headers;
  retry_on_status = [];
}

unfoldable pub is_retryable : ℕ → Bool
is_retryable status_code = leb 500 status_code || (status_code == 408 || status_code == 429)

unfoldable pub is_success : ℕ → Bool
is_success status_code = leb 200 status_code && ltb status_code 300
