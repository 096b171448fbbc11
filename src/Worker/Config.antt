-- ===== src/Worker/Config.antt =====
-- internal/config/config.go as the worker reads it, and how it leaves a message.
use howk.Prelude.{ℕ, Bool, List, if◌then◌else◌}
use howk.Prelude.Text.{Bytes, bytes_eq}
use howk.Circuit.{CircuitConfig, Endpoint}
use howk.Retry.{RetryConfig}
use howk.Limiter.{LimiterConfig}
use howk.HotState.{TtlConfig, Op}

pub record DlqConfig : Type 0 where
  pub disable_redaction : Bool
  pub redact_headers : List Bytes
  pub include_response_body : Bool

pub record WorkerConfig : Type 0 where
  pub ttl : TtlConfig
  pub circuit : CircuitConfig
  pub retry : RetryConfig
  pub max_inflight_per_endpoint : ℕ
  pub has_domain_limiter : Bool
  pub limiter : LimiterConfig
  pub lua_enabled : Bool
  pub dlq : DlqConfig

pub data NackReason : Type 0 where
  domain_saturated endpoint_saturated retry_not_scheduled dead_letter_failed : NackReason

-- A handler that returns nil has its message committed; an error leaves it to be redelivered.
pub data Outcome : Type 0 where
  ack : Outcome
  nack : NackReason → Outcome

-- An operation on the circuit of one endpoint.
unfoldable pub on_endpoint : {A : Type 0} → Bytes → (Endpoint → A × Endpoint) → Op A
on_endpoint hash f s =
    let (a, e) = f (s.endpoints hash) in
    (a, record s { endpoints = λ k. if bytes_eq hash k then e else s.endpoints k })
