-- ===== src/Worker/Scripts.antt =====
-- internal/worker/worker.go: failures of the script of a webhook.
use howk.Prelude.{ℕ, ◌++◌, [], Bool, true, false, none, some, if◌then◌else◌}
use howk.Prelude.Text.{Bytes, codes, bytes_eq}
use howk.Domain.{
  Webhook, failed, exhausted, DeliveryResult, closed, DeadLetter, DeadLetterReason, script_disabled,
  script_not_found, script_syntax_error, script_runtime_error, script_timeout, script_memory_limit,
  crypto_key_not_found, script_invalid_output,
}
use howk.Effects.{M, ◌>>=◌, ◌>>◌, pure, time_now, publish_dead_letter, ScriptError, ScriptErrorType}
use howk.Worker.Config.{WorkerConfig, Outcome, ack, nack, retry_not_scheduled, dead_letter_failed}
use howk.Worker.Record.{update_status, record_stats, schedule_webhook_retry, next_retry_time}
use howk.Worker.DeadLetters.{dead_letter_webhook}
use howk.Worker.Attempt.{next_attempt}

-- The part of a `DeliveryResult` that the script paths fill in.
unfoldable script_result : Webhook → Bytes → ℕ → DeliveryResult
script_result h text now = record {
  webhook_id = h.id;
  config_id = h.config_id;
  endpoint = h.endpoint;
  endpoint_hash = [];
  attempt = h.attempt;
  success = false;
  status_code = 0;
  error = text;
  duration = 0;
  timestamp = now;
  should_retry = false;
  next_retry_at = 0;
  webhook = none;
}

unfoldable pub dead_letter_sent : WorkerConfig → Webhook → Bytes → Bool → M Outcome
unfolding script_result
dead_letter_sent c h text false = pure (nack dead_letter_failed)
dead_letter_sent c h text true = do
  now ← time_now
  update_status c h exhausted (some (script_result h text now))
  record_stats (codes "exhausted") h
  pure ack

unfoldable pub send_to_dlq : WorkerConfig → Webhook → DeadLetterReason → Bytes → M Outcome
unfolding dead_letter_sent
send_to_dlq c h type text = do
  now ← time_now
  let letter : DeadLetter = record {
    webhook = dead_letter_webhook c h;
    reason = text;
    reason_type = type;
    last_error = [];
    status_code = 0;
    response_body = [];
    time = now;
  }
  published ← publish_dead_letter letter
  dead_letter_sent c h text published

unfoldable pub send_to_dlq_for_script_disabled : WorkerConfig → Webhook → M Outcome
unfolding send_to_dlq
send_to_dlq_for_script_disabled c h = send_to_dlq c h script_disabled (
    codes
      "Script execution is disabled but ScriptHash is set - this would leak raw/untransformed payload")

abbrev is_key_not_found : ScriptError → Bool
is_key_not_found e =
    if bytes_eq e.message (codes "crypto key not found")
    then true
    else elim e.cause [ none ↦ false | some t ↦ bytes_eq t (codes "key not found") ]

-- The `switch` of `handleScriptError`.
unfoldable pub dlq_reason : ScriptErrorType → ScriptError → DeadLetterReason
dlq_reason ScriptErrorType.script_not_found e = script_not_found
dlq_reason ScriptErrorType.script_syntax_error e = script_syntax_error
dlq_reason ScriptErrorType.script_runtime_error e = script_runtime_error
dlq_reason ScriptErrorType.script_timeout e = script_timeout
dlq_reason ScriptErrorType.script_memory_limit e = script_memory_limit
dlq_reason ScriptErrorType.script_module_crypto e =
    if is_key_not_found e then crypto_key_not_found else script_runtime_error
dlq_reason ScriptErrorType.script_invalid_output e = script_invalid_output
dlq_reason ScriptErrorType.script_module_kv e = script_runtime_error
dlq_reason ScriptErrorType.script_module_http e = script_runtime_error
dlq_reason ScriptErrorType.script_disabled e = script_runtime_error

-- `IsRetryable` of a script error: the failures of infrastructure.
abbrev pub is_transient : ScriptErrorType → Bool
is_transient ScriptErrorType.script_module_kv = true
is_transient ScriptErrorType.script_module_http = true
is_transient _ = false

unfoldable type_text : ScriptErrorType → Bytes
type_text ScriptErrorType.script_not_found = codes "script_not_found"
type_text ScriptErrorType.script_syntax_error = codes "script_syntax_error"
type_text ScriptErrorType.script_runtime_error = codes "script_runtime_error"
type_text ScriptErrorType.script_timeout = codes "script_timeout"
type_text ScriptErrorType.script_memory_limit = codes "script_memory_limit"
type_text ScriptErrorType.script_module_kv = codes "script_module_kv"
type_text ScriptErrorType.script_module_http = codes "script_module_http"
type_text ScriptErrorType.script_module_crypto = codes "script_module_crypto"
type_text ScriptErrorType.script_invalid_output = codes "script_invalid_output"
type_text ScriptErrorType.script_disabled = codes "script_disabled"

unfoldable pub script_retry_scheduled : WorkerConfig → Webhook → Bytes → ℕ → Bool → M Outcome
unfolding script_result
script_retry_scheduled c h text at false = pure (nack retry_not_scheduled)
script_retry_scheduled c h text at true = do
  now ← time_now
  update_status c h failed
      (some (record (script_result h text now) { should_retry = true; next_retry_at = at }))
  record_stats (codes "failed") h
  pure ack

unfoldable pub retry_script : WorkerConfig → Webhook → ScriptError → M Outcome
unfolding type_text script_retry_scheduled next_attempt
retry_script c h e = do
  at ← next_retry_time c h.attempt closed
  done ←
      schedule_webhook_retry c (next_attempt h at) at (codes "script_error: " ++ type_text e.type)
  script_retry_scheduled c (next_attempt h at) e.text at done

unfoldable pub handle_script_error : WorkerConfig → Webhook → ScriptError → M Outcome
unfolding retry_script dlq_reason
handle_script_error c h e =
    if is_transient e.type then retry_script c h e else send_to_dlq c h (dlq_reason e.type e) e.text

unfoldable pub handle_other_failure : WorkerConfig → Webhook → Bytes → M Outcome
handle_other_failure c h text = send_to_dlq c h script_runtime_error text
