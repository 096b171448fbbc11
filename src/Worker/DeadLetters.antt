-- ===== src/Worker/DeadLetters.antt =====
-- internal/worker/worker.go: what a dead letter shows of its webhook.
use howk.Prelude.{◌∷◌, [], List, if◌then◌else◌}
use howk.Prelude.Text.{Bytes}
use howk.Domain.{Webhook}
use howk.Domain.Headers.{clone_for_dlq, default_sensitive_headers}
use howk.Worker.Config.{WorkerConfig}

unfoldable pub redact_names : List Bytes → List Bytes
redact_names [] = default_sensitive_headers
redact_names (n ∷ ns) = n ∷ ns

unfoldable pub dead_letter_webhook : WorkerConfig → Webhook → Webhook
unfolding redact_names
dead_letter_webhook c h =
    if c.dlq.disable_redaction then h else clone_for_dlq h (redact_names c.dlq.redact_headers)

unfoldable pub dlq_response_body : WorkerConfig → Bytes → Bytes
dlq_response_body c body = if c.dlq.include_response_body then body else []
