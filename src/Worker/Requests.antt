-- ===== src/Worker/Requests.antt =====
-- internal/worker/worker.go: the requests that a worker sends between the gates and the releases of
-- its slots.
use howk.Prelude.{ℕ, ap, none, [], ◌∷◌, Bool, inr}
use howk.Prelude.Text.{Bytes}
use howk.Domain.{Webhook, delivering}
use howk.Redis.{Entry, Map}
use howk.Effects.{
  resolve_overrides, send, time_now, execute_script, ScriptOutcome, transforms, script_failed,
  other_failure,
}
use howk.Effects.Keeps.{Keeps-resolve_overrides, Keeps-bind, Keeps-time_now}
use howk.Effects.Once.{Once, Once-Keeps, Once-if, Once-after, Once-before}
use howk.Worker.Config.{WorkerConfig}
use howk.Worker.Record.{update_status}
use howk.Worker.Attempt.{attempt}
use howk.Worker.Scripts.{handle_script_error, handle_other_failure, send_to_dlq_for_script_disabled}
use howk.Worker.{after_script, transform, deliver_webhook}
use howk.Worker.Frame.{
  Calm, Calm-by_success, Calm-execute_script, Calm-handle_script_error, Calm-send_to_dlq,
  Calm-update_status,
}

module _ {p : Map (Entry (Unit {0}))} {i d : Map ℕ} where
  Once-send : (h : Webhook) → Once (Calm p i d) (send h)
  unfolding send
  Once-send h = record { at = λ l env w k. inr (h, (k.0, k.1, k.2, ap (λ s. h ∷ s) k.3)) }

  Once-attempt :
      (c : WorkerConfig) (slow : Bool) (h : Webhook) → Once (Calm p i d) (attempt c slow h)
  unfolding attempt
  Once-attempt c slow h =
      Once-after (resolve_overrides h) _ (λ l. Keeps-resolve_overrides h)
        (λ g.
          Once-before (send g) _ (Once-send g)
            (λ r l. Keeps-bind time_now _ Keeps-time_now (λ now. Calm-by_success c slow h r _ _)))

  Once-after_script :
      (c : WorkerConfig) (slow : Bool) (h : Webhook) (o : ScriptOutcome)
      → Once (Calm p i d) (after_script c slow h o)
  unfolding after_script handle_other_failure
  Once-after_script c slow h (transforms r) = search Once-attempt
  Once-after_script c slow h (script_failed e) =
      Once-Keeps (handle_script_error c h e) (λ l. Calm-handle_script_error c h e)
  Once-after_script c slow h (other_failure text) =
      Once-Keeps (handle_other_failure c h text) (λ l. search Calm-send_to_dlq)

  Once-transform :
      (c : WorkerConfig) (slow : Bool) (h : Webhook) (script : Bytes)
      → Once (Calm p i d) (transform c slow h script)
  unfolding transform send_to_dlq_for_script_disabled
  Once-transform c slow h [] = Once-attempt c slow h
  Once-transform c slow h (x ∷ xs) =
      Once-if c.lua_enabled _ _
        (Once-after (execute_script h) _ (λ l. Calm-execute_script h)
          (λ o. Once-after_script c slow h o))
        (Once-Keeps (send_to_dlq_for_script_disabled c h) (λ l. search Calm-send_to_dlq))

  pub Once-deliver_webhook :
      (c : WorkerConfig) (slow : Bool) (h : Webhook) → Once (Calm p i d) (deliver_webhook c slow h)
  unfolding deliver_webhook
  Once-deliver_webhook c slow h =
      Once-after (update_status c h delivering none) _ (λ l. Calm-update_status c h delivering none)
        (λ u. Once-transform c slow h h.script_hash)
