-- ===== src/Worker/Frame.antt =====
-- internal/worker/worker.go: what the steps between the gates and the releases leave alone.
use howk.Prelude.{ℕ, ◌≡◌, refl, ◌∙◌, Bool, true, false, List, Option, none, some, arith}
use howk.Prelude.Int.{ℤ}
use howk.Prelude.Text.{Bytes}
use howk.Domain.{
  Webhook, WebhookState, pending, delivering, delivered, failed, exhausted, WebhookStatus,
  DeliveryResult, CircuitState, DeadLetterReason,
}
use howk.Redis.{Reply, Entry, Map}
use howk.Circuit.{Endpoint}
use howk.HotState.{
  Store, Op, TtlConfig, ensure_retry_data, schedule_retry, delete_retry_data, set_status,
  incr_stats, add_to_hll,
}
use howk.Effects.{
  World, Topics, redis, redis₂, publish, execute_script, Delivery, ScriptError, publish_result,
  publish_dead_letter, publish_state, publish_tombstone,
}
use howk.Effects.Keeps.{Keeps, keeps_rules}
use howk.Worker.Config.{WorkerConfig, on_endpoint}
use howk.Worker.Record.{
  publish_state_snapshot, update_status, record_stats, schedule_reference, schedule_webhook_retry,
  cleanup_retry_data, next_retry_time, schedule_retry_for_circuit, acked_if,
}
use howk.Worker.Attempt.{
  slow_stats, on_delivered, retry_scheduled, on_retry, on_dead, retry_or_not, on_failed, by_success,
}
use howk.Worker.Scripts.{
  dead_letter_sent, send_to_dlq, script_retry_scheduled, retry_script, handle_script_error,
}

-- The processed keys, the two kinds of slots and the requests sent are as given.
abbrev pub Calm : Map (Entry (Unit {0})) → Map ℕ → Map ℕ → List Webhook → World → Type 0
Calm p i d l w =
    (w.store.processed ≡ p) × (w.store.inflight ≡ i) × (w.store.domain_inflight ≡ d) × (w.sent ≡ l)

-- A store with the same processed keys and slots.
abbrev Same : Store → Store → Type 0
Same s t =
    (t.processed ≡ s.processed)
    × (t.inflight ≡ s.inflight)
    × (t.domain_inflight ≡ s.domain_inflight)

abbrev Gentle : {A : Type 0} → Op A → Type 0
Gentle f = (s : Store) → Same s (f s).1

ensure_retry_data-Gentle :
    (ttl : ℕ) (h : Webhook) (now : ℕ) (r q : Reply) → Gentle (ensure_retry_data ttl h now r q)
unfolding ensure_retry_data
ensure_retry_data-Gentle ttl h now r q s = ground arith

schedule_retry-Gentle :
    (c : TtlConfig) (id : Bytes) (n : ℤ) (at : ℕ) (reason : Bytes) (now : ℕ) (r : Reply)
    → Gentle (schedule_retry c id n at reason now r)
unfolding schedule_retry
schedule_retry-Gentle c id n at reason now r s = ground arith

set_status-Gentle :
    (c : TtlConfig) (st : WebhookStatus) (now : ℕ) (r : Reply) → Gentle (set_status c st now r)
unfolding set_status
set_status-Gentle c st now r s = ground arith

on_endpoint-Gentle :
    {A : Type 0} (hash : Bytes) (f : Endpoint → A × Endpoint) → Gentle (on_endpoint hash f)
unfolding on_endpoint
on_endpoint-Gentle hash f s = (refl, refl, refl)

delete_retry_data-Gentle : (id : Bytes) (now : ℕ) (r : Reply) → Gentle (delete_retry_data id now r)
unfolding delete_retry_data
delete_retry_data-Gentle id now r s = (refl, refl, refl)

incr_stats-Gentle : (key : Bytes) (n now : ℕ) (r : Reply) → Gentle (incr_stats key n now r)
unfolding incr_stats
incr_stats-Gentle key n now r s = (refl, refl, refl)

add_to_hll-Gentle : (key v : Bytes) (now : ℕ) (r : Reply) → Gentle (add_to_hll key v now r)
unfolding add_to_hll
add_to_hll-Gentle key v now r s = (refl, refl, refl)

ruleset gentle_rules = (
  ensure_retry_data-Gentle, schedule_retry-Gentle, set_status-Gentle, on_endpoint-Gentle,
  delete_retry_data-Gentle, incr_stats-Gentle, add_to_hll-Gentle,
)

module _ {p : Map (Entry (Unit {0}))} {i d : Map ℕ} {l : List Webhook} where
  Calm-redis :
      {A : Type 0} (f : ℕ → Reply → Op A)
      → ((now : ℕ) (r : Reply) → Gentle (f now r))
      → Keeps (Calm p i d l) (redis f)
  unfolding redis
  Calm-redis f g = record {
    at = λ env w h. let (a, b, c) = g _ _ w.store in (a ∙ h.0, b ∙ h.1, c ∙ h.2, h.3);
  }

  Calm-redis₂ :
      {A : Type 0} (f : ℕ → Reply → Reply → Op A)
      → ((now : ℕ) (r q : Reply) → Gentle (f now r q))
      → Keeps (Calm p i d l) (redis₂ f)
  unfolding redis₂
  Calm-redis₂ f g = record {
    at = λ env w h. let (a, b, c) = g _ _ _ w.store in (a ∙ h.0, b ∙ h.1, c ∙ h.2, h.3);
  }

  Calm-publish : (f : Topics → Topics) → Keeps (Calm p i d l) (publish f)
  unfolding publish
  Calm-publish f = record { at = λ env w h. h }

  pub Calm-execute_script : (h : Webhook) → Keeps (Calm p i d l) (execute_script h)
  unfolding execute_script
  Calm-execute_script h = record { at = λ env w k. k }

  Calm-publish_state_snapshot :
      (h : Webhook) (s : WebhookState) (st : WebhookStatus)
      → Keeps (Calm p i d l) (publish_state_snapshot h s st)
  unfolding publish_state_snapshot publish_state publish_tombstone
  Calm-publish_state_snapshot h pending st = search keeps_rules
  Calm-publish_state_snapshot h delivering st = search keeps_rules
  Calm-publish_state_snapshot h delivered st = search (keeps_rules, Calm-publish)
  Calm-publish_state_snapshot h failed st = search (keeps_rules, Calm-publish)
  Calm-publish_state_snapshot h exhausted st = search (keeps_rules, Calm-publish)

  pub Calm-update_status :
      (c : WorkerConfig) (h : Webhook) (s : WebhookState) (r : Option DeliveryResult)
      → Keeps (Calm p i d l) (update_status c h s r)
  unfolding update_status
  Calm-update_status c h s r =
      search (keeps_rules, Calm-redis, set_status-Gentle, Calm-publish_state_snapshot)

  pub Calm-record_stats : (stat : Bytes) (h : Webhook) → Keeps (Calm p i d l) (record_stats stat h)
  unfolding record_stats
  Calm-record_stats stat h = search (keeps_rules, Calm-redis, gentle_rules)

  Calm-schedule_reference :
      (c : WorkerConfig) (h : Webhook) (at : ℕ) (reason : Bytes) (o : Option (Unit {0}))
      → Keeps (Calm p i d l) (schedule_reference c h at reason o)
  unfolding schedule_reference
  Calm-schedule_reference c h at reason none = search keeps_rules
  Calm-schedule_reference c h at reason (some u) = search (keeps_rules, Calm-redis, gentle_rules)

  Calm-schedule_webhook_retry :
      (c : WorkerConfig) (h : Webhook) (at : ℕ) (reason : Bytes)
      → Keeps (Calm p i d l) (schedule_webhook_retry c h at reason)
  unfolding schedule_webhook_retry
  Calm-schedule_webhook_retry c h at reason =
      search (keeps_rules, Calm-redis₂, gentle_rules, Calm-schedule_reference)

  Calm-cleanup_retry_data : (h : Webhook) → Keeps (Calm p i d l) (cleanup_retry_data h)
  unfolding cleanup_retry_data
  Calm-cleanup_retry_data h = search (keeps_rules, Calm-redis, gentle_rules)

  Calm-next_retry_time :
      (c : WorkerConfig) (n : ℤ) (s : CircuitState) → Keeps (Calm p i d l) (next_retry_time c n s)
  unfolding next_retry_time
  Calm-next_retry_time c n s = search keeps_rules

  ruleset calm_rules = (
    keeps_rules, gentle_rules, Calm-redis, Calm-redis₂, Calm-publish, Calm-update_status,
    Calm-record_stats, Calm-schedule_webhook_retry, Calm-cleanup_retry_data, Calm-next_retry_time,
  )

  Calm-acked_if : (b : Bool) → Keeps (Calm p i d l) (acked_if b)
  unfolding acked_if
  Calm-acked_if true = search keeps_rules
  Calm-acked_if false = search keeps_rules

  Calm-slow_stats : (slow : Bool) (h : Webhook) → Keeps (Calm p i d l) (slow_stats slow h)
  unfolding slow_stats
  Calm-slow_stats true h = search calm_rules
  Calm-slow_stats false h = search calm_rules

  Calm-on_delivered :
      (c : WorkerConfig) (slow : Bool) (h : Webhook) (r : DeliveryResult)
      → Keeps (Calm p i d l) (on_delivered c slow h r)
  unfolding on_delivered publish_result
  Calm-on_delivered c slow h r = search (calm_rules, Calm-slow_stats) depth 10

  Calm-retry_scheduled :
      (c : WorkerConfig) (h : Webhook) (r : DeliveryResult) (done : Bool)
      → Keeps (Calm p i d l) (retry_scheduled c h r done)
  unfolding retry_scheduled publish_result
  Calm-retry_scheduled c h r false = search calm_rules
  Calm-retry_scheduled c h r true = search calm_rules

  Calm-on_retry :
      (c : WorkerConfig) (h : Webhook) (r : Delivery) (t : DeliveryResult) (s : CircuitState)
      → Keeps (Calm p i d l) (on_retry c h r t s)
  unfolding on_retry
  Calm-on_retry c h r t s = search (calm_rules, Calm-retry_scheduled)

  Calm-on_dead :
      (c : WorkerConfig) (h : Webhook) (r : Delivery) (t : DeliveryResult)
      → Keeps (Calm p i d l) (on_dead c h r t)
  unfolding on_dead publish_dead_letter publish_result
  Calm-on_dead c h r t = search calm_rules depth 10

  Calm-retry_or_not :
      (c : WorkerConfig) (h : Webhook) (r : Delivery) (t : DeliveryResult) (s : CircuitState)
      (b : Bool)
      → Keeps (Calm p i d l) (retry_or_not c h r t s b)
  unfolding retry_or_not
  Calm-retry_or_not c h r t s true = Calm-on_retry c h r t s
  Calm-retry_or_not c h r t s false = Calm-on_dead c h r t

  Calm-on_failed :
      (c : WorkerConfig) (h : Webhook) (r : Delivery) (t : DeliveryResult)
      → Keeps (Calm p i d l) (on_failed c h r t)
  unfolding on_failed
  Calm-on_failed c h r t = search (calm_rules, Calm-retry_or_not)

  pub Calm-by_success :
      (c : WorkerConfig) (slow : Bool) (h : Webhook) (r : Delivery) (t : DeliveryResult) (b : Bool)
      → Keeps (Calm p i d l) (by_success c slow h r t b)
  unfolding by_success
  Calm-by_success c slow h r t true = Calm-on_delivered c slow h t
  Calm-by_success c slow h r t false = Calm-on_failed c h r t

  Calm-dead_letter_sent :
      (c : WorkerConfig) (h : Webhook) (text : Bytes) (b : Bool)
      → Keeps (Calm p i d l) (dead_letter_sent c h text b)
  unfolding dead_letter_sent
  Calm-dead_letter_sent c h text false = search calm_rules
  Calm-dead_letter_sent c h text true = search calm_rules

  pub Calm-send_to_dlq :
      (c : WorkerConfig) (h : Webhook) (t : DeadLetterReason) (text : Bytes)
      → Keeps (Calm p i d l) (send_to_dlq c h t text)
  unfolding send_to_dlq publish_dead_letter
  Calm-send_to_dlq c h t text = search (calm_rules, Calm-dead_letter_sent)

  Calm-script_retry_scheduled :
      (c : WorkerConfig) (h : Webhook) (text : Bytes) (at : ℕ) (b : Bool)
      → Keeps (Calm p i d l) (script_retry_scheduled c h text at b)
  unfolding script_retry_scheduled
  Calm-script_retry_scheduled c h text at false = search calm_rules
  Calm-script_retry_scheduled c h text at true = search calm_rules

  Calm-retry_script :
      (c : WorkerConfig) (h : Webhook) (e : ScriptError) → Keeps (Calm p i d l) (retry_script c h e)
  unfolding retry_script
  Calm-retry_script c h e = search (calm_rules, Calm-script_retry_scheduled)

  -- A script failure.
  pub Calm-handle_script_error :
      (c : WorkerConfig) (h : Webhook) (e : ScriptError)
      → Keeps (Calm p i d l) (handle_script_error c h e)
  unfolding handle_script_error
  Calm-handle_script_error c h e = search (keeps_rules, Calm-retry_script, Calm-send_to_dlq)

  pub Calm-schedule_retry_for_circuit :
      (c : WorkerConfig) (h : Webhook) → Keeps (Calm p i d l) (schedule_retry_for_circuit c h)
  unfolding schedule_retry_for_circuit
  Calm-schedule_retry_for_circuit c h = search (calm_rules, Calm-acked_if)
