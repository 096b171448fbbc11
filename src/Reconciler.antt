-- ===== src/Reconciler.antt =====
-- internal/reconciler/reconciler.go: Redis is rebuilt from the state topic. A partition is read
-- from its oldest message; the reader of a partition waits when there is no further message, which
-- here is the end of the list. A cancelled context is not modelled.
pub mod Restore
pub mod HighWater
pub mod Completion
mod Tests
use howk.Prelude.{
  ℕ, suc, ◌+◌, ◌-◌, ◌/◌, Bool, true, false, List, [], ◌∷◌, Option, none, some, leb, ◌==◌,
  if◌then◌else◌,
}
use howk.Prelude.Int.{incr}
use howk.Prelude.Text.{Bytes, codes}
use howk.Domain.{
  Webhook, WebhookState, pending, delivering, delivered, failed, exhausted, WebhookStatus,
  WebhookStateSnapshot, SystemEpoch,
}
use howk.HotState.{TtlConfig, unix, set_status, ensure_retry_data, schedule_retry}
use howk.HotState.Recovery.{set_canary, set_epoch, flush_for_rebuild}
use howk.Effects.{M, Env, World, pure, ◌>>=◌, ◌>>◌, redis, redis₂, time_now}

-- The value of a message of the state topic: none, one that does not parse, or a snapshot.
pub data StateValue : Type 0 where
  tombstone unparsed : StateValue
  snapshot : WebhookStateSnapshot → StateValue

pub record StateMessage : Type 0 where
  pub offset : ℕ
  pub value : StateValue

-- What the reader of a partition finds, unless it cannot be opened.
pub record Partition : Type 0 where
  pub high_water_mark : ℕ
  pub messages : List StateMessage

unfoldable pub restored_status : WebhookStateSnapshot → ℕ → WebhookStatus
restored_status snap now = record {
  webhook_id = snap.webhook_id;
  state = snap.state;
  attempts = incr snap.attempt;
  last_attempt_at = some snap.created_at;
  last_status_code = 0;
  last_error = snap.last_error;
  next_retry_at = snap.next_retry_at;
  delivered_at = none;
  updated_at_ns = if snap.updated_at_ns == 0 then now else snap.updated_at_ns;
}

unfoldable pub restored_webhook : WebhookStateSnapshot → ℕ → Webhook
restored_webhook snap at = record {
  id = snap.webhook_id;
  config_id = snap.config_id;
  endpoint = snap.endpoint;
  endpoint_hash = snap.endpoint_hash;
  payload = snap.payload;
  headers = snap.headers;
  idempotency_key = snap.idempotency_key;
  signing_secret = snap.signing_secret;
  attempt = snap.attempt;
  max_attempts = snap.max_attempts;
  created_at = snap.created_at;
  scheduled_at = at;
  script_hash = snap.script_hash;
  delivery_query_params = snap.delivery_query_params;
  delivery_headers = snap.delivery_headers;
  retry_on_status = snap.retry_on_status;
}

abbrev pub succeeded {ℓ} : {A : Type ℓ} → Option A → Bool
succeeded none = false
succeeded (some a) = true

unfoldable pub schedule_restored : TtlConfig → Webhook → ℕ → Option (Unit {0}) → M Bool
schedule_restored c h at none = pure false
schedule_restored c h at (some _) = do
  done ← redis (schedule_retry c h.id h.attempt at (codes "reconciled"))
  pure (succeeded done)

-- The time at which a snapshot's retry is due: none unless it has failed.
unfoldable pub retry_due : WebhookState → Option ℕ → Option ℕ
retry_due failed at = at
retry_due pending at = none
retry_due delivering at = none
retry_due delivered at = none
retry_due exhausted at = none

unfoldable pub restore_retry : TtlConfig → WebhookStateSnapshot → Option ℕ → M Bool
unfolding restored_webhook schedule_restored
restore_retry c snap none = pure true
restore_retry c snap (some at) = do
  ensured ← redis₂ (ensure_retry_data c.retry_data_ttl (restored_webhook snap at))
  schedule_restored c (restored_webhook snap at) at ensured

unfoldable pub after_status : TtlConfig → WebhookStateSnapshot → Option (Unit {0}) → M Bool
unfolding restore_retry retry_due
after_status c snap none = pure false
after_status c snap (some _) = restore_retry c snap (retry_due snap.state snap.next_retry_at)

-- Whether there was no error.
unfoldable pub restore_state : TtlConfig → WebhookStateSnapshot → M Bool
unfolding restored_status after_status
restore_state c snap = do
  now ← time_now
  set ← redis (set_status c (restored_status snap now))
  after_status c snap set

-- How the loop over a partition ends: at the high water mark, or it waits for a message. With the
-- number of webhooks restored.
pub data Scan : Type 0 where
  reached waits : ℕ → Scan

-- Only after a snapshot was restored is the high water mark looked at. `rest` is what the loop
-- does with the messages that follow, at that count.
unfoldable pub after_restore : ℕ → ℕ → (ℕ → M Scan) → ℕ → Bool → M Scan
after_restore mark offset rest n false = rest n
after_restore mark offset rest n true =
    if leb (mark - 1) offset then pure (reached (suc n)) else rest (suc n)

unfoldable pub scan_value : TtlConfig → ℕ → ℕ → (ℕ → M Scan) → ℕ → StateValue → M Scan
unfolding restore_state after_restore
scan_value c mark offset rest n tombstone = rest n
scan_value c mark offset rest n unparsed = rest n
scan_value c mark offset rest n (snapshot snap) = do
  ok ← restore_state c snap
  after_restore mark offset rest n ok

-- The loop of `consumePartition`; `n` is the count so far.
unfoldable pub scan : TtlConfig → ℕ → List StateMessage → ℕ → M Scan
unfolding scan_value
scan c mark [] n = pure (waits n)
scan c mark (m ∷ ms) n = scan_value c mark m.offset (scan c mark ms) n m.value

-- An empty partition is skipped.
unfoldable pub consume_partition : TtlConfig → Partition → ℕ → M Scan
unfolding scan
consume_partition c p n =
    if p.high_water_mark == 0 then pure (reached n) else scan c p.high_water_mark p.messages n

unfoldable pub after_scan : (ℕ → M (Option ℕ)) → Scan → M (Option ℕ)
after_scan rest (reached n) = rest n
after_scan rest (waits n) = pure none

-- `none` is a run that waits for ever; a partition that cannot be opened is passed over.
unfoldable pub consume_partitions : TtlConfig → List (Option Partition) → ℕ → M (Option ℕ)
unfolding consume_partition after_scan
consume_partitions c [] n = pure (some n)
consume_partitions c (none ∷ ps) n = consume_partitions c ps n
consume_partitions c (some p ∷ ps) n = do
  r ← consume_partition c p n
  after_scan (consume_partitions c ps) r

unfoldable pub flush : M Bool
unfolding flush_for_rebuild
flush env w =
    let (ok, s) = flush_for_rebuild (λ n. env.reply (w.calls + n)) w.store in
    (ok, record w { store = s; calls = w.calls + 11 })

pub data RunResult : Type 0 where
  completed not_flushed never_returns : RunResult

unfoldable pub mark_complete : Bytes → Option ℕ → M RunResult
mark_complete host none = pure never_returns
mark_complete host (some n) = do
  _ ← redis set_canary
  now ← time_now
  _ ← redis (
      set_epoch (record {
        epoch = unix now;
        reconciler_host = host;
        messages_replayed = n;
        completed_at = now;
      }))
  pure completed

unfoldable pub rebuild : TtlConfig → Bytes → List (Option Partition) → Bool → M RunResult
unfolding consume_partitions mark_complete
rebuild c host [] true = pure completed
rebuild c host (p ∷ ps) true = do n ← consume_partitions c (p ∷ ps) 0; mark_complete host n
rebuild c host ps false = pure not_flushed

-- `Run`.
unfoldable pub reconcile : TtlConfig → Bytes → List (Option Partition) → M RunResult
unfolding flush rebuild
reconcile c host partitions = do ok ← flush; rebuild c host partitions ok
