-- ===== src/Reconciler/Restore.antt =====
-- internal/reconciler/reconciler.go: `restoreState` against the snapshots that
-- internal/worker/worker.go publishes.
use howk.Prelude.{ℕ, suc, ◌+◌, ◌≡◌, refl, sym, subst, ap, ◌∙◌, true, Option, none, some, arith}
use howk.Prelude.Text.{Bytes, codes, bytes_eq_refl}
use howk.Domain.{Webhook, failed, WebhookStatus, WebhookStateSnapshot}
use howk.Redis.{Reply, replied, expiry}
use howk.Redis.ZSet.{zscore, zscore-zadd}
use howk.HotState.{Store, TtlConfig, unix, reference, ensure_retry_data, schedule_retry, set_status}
use howk.Effects.{Env, World, pure, ◌>>=◌, redis, redis₂, time_now}
use howk.Worker.Record.{snapshot_of}
use howk.Reconciler.{
  restored_status, restored_webhook, schedule_restored, retry_due, restore_retry, after_status,
  restore_state,
}

-- The webhook's data is in Redis with that time, and its attempt is due then.
abbrev pub IsRestored : TtlConfig → Webhook → ℕ → ℕ → Store → Type 0
IsRestored c h at now s =
    (s.retry_data h.id
      ≡ some (record {
        value = record h { scheduled_at = at };
        expires = expiry now c.retry_data_ttl;
      }))
    × (zscore (reference h.id h.attempt) s.retries ≡ some (unix at))

snapshot-restored :
    (h : Webhook) (status : WebhookStatus) (now at : ℕ)
    → restored_webhook (snapshot_of h failed status now) at ≡ record h { scheduled_at = at }
unfolding restored_webhook snapshot_of
snapshot-restored h status now at = refl

pub set_status-replied :
    (c : TtlConfig) (st : WebhookStatus) (now : ℕ) (r : Reply) (s : Store)
    → r ≡ replied
    → let (o, s') = set_status c st now r s in (o ≡ some tt) × (s'.retry_data ≡ s.retry_data)
unfolding set_status
set_status-replied c st now r s e = (ground arith, ground arith)

ensure-stores :
    (ttl : ℕ) (h : Webhook) (now : ℕ) (r q : Reply) (s : Store)
    → r ≡ replied
    → q ≡ replied
    → s.retry_data h.id ≡ none
    → let (o, s') = ensure_retry_data ttl h now r q s in
      (o ≡ some tt) × (s'.retry_data h.id ≡ some (record { value = h; expires = expiry now ttl }))
unfolding ensure_retry_data
ensure-stores ttl h now r q s a b n = (ground arith, ground (arith, bytes_eq_refl h.id))

pub schedule-stores :
    (c : TtlConfig) (h : Webhook) (at : ℕ) (reason : Bytes) (now : ℕ) (r : Reply) (s : Store)
    → r ≡ replied
    → let (o, s') = schedule_retry c h.id h.attempt at reason now r s in
      (o ≡ some tt)
      × (s'.retry_data ≡ s.retry_data)
      × (zscore (reference h.id h.attempt) s'.retries ≡ some (unix at))
unfolding schedule_retry
schedule-stores c h at reason now r s e =
    let ref = reference h.id h.attempt in
    (
      ground arith,
      ground arith,
      ground (arith, zscore-zadd ref ref (unix at) s.retries, bytes_eq_refl ref),
    )

schedule_restored-IsRestored :
    (c : TtlConfig) (h : Webhook) (at now : ℕ) (o : Option (Unit {0})) (env : Env) (w : World)
    → o ≡ some tt
    → env.reply w.calls ≡ replied
    → w.store.retry_data h.id
      ≡ some
          (record { value = record h { scheduled_at = at }; expires = expiry now c.retry_data_ttl })
    → let (ok, w') = schedule_restored c (record h { scheduled_at = at }) at o env w in
      (ok ≡ true) × IsRestored c h at now w'.store
unfolding schedule_restored ◌>>=◌ redis pure
schedule_restored-IsRestored c h at now none env w e r d = absurd (ground arith)
schedule_restored-IsRestored c h at now (some u) env w e r d =
    let (a, b, z) =
      schedule-stores c (record h { scheduled_at = at }) at (codes "reconciled") (env.clock w.calls)
        (env.reply w.calls) w.store r in
    rw a (refl, (ap (λ m. m h.id) b ∙ d, z))

restore_retry-IsRestored :
    (c : TtlConfig) (snap : WebhookStateSnapshot) (at : ℕ) (env : Env) (w : World)
    → ((n : ℕ) → env.reply n ≡ replied)
    → w.store.retry_data snap.webhook_id ≡ none
    → let (ok, w') = restore_retry c snap (some at) env w in
      (ok ≡ true) × IsRestored c (restored_webhook snap at) at (env.clock w.calls) w'.store
unfolding restore_retry ◌>>=◌ redis₂ restored_webhook
restore_retry-IsRestored c snap at env w r d =
    let h = restored_webhook snap at in
    let (e, f) =
      ensure-stores c.retry_data_ttl h (env.clock w.calls) (env.reply w.calls)
        (env.reply (w.calls + 1)) w.store (r _) (r _) d in
    schedule_restored-IsRestored c h at (env.clock w.calls) _ env _ e (r _) f

-- The snapshot that a worker publishes of a webhook that waits for a retry puts the webhook back
-- as it was, but for the scheduled time, which becomes the retry's: its data is in Redis and its
-- attempt stands in the queue, if Redis answers and held no data of it.
pub restore_state-snapshot_of :
    (c : TtlConfig) (h : Webhook) (status : WebhookStatus) (now at : ℕ) (env : Env) (w : World)
    → status.next_retry_at ≡ some at
    → ((n : ℕ) → env.reply n ≡ replied)
    → w.store.retry_data h.id ≡ none
    → let (ok, w') = restore_state c (snapshot_of h failed status now) env w in
      (ok ≡ true) × IsRestored c h at (env.clock (suc w.calls)) w'.store
unfolding restore_state ◌>>=◌ time_now redis after_status retry_due snapshot_of restored_webhook
restore_state-snapshot_of c h status now at env w n r d =
    let snap = snapshot_of h failed status now in
    let st = restored_status snap (env.clock w.calls) in
    let (a, b) =
      set_status-replied c st (env.clock w.calls) (env.reply w.calls) w.store (r w.calls) in
    let (o, w') = redis (set_status c st) env w in
    rw a (
      subst
        (λ due.
          let (ok, w'') = restore_retry c snap due env w' in
          (ok ≡ true) × IsRestored c h at (env.clock (suc w.calls)) w''.store)
        (sym n) (restore_retry-IsRestored c snap at env w' r (ap (λ m. m h.id) b ∙ d)))
