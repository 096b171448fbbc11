-- ===== src/Reconciler/Tests.antt =====
-- internal/reconciler/reconciler.go: runs of the reconciler on concrete partitions.
use howk.Prelude.{◌*◌, ◌≡◌, inl, inr, refl, true, [], ◌∷◌, some, arith}
use howk.Prelude.Text.{codes}
use howk.Domain.{WebhookStatus, WebhookStateSnapshot, failed}
use howk.Domain.Samples.{sample_webhook}
use howk.Redis.{replied}
use howk.HotState.Tests.{ttls, early}
use howk.Retry.{second}
use howk.Effects.{Env}
use howk.Worker.Record.{snapshot_of}
use howk.Worker.Tests.{steady, before}
use howk.Reconciler.{
  Partition, snapshot, tombstone, restore_state, reconcile, never_returns, completed,
}
use howk.Reconciler.Restore.{IsRestored, restore_state-snapshot_of}
use howk.Reconciler.HighWater.{tombstone_blocks_recovery}
use howk.Reconciler.Completion.{recovery_completes}

abbrev answering : Env
answering = steady (λ n. replied) 200

-- The sample failed and is due again after 500 seconds.
abbrev waiting : WebhookStatus
waiting = record early { next_retry_at = some (500 * second) }

abbrev failed_snapshot : WebhookStateSnapshot
failed_snapshot = snapshot_of sample_webhook failed waiting (300 * second)

restore_state-snapshot_of_example :
    let (ok, w') = restore_state ttls failed_snapshot answering before in
    (ok ≡ true) × IsRestored ttls sample_webhook (500 * second) (400 * second) w'.store
restore_state-snapshot_of_example =
    restore_state-snapshot_of ttls sample_webhook waiting (300 * second) (500 * second) answering
      before refl (λ n. refl) refl

-- The last message says that the webhook was delivered.
abbrev delivered_last : Partition
delivered_last = record {
  high_water_mark = 2;
  messages =
      record { offset = 0; value = snapshot failed_snapshot }
      ∷ record { offset = 1; value = tombstone }
      ∷ [];
}

abbrev failed_last : Partition
failed_last = record {
  high_water_mark = 2;
  messages =
      record { offset = 0; value = tombstone }
      ∷ record { offset = 1; value = snapshot failed_snapshot }
      ∷ [];
}

tombstone_blocks_recovery_example :
    (reconcile ttls (codes "host") (some delivered_last ∷ []) answering before).0 ≡ never_returns
tombstone_blocks_recovery_example =
    tombstone_blocks_recovery ttls (codes "host") delivered_last [] answering before (omega arith)
      (inl (omega arith), (inr (inl refl), tt)) (λ n. refl)

recovery_completes_example :
    let (result, w') = reconcile ttls (codes "host") (some failed_last ∷ []) answering before in
    (result ≡ completed) × (w'.store.canary ≡ true)
recovery_completes_example =
    recovery_completes ttls (codes "host") (some failed_last) [] answering before
      (inr (inr (inl (omega arith, (failed_snapshot, refl)))), tt) (λ n. refl)
