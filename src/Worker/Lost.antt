-- ===== src/Worker/Lost.antt =====
-- internal/worker/worker.go: what happens when a dead letter cannot be published.
use howk.Prelude.{suc, ◌≡◌, refl, none, arith}
use howk.Prelude.Text.{bytes_eq_refl}
use howk.Domain.{Webhook, DeliveryResult}
use howk.Redis.{replied, lost}
use howk.HotState.{delete_retry_data}
use howk.Effects.{
  Env, World, Delivery, pure, ◌>>=◌, redis, publish, publish_result, publish_dead_letter,
  publish_tombstone, time_now, bucket,
}
use howk.Worker.Config.{WorkerConfig, ack}
use howk.Worker.Record.{publish_state_snapshot, update_status, record_stats, cleanup_retry_data}
use howk.Worker.Attempt.{on_dead}

-- A webhook that is given up is acknowledged even if its dead letter was not published, and its
-- retry data is deleted: then no trace of it is left to deliver.
dead_letter_is_lost :
    (c : WorkerConfig) (h : Webhook) (r : Delivery) (t : DeliveryResult) (env : Env) (w : World)
    → env.reply (suc (suc w.calls)) ≡ lost
    → env.reply (suc (suc (suc (suc (suc w.calls))))) ≡ replied
    → let (o, w') = on_dead c h r t env w in
      (o ≡ ack)
      × (w'.topics.dead_letters ≡ w.topics.dead_letters)
      × (w'.store.retry_data h.id ≡ none)
unfolding on_dead ◌>>=◌ pure update_status publish_state_snapshot redis publish publish_dead_letter
    publish_tombstone publish_result time_now record_stats bucket cleanup_retry_data
    delete_retry_data
dead_letter_is_lost c h r t env w l d = rw (l, d, bytes_eq_refl h.id) (refl, ground arith, refl)
