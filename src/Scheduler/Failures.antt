-- ===== src/Scheduler/Failures.antt =====
-- internal/scheduler/scheduler.go: what becomes of a reference when a call fails.
use howk.Prelude.{ℕ, suc, ◌≡◌, refl, ap, ◌⊎◌, inl, inr, true, false, All, List, ◌∷◌, none, some}
use howk.Prelude.Int.{ℤ}
use howk.Prelude.Text.{Bytes}
use howk.Domain.{Webhook}
use howk.Redis.{Reply, replied, lost, late, arrived, live}
use howk.Redis.ZSet.{zscore-zrem_self, IsZSet, zrem-IsZSet}
use howk.HotState.Exclusive.{QueueOp, hands_out, IsElsewhere, hands_out-absent}
use howk.HotState.{Store, get_retry_data, ack_retry}
use howk.Effects.{Env, World, Topics, pure, ◌>>=◌, redis, publish, publish_pending}
use howk.Scheduler.{parse_reference, acknowledge, after_publish, with_data, dispatch}
use howk.Scheduler.Batch.{get_retry_data-replied}

acknowledge-topics :
    (ref : Bytes) (env : Env) (w : World) → (acknowledge ref env w).1.topics ≡ w.topics
unfolding acknowledge ◌>>=◌ redis pure
acknowledge-topics ref env w = refl

after_publish-kept :
    (ref : Bytes) (g : Webhook) (env : Env) (w : World)
    → let (b, w') = publish_pending g env w in
      let w'' = (after_publish ref b env w').1 in
      (w''.store.retries ≡ w.store.retries) ⊎ (w''.topics.pending ≡ g ∷ w.topics.pending)
unfolding publish_pending publish after_publish pure
after_publish-kept ref g env w = go (env.reply w.calls) refl
  where
    go :
        (r : Reply)
        → env.reply w.calls ≡ r
        → let (b, w') = publish_pending g env w in
          let w'' = (after_publish ref b env w').1 in
          (w''.store.retries ≡ w.store.retries) ⊎ (w''.topics.pending ≡ g ∷ w.topics.pending)
    go replied e = rw e (inr (ap (λ (t : Topics). t.pending) (acknowledge-topics ref env _)))
    go lost e = rw e (inl refl)
    go late e = rw e (inl refl)

-- However the calls end, a reference whose data was read leaves the queue only if the webhook was
-- published under its attempt: otherwise the whole queue, its locks included, is as it was.
kept_until_published :
    (ref id : Bytes) (n : ℤ) (h : Webhook) (env : Env) (w : World)
    → parse_reference ref ≡ some (id, n)
    → arrived (env.reply w.calls) ≡ true
    → live (env.clock w.calls) (w.store.retry_data id) ≡ some h
    → let w' = (dispatch ref (parse_reference ref) env w).1 in
      (w'.store.retries ≡ w.store.retries)
      ⊎ (w'.topics.pending ≡ record h { attempt = n } ∷ w.topics.pending)
unfolding dispatch ◌>>=◌ redis with_data
kept_until_published ref id n h env w p a l =
    rw (p, get_retry_data-replied id (env.clock w.calls) (env.reply w.calls) w.store h a l)
      (after_publish-kept ref (record h { attempt = n }) env _)

get_retry_data-failed :
    (id : Bytes) (now : ℕ) (r : Reply) (s : Store)
    → arrived r ≡ false
    → get_retry_data id now r s ≡ (none, s)
unfolding get_retry_data
get_retry_data-failed id now r s a = rw a refl

-- The scheduler takes any failure to read the data for missing data. So if that one call to Redis
-- fails, nothing is published, and though the data is still there, no pop hands the reference out
-- any more, at whatever time, unless the reference is scheduled anew.
pub failed_read_drops_retry :
    (ref id : Bytes) (n : ℤ) (env : Env) (w : World) (ops : List QueueOp)
    → parse_reference ref ≡ some (id, n)
    → arrived (env.reply w.calls) ≡ false
    → env.reply (suc w.calls) ≡ replied
    → IsZSet w.store.retries
    → All (IsElsewhere ref) ops
    → let w' = (dispatch ref (parse_reference ref) env w).1 in
      (hands_out ref ops w'.store ≡ false)
      × (w'.store.retry_data ≡ w.store.retry_data)
      × (w'.topics ≡ w.topics)
unfolding dispatch ◌>>=◌ redis with_data acknowledge ack_retry pure
failed_read_drops_retry ref id n env w ops p a r z e =
    rw (p, get_retry_data-failed id (env.clock w.calls) (env.reply w.calls) w.store a, r)
      (
        hands_out-absent ref ops _ (zrem-IsZSet ref w.store.retries z)
            (zscore-zrem_self ref w.store.retries) e,
        refl,
        refl,
      )
