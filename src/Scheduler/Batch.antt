-- ===== src/Scheduler/Batch.antt =====
-- internal/scheduler/scheduler.go: what a batch does with the references that it popped.
use howk.Prelude.{
  ℕ, ◌+◌, ◌≤◌, ◌≡◌, refl, ◌∙◌, inl, inr, true, List, [], ◌∷◌, some, arith, length, Bool-cases,
}
use howk.Prelude.Int.{ℤ, pos_part, neg_part, max_int64}
use howk.Prelude.Text.{Bytes, bytes_eq, bytes_eq→eq}
use howk.Prelude.Decimal.{NoColon}
use howk.Domain.{Webhook}
use howk.Redis.{Reply, replied, arrived, live}
use howk.Redis.ZSet.{zscore, has, IsZSet, up_to, is_due}
use howk.HotState.{Store, unix, reference, get_retry_data, pop_and_lock_retries}
use howk.HotState.Queue.{popped, pop_complete}
use howk.Effects.{Env, World, pure, ◌>>=◌, redis, publish, publish_pending}
use howk.Scheduler.{
  SchedulerConfig, parse_reference, with_data, dispatch, dispatch_all, after_pop, process_batch,
}
use howk.Scheduler.Reference.{parse_reference-reference}
use howk.Scheduler.Frame.{InTopic, Holds-dispatch, Sent-after_publish, Sent-dispatch_all}

pub get_retry_data-replied :
    (id : Bytes) (now : ℕ) (r : Reply) (s : Store) (h : Webhook)
    → arrived r ≡ true
    → live now (s.retry_data id) ≡ some h
    → get_retry_data id now r s ≡ (some h, s)
unfolding get_retry_data
get_retry_data-replied id now r s h a l = rw (a, l) refl

with_data-publishes :
    (ref : Bytes) (n : ℤ) (h : Webhook) (env : Env) (w : World)
    → ((n : ℕ) → env.reply n ≡ replied)
    → InTopic (record h { attempt = n }) (with_data ref n (some h) env w).1.topics.pending
unfolding with_data ◌>>=◌
with_data-publishes ref n h env w r =
    let g = record h { attempt = n } in
    let (b, w') = publish_pending g env w in
    (Sent-after_publish ref b).at env w'
      (unfold publish_pending in unfold publish in rw (r w.calls) (inl refl))

dispatch-publishes :
    (ref id : Bytes) (n : ℤ) (h : Webhook) (env : Env) (w : World)
    → ((n : ℕ) → env.reply n ≡ replied)
    → live (env.clock w.calls) (w.store.retry_data id) ≡ some h
    → InTopic (record h { attempt = n }) (dispatch ref (some (id, n)) env w).1.topics.pending
unfolding dispatch ◌>>=◌ redis
dispatch-publishes ref id n h env w r l =
    rw
      (get_retry_data-replied id (env.clock w.calls) (env.reply w.calls) w.store h
        (ground (arith, r w.calls)) l)
      (with_data-publishes ref n h env _ r)

dispatch_all-publishes :
    (refs : List Bytes) (ref id : Bytes) (n : ℤ) (h : Webhook) (env : Env) (w : World)
    → ((n : ℕ) → env.reply n ≡ replied)
    → ((k : ℕ) → live (env.clock k) (w.store.retry_data id) ≡ some h)
    → parse_reference ref ≡ some (id, n)
    → has ref refs ≡ true
    → InTopic (record h { attempt = n }) (dispatch_all refs env w).1.topics.pending
unfolding dispatch_all ◌>>=◌
dispatch_all-publishes [] ref id n h env w r l p m = absurd (ground arith)
dispatch_all-publishes (x ∷ xs) ref id n h env w r l p m =
    let (u, w') = dispatch x (parse_reference x) env w in
    elim (Bool-cases (bytes_eq x ref)) [
      | inl e ↦
          (Sent-dispatch_all xs).at env w'
            (rw (bytes_eq→eq x ref e, p) (dispatch-publishes ref id n h env w r (l w.calls)))
      | inr e ↦
          let same = (Holds-dispatch x (parse_reference x)).at env w refl in
          dispatch_all-publishes xs ref id n h env w' r (λ k. rw same (l k)) p (ground arith)
    ]

pop-data :
    (limit lock now : ℕ) (r : Reply) (s : Store)
    → r ≡ replied
    → let (o, s') = pop_and_lock_retries limit lock now r s in
      (o ≡ some (popped limit now s)) × (s'.retry_data ≡ s.retry_data)
unfolding pop_and_lock_retries
pop-data limit lock now r s e = rw e (refl, refl)

-- A retry that is due, whose webhook is in Redis, is published again under its attempt by the next
-- batch that has room for all that is due, as long as Redis and Kafka answer.
pub due_retry_is_published :
    (c : SchedulerConfig) (id : Bytes) (n : ℤ) (h : Webhook) (env : Env) (w : World)
    → NoColon id
    → pos_part n ≤ max_int64
    → neg_part n ≤ max_int64 + 1
    → ((k : ℕ) → env.reply k ≡ replied)
    → ((k : ℕ) → live (env.clock k) (w.store.retry_data id) ≡ some h)
    → IsZSet w.store.retries
    → length (up_to (unix (env.clock w.calls)) w.store.retries) ≤ c.batch_size
    → is_due (unix (env.clock w.calls)) (zscore (reference id n) w.store.retries) ≡ true
    → InTopic (record h { attempt = n }) (process_batch c env w).1.topics.pending
unfolding process_batch ◌>>=◌ redis after_pop pure
due_retry_is_published c id n h env w a b d r l z q due =
    let now = env.clock w.calls in
    let (items, same) =
      pop-data c.batch_size c.lock_timeout now (env.reply w.calls) w.store (r w.calls) in
    rw items (
      dispatch_all-publishes (popped c.batch_size now w.store) (reference id n) id n h env _ r
        (λ k. rw same (l k)) (parse_reference-reference id n a b d)
        (pop_complete c.batch_size now w.store (reference id n) z q ∙ due))
