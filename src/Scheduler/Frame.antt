-- ===== src/Scheduler/Frame.antt =====
-- internal/scheduler/scheduler.go: what dispatching a reference leaves alone.
use howk.Prelude.{
  ℕ, ◌≡◌, ◌∙◌, ◌⊎◌, inr, Bool, true, false, List, [], ◌∷◌, Option, none, some, arith,
}
use howk.Prelude.Int.{ℤ}
use howk.Prelude.Text.{Bytes}
use howk.Domain.{Webhook}
use howk.Redis.{Reply, replied, lost, late, Entry, Map, wrote}
use howk.HotState.{Store, Op, get_retry_data, ack_retry}
use howk.Effects.{World, Topics, redis, publish, publish_pending}
use howk.Effects.Keeps.{Keeps, keeps_rules}
use howk.Scheduler.{parse_reference, acknowledge, after_publish, with_data, dispatch, dispatch_all}

-- The topic holds the message.
abbrev pub InTopic : Webhook → List Webhook → Type 0
InTopic h [] = ⊥
InTopic h (x ∷ xs) = (x ≡ h) ⊎ InTopic h xs

-- The webhooks' data is as given, and the topic holds a message.
abbrev pub Holds : Map (Entry Webhook) → World → Type 0
Holds m w = w.store.retry_data ≡ m

abbrev pub Sent : Webhook → World → Type 0
Sent h w = InTopic h w.topics.pending

module _ {m : Map (Entry Webhook)} where
  Holds-redis :
      {A : Type 0} (f : ℕ → Reply → Op A)
      → ((now : ℕ) (r : Reply) (s : Store) → (f now r s).1.retry_data ≡ s.retry_data)
      → Keeps (Holds m) (redis f)
  unfolding redis
  Holds-redis f g = record { at = λ env w h. g _ _ w.store ∙ h }

  Holds-publish : (f : Topics → Topics) → Keeps (Holds m) (publish f)
  unfolding publish
  Holds-publish f = record { at = λ env w h. h }

  Holds-acknowledge : (ref : Bytes) → Keeps (Holds m) (acknowledge ref)
  unfolding acknowledge ack_retry
  Holds-acknowledge ref = Keeps-of (Holds-redis (ack_retry ref) (λ now r s. ground arith))
    where
      Keeps-of : Keeps (Holds m) (redis (ack_retry ref)) → Keeps (Holds m) (acknowledge ref)
      Keeps-of k = search (keeps_rules, k)

  Holds-after_publish : (ref : Bytes) (b : Bool) → Keeps (Holds m) (after_publish ref b)
  unfolding after_publish
  Holds-after_publish ref true = Holds-acknowledge ref
  Holds-after_publish ref false = search keeps_rules

  Holds-with_data : (ref : Bytes) (n : ℤ) (o : Option Webhook) → Keeps (Holds m) (with_data ref n o)
  unfolding with_data publish_pending
  Holds-with_data ref n none = Holds-acknowledge ref
  Holds-with_data ref n (some h) = search (keeps_rules, Holds-publish, Holds-after_publish)

  pub Holds-dispatch : (ref : Bytes) (o : Option (Bytes × ℤ)) → Keeps (Holds m) (dispatch ref o)
  unfolding dispatch get_retry_data
  Holds-dispatch ref none = Holds-acknowledge ref
  Holds-dispatch ref (some (id, n)) = search (keeps_rules, Holds-redis, Holds-with_data)

module _ {h : Webhook} where
  Sent-redis : {A : Type 0} (f : ℕ → Reply → Op A) → Keeps (Sent h) (redis f)
  unfolding redis
  Sent-redis f = record { at = λ env w k. k }

  Sent-publish_pending : (g : Webhook) → Keeps (Sent h) (publish_pending g)
  unfolding publish_pending publish
  Sent-publish_pending g = record { at = λ env w k. go (env.reply w.calls) w.topics k }
    where
      go :
          (r : Reply) (t : Topics)
          → InTopic h t.pending
          → InTopic h (wrote r (record t { pending = g ∷ t.pending }) t).pending
      go replied t k = inr k
      go late t k = inr k
      go lost t k = k

  Sent-acknowledge : (ref : Bytes) → Keeps (Sent h) (acknowledge ref)
  unfolding acknowledge
  Sent-acknowledge ref = search (keeps_rules, Sent-redis)

  pub Sent-after_publish : (ref : Bytes) (b : Bool) → Keeps (Sent h) (after_publish ref b)
  unfolding after_publish
  Sent-after_publish ref true = Sent-acknowledge ref
  Sent-after_publish ref false = search keeps_rules

  Sent-with_data : (ref : Bytes) (n : ℤ) (o : Option Webhook) → Keeps (Sent h) (with_data ref n o)
  unfolding with_data
  Sent-with_data ref n none = Sent-acknowledge ref
  Sent-with_data ref n (some g) = search (keeps_rules, Sent-publish_pending, Sent-after_publish)

  pub Sent-dispatch : (ref : Bytes) (o : Option (Bytes × ℤ)) → Keeps (Sent h) (dispatch ref o)
  unfolding dispatch
  Sent-dispatch ref none = Sent-acknowledge ref
  Sent-dispatch ref (some (id, n)) = search (keeps_rules, Sent-redis, Sent-with_data)

  pub Sent-dispatch_all : (refs : List Bytes) → Keeps (Sent h) (dispatch_all refs)
  unfolding dispatch_all
  Sent-dispatch_all [] = search keeps_rules
  Sent-dispatch_all (ref ∷ refs) =
      search (keeps_rules, Sent-dispatch ref (parse_reference ref), Sent-dispatch_all refs)
