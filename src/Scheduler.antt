-- ===== src/Scheduler.antt =====
-- internal/scheduler/scheduler.go: the retries whose time has come go back to the pending topic.
-- The counts, which are only logged, are left out.
pub mod Reference
pub mod Frame
pub mod Batch
pub mod Failures
mod Tests
use howk.Prelude.{ℕ, Bool, true, false, List, [], ◌∷◌, Option, none, some}
use howk.Prelude.Int.{ℤ}
use howk.Prelude.Text.{Bytes}
use howk.Prelude.Decimal.{atoi, split_colon}
use howk.Domain.{Webhook}
use howk.HotState.{pop_and_lock_retries, get_retry_data, ack_retry}
use howk.Effects.{M, Env, World, pure, ◌>>=◌, ◌>>◌, redis, publish_pending}

pub record SchedulerConfig : Type 0 where
  pub batch_size : ℕ
  pub lock_timeout : ℕ

abbrev pub paired : Bytes → Option ℤ → Option (Bytes × ℤ)
paired id none = none
paired id (some attempt) = some (id, attempt)

unfoldable pub parse_parts : List Bytes → Option (Bytes × ℤ)
parse_parts [] = none
parse_parts (id ∷ []) = none
parse_parts (id ∷ n ∷ []) = paired id (atoi n)
parse_parts (id ∷ n ∷ p ∷ ps) = none

unfoldable pub parse_reference : Bytes → Option (Bytes × ℤ)
unfolding parse_parts
parse_reference ref = parse_parts (split_colon ref)

unfoldable pub acknowledge : Bytes → M (Unit {0})
acknowledge ref = do _ ← redis (ack_retry ref); pure tt

unfoldable pub after_publish : Bytes → Bool → M (Unit {0})
unfolding acknowledge
after_publish ref true = acknowledge ref
after_publish ref false = pure tt

-- The attempt is that of the reference.
unfoldable pub with_data : Bytes → ℤ → Option Webhook → M (Unit {0})
unfolding after_publish
with_data ref attempt none = acknowledge ref
with_data ref attempt (some h) = do
  published ← publish_pending (record h { attempt = attempt })
  after_publish ref published

unfoldable pub dispatch : Bytes → Option (Bytes × ℤ) → M (Unit {0})
unfolding with_data
dispatch ref none = acknowledge ref
dispatch ref (some (id, attempt)) = do
  data_of ← redis (get_retry_data id)
  with_data ref attempt data_of

-- The loop over the references.
unfoldable pub dispatch_all : List Bytes → M (Unit {0})
unfolding dispatch parse_reference
dispatch_all [] = pure tt
dispatch_all (ref ∷ refs) = do dispatch ref (parse_reference ref); dispatch_all refs

-- Whether there was no error.
unfoldable pub after_pop : Option (List Bytes) → M Bool
unfolding dispatch_all
after_pop none = pure false
after_pop (some refs) = do dispatch_all refs; pure true

unfoldable pub process_batch : SchedulerConfig → M Bool
unfolding after_pop
process_batch c = do refs ← redis (pop_and_lock_retries c.batch_size c.lock_timeout); after_pop refs
