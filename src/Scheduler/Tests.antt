-- ===== src/Scheduler/Tests.antt =====
-- internal/scheduler/scheduler.go: runs of the scheduler on concrete queues.
use howk.Prelude.{
  ℕ, ◌+◌, ◌*◌, ◌≡◌, ◌⊎◌, refl, true, false, List, [], ◌∷◌, some, none, arith, ◌==◌, if◌then◌else◌,
}
use howk.Prelude.Int.{pos, negsuc}
use howk.Prelude.Text.{codes}
use howk.Prelude.Decimal.{NoColon}
use howk.Domain.Samples.{sample_webhook}
use howk.Redis.{Reply, replied, lost, late}
use howk.Redis.ZSet.{zscore}
use howk.HotState.{reference}
use howk.HotState.Tests.{empty_store}
use howk.Retry.{second}
use howk.Effects.{World}
use howk.Worker.Tests.{steady, before}
use howk.HotState.Exclusive.{QueueOp, pops, hands_out}
use howk.Scheduler.{SchedulerConfig, parse_reference, dispatch, process_batch}
use howk.Scheduler.Reference.{parse_reference-reference}
use howk.Scheduler.Frame.{InTopic}
use howk.Scheduler.Batch.{due_retry_is_published}
use howk.Scheduler.Failures.{failed_read_drops_retry}

abbrev batches : SchedulerConfig
batches = record { batch_size = 10; lock_timeout = 30 * second }

-- The third attempt of the sample is due, at 399 of 400 seconds, and its data is there.
abbrev one_due : World
one_due = record before {
  store = record empty_store {
    retries = (codes "wh_1:2", 399) ∷ [];
    retry_data = λ k. some (record { value = sample_webhook; expires = none });
  };
}

wh_1-NoColon : NoColon (codes "wh_1")
wh_1-NoColon = (ground arith, (ground arith, (ground arith, (ground arith, tt))))

parse_reference-reference_example :
    parse_reference (reference (codes "wh_1") (negsuc 11)) ≡ some (codes "wh_1", negsuc 11)
parse_reference-reference_example =
    parse_reference-reference (codes "wh_1") (negsuc 11) wh_1-NoColon (omega arith) (omega arith)

two_colons_are_refused : parse_reference (codes "wh:1:2") ≡ none
unfolding parse_reference howk.Prelude.Decimal.split_colon
two_colons_are_refused = refl

due_retry_is_published_example :
    InTopic
      (record sample_webhook { attempt = pos 2 })
      (process_batch batches (steady (λ n. replied) 200) one_due).1.topics.pending
unfolding reference howk.Prelude.Decimal.itoa zscore howk.Redis.ZSet.up_to
due_retry_is_published_example =
    due_retry_is_published batches (codes "wh_1") (pos 2) sample_webhook (steady (λ n. replied) 200)
      one_due wh_1-NoColon (omega arith) (omega arith) (λ n. refl) (λ n. refl) (refl, tt)
      (omega arith) refl

-- Two more batches, much later.
abbrev later_pops : List QueueOp
later_pops =
    pops 10 (30 * second) (500 * second) replied ∷ pops 10 (30 * second) (900 * second) replied ∷ []

failed_read_drops_retry_example :
    let env = steady (λ n. if n == 0 then lost else replied) 200 in
    let w' = (dispatch (codes "wh_1:2") (parse_reference (codes "wh_1:2")) env one_due).1 in
    (hands_out (codes "wh_1:2") later_pops w'.store ≡ false)
    × (w'.store.retry_data ≡ one_due.store.retry_data)
    × (w'.topics ≡ one_due.topics)
unfolding parse_reference howk.Prelude.Decimal.split_colon howk.Prelude.Decimal.atoi zscore
failed_read_drops_retry_example =
    failed_read_drops_retry (codes "wh_1:2") (codes "wh_1") (pos 2)
      (steady (λ n. if n == 0 then lost else replied) 200) one_due later_pops refl refl refl
      (refl, tt) (tt, (tt, tt))
