-- ===== src/HotState/Tests.antt =====
-- internal/hotstate/redis.go: runs of the retry queue and of the status hash.
use howk.Prelude.{
  ℕ, ◌+◌, ◌*◌, ◌≤◌, ◌≡◌, refl, false, List, [], ◌∷◌, none, some, arith, length, ◌/◌, ◌==◌, ◌∙◌, sym,
  ap, inl, inr, Bool-cases,
}
use howk.Prelude.Int.{pos, pos_part, max_int64}
use howk.Prelude.Text.{Bytes, codes, bytes_eq, bytes_eq→eq}
use howk.Domain.{WebhookStatus, delivered, failed}
use howk.Redis.{replied, late, empty_map}
use howk.Redis.ZSet.{zscore, up_to, IsZSet}
use howk.HotState.{Store, TtlConfig, pop_and_lock_retries}
use howk.HotState.Lock.{
  LockEvent, acquires, extends, unlocks, lock_steps, HeldUntil, lock_is_exclusive,
}
use howk.HotState.Exclusive.{QueueOp, pops, acks, hands_out, pop_exclusive}
use howk.HotState.Status.{LastWins, set_all, last_write_wins}
use howk.HotState.{incr_stats}
use howk.HotState.Stats.{hours, fuel_for, full_hour, stat_key, get_stats}
use howk.Prelude.Decimal.{itoa, atoi, atoi-itoa}
use howk.Redis.ZSet.{bytes_eq_iff}
use mathlib.Core.Option.{some-injective}
use howk.HotState.Counted.{AreNamed, hours_end, delivery_is_counted}
use howk.Retry.{second}

abbrev pub ttls : TtlConfig
ttls = record {
  retry_data_ttl = 100 * second;
  status_ttl = 100 * second;
  idempotency_ttl = 100 * second;
}

abbrev pub empty_store : Store
empty_store = record {
  statuses = empty_map;
  retries = [];
  retry_data = empty_map;
  retry_meta = empty_map;
  processed = empty_map;
  inflight = empty_map;
  domain_inflight = empty_map;
  endpoints = λ k. record { circuit = none; probe_lock = none };
  counters = empty_map;
  sketches = empty_map;
  scripts = empty_map;
  epoch = none;
  canary = false;
  reconciler_lock = none;
  stats_ttl = 172800 * second;
}

-- Three retries, due at 5, 6 and 9 seconds.
abbrev queue : Store
queue = record empty_store { retries = (codes "a:1", 5) ∷ (codes "b:1", 6) ∷ (codes "c:2", 9) ∷ [] }

queue-IsZSet : IsZSet queue.retries
unfolding zscore
queue-IsZSet = (refl, (refl, (refl, tt)))

two_due :
    (pop_and_lock_retries 10 (30 * second) (7 * second) replied queue).0
    ≡ some (codes "a:1" ∷ codes "b:1" ∷ [])
unfolding pop_and_lock_retries up_to
two_due = refl

-- Another scheduler pops twice, and the other reference is acknowledged in between.
abbrev others : List QueueOp
others =
    pops 5 (30 * second) (20 * second) replied
    ∷ acks (codes "a:1") (21 * second) replied
    ∷ pops 5 (30 * second) (30 * second) late
    ∷ []

pop_exclusive_example :
    hands_out (codes "b:1") others (pop_and_lock_retries 10 (30 * second) (7 * second) late queue).1
    ≡ false
unfolding up_to
pop_exclusive_example =
    pop_exclusive 10 (30 * second) (7 * second) late queue (codes "b:1") others queue-IsZSet
      (ground arith) refl (omega arith, (tt, (omega arith, tt)))

abbrev pub early : WebhookStatus
early = record {
  webhook_id = codes "wh_1";
  state = failed;
  attempts = pos 1;
  last_attempt_at = some 900;
  last_status_code = 500;
  last_error = [];
  next_retry_at = none;
  delivered_at = none;
  updated_at_ns = 1000;
}

abbrev late_one : WebhookStatus
late_one = record early { state = delivered; attempts = pos 2; updated_at_ns = 2000 }

-- The later status arrives first.
last_write_wins_example :
    LastWins ttls
      (early ∷ late_one ∷ [])
      3000
      none
      ((set_all ttls (early ∷ late_one ∷ []) 3000 empty_store).statuses (codes "wh_1"))
last_write_wins_example =
    last_write_wins ttls (early ∷ late_one ∷ []) 3000 empty_store (codes "wh_1") (omega arith)
      (refl, (refl, tt))

-- Another instance tries to take the lock, to extend it and to release it.
abbrev intrusions : List LockEvent
intrusions =
    record {
      value = codes "b";
      ttl = 30 * second;
      now = 5 * second;
      reply = replied;
      act = acquires;
    }
    ∷ record {
      value = codes "b";
      ttl = 30 * second;
      now = 6 * second;
      reply = replied;
      act = extends;
    }
    ∷ record { value = codes "b"; ttl = 30 * second; now = 7 * second; reply = late; act = unlocks }
    ∷ []

abbrev locked_store : Store
locked_store = record empty_store {
  reconciler_lock = some (record { value = codes "a"; expires = some (10 * second) });
}

lock_is_exclusive_example :
    ((lock_steps intrusions locked_store).0 ≡ false)
    × HeldUntil (codes "a") (10 * second) (lock_steps intrusions locked_store).1
lock_is_exclusive_example =
    lock_is_exclusive intrusions (codes "a") (10 * second) locked_store refl
      (refl, (refl, (refl, tt))) (omega arith, (omega arith, (omega arith, tt)))

abbrev an_hour : ℕ
an_hour = 3600 * second

-- The last moment is the start of an hour, which counts.
hours_end_example :
    hours (fuel_for (3 * an_hour) + 3) (full_hour (an_hour + 5)) (3 * an_hour)
    ≡ an_hour ∷ 2 * an_hour ∷ 3 * an_hour ∷ []
hours_end_example = hours_end (an_hour + 5) (3 * an_hour) 3 (omega arith)

itoa_eq :
    (m n : ℕ) → m ≤ max_int64 → n ≤ max_int64 → bytes_eq (itoa (pos m)) (itoa (pos n)) ≡ (m == n)
itoa_eq m n a b = elim (Bool-cases (bytes_eq (itoa (pos m)) (itoa (pos n)))) [
  | inl e ↦
      let q : some (pos m) ≡ some (pos n) =
        sym (atoi-itoa (pos m) a (omega arith))
        ∙ ap atoi (bytes_eq→eq _ _ e)
        ∙ atoi-itoa (pos n) b (omega arith) in
      let d : m ≡ n = ap pos_part (some-injective _ _ q) in rw e (ground arith)
  | inr e ↦ ground (arith, bytes_eq_iff (itoa (pos m)) (itoa (pos n)))
]

abbrev hour_number : ℕ → Bytes
hour_number t = itoa (pos (t / an_hour))

hours-AreNamed : AreNamed hour_number an_hour (5 * an_hour) (2 * an_hour)
hours-AreNamed n a b = itoa_eq 2 (n * an_hour / an_hour) (omega arith) (omega arith) ∙ ground arith

delivery_is_counted_example :
    let s' =
      (incr_stats
        (stat_key hour_number (codes "delivered") (2 * an_hour))
        1
        0
        replied
        empty_store).1 in
    let old =
      (get_stats length hour_number an_hour (5 * an_hour) 9 replied replied empty_store).0 in
    get_stats length hour_number an_hour (5 * an_hour) 9 replied replied s'
    ≡ (record old { delivered = old.delivered + 1 }, s')
delivery_is_counted_example =
    delivery_is_counted length hour_number an_hour (5 * an_hour) (2 * an_hour) 0 9 1 replied
      empty_store hours-AreNamed (omega arith) (omega arith) (omega arith) refl
