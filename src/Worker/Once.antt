-- ===== src/Worker/Once.antt =====
-- internal/worker/worker.go: the idempotency check of `processMessage`.
use howk.Prelude.{
  ℕ, suc, ◌≡◌, ◌≢◌, ◌⊎◌, refl, ap, ◌∙◌, Bool, true, false, List, [], ◌∷◌, Option, none, some, arith,
  inl, inr,
}
use howk.Prelude.Int.{ℤ}
use howk.Prelude.Text.{Bytes, bytes_eq_refl}
use howk.Domain.{Webhook}
use howk.Redis.{Reply, replied, lost, late, arrived, live, expiry, is_live}
use howk.Redis.ZSet.{bytes_eq_iff}
use howk.HotState.{Store, reference, check_and_set_processed}
use howk.Effects.{Env, World, pure, ◌>>=◌, redis}
use howk.Worker.Config.{WorkerConfig, ack}
use howk.Worker.{
  is_duplicate, unless_duplicate, process_webhook, parse_message, if_parsed, process_message,
}
use howk.Worker.Gates.{Once-unless_duplicate}

-- The key is set and runs out at that time.
abbrev pub Marked : Bytes → Option ℕ → Store → Type 0
Marked k until s = s.processed k ≡ some (record { value = tt; expires = until })

check-Marked :
    (id : Bytes) (n : ℤ) (ttl now : ℕ) (r : Reply) (s : Store) (k : Bytes) (until : Option ℕ)
    → Marked k until s
    → is_live now until ≡ true
    → Marked k until (check_and_set_processed id n ttl now r s).1
unfolding check_and_set_processed
check-Marked id n ttl now r s k until h l = ground (arith, bytes_eq_iff (reference id n) k)

check-sets :
    (id : Bytes) (n : ℤ) (ttl now : ℕ) (r : Reply) (s : Store)
    → live now (s.processed (reference id n)) ≡ none
    → r ≢ lost
    → Marked (reference id n) (expiry now ttl) (check_and_set_processed id n ttl now r s).1
unfolding check_and_set_processed
check-sets id n ttl now replied s h m = ground (arith, bytes_eq_refl (reference id n))
check-sets id n ttl now late s h m = ground (arith, bytes_eq_refl (reference id n))
check-sets id n ttl now lost s h m = absurd (m refl)

-- A message that finds its key set is turned away by the check.
check-found :
    (id : Bytes) (n : ℤ) (ttl now : ℕ) (r : Reply) (s : Store) (until : Option ℕ)
    → Marked (reference id n) until s
    → is_live now until ≡ true
    → arrived r ≡ true
    → check_and_set_processed id n ttl now r s ≡ (some false, s)
unfolding check_and_set_processed
check-found id n ttl now replied s until h l a = ground arith
check-found id n ttl now lost s until h l a = absurd (ground arith)
check-found id n ttl now late s until h l a = absurd (ground arith)

unless_duplicate-Marked :
    (c : WorkerConfig) (slow : Bool) (h : Webhook) (b : Bool) (env : Env) (w : World) (k : Bytes)
    (until : Option ℕ)
    → Marked k until w.store
    → Marked k until (unless_duplicate c slow h b env w).1.store
unless_duplicate-Marked c slow h b env w k until m =
    elim ((Once-unless_duplicate c slow h b).at w.sent env w (refl, refl)) [
      | inl q ↦ ap (λ p. p k) q.0 ∙ m
      | inr (x, q) ↦ ap (λ p. p k) q.0 ∙ m
    ]

process-Marked :
    (c : WorkerConfig) (slow : Bool) (h : Webhook) (env : Env) (w : World) (k : Bytes)
    (until : Option ℕ)
    → Marked k until w.store
    → is_live (env.clock w.calls) until ≡ true
    → Marked k until (process_webhook c slow h env w).1.store
unfolding process_webhook ◌>>=◌ redis
process-Marked c slow h env w k until m l =
    let (a, w') = redis (check_and_set_processed h.id h.attempt c.ttl.idempotency_ttl) env w in
    unless_duplicate-Marked c slow h (is_duplicate a) env w' k until (
      check-Marked h.id h.attempt c.ttl.idempotency_ttl (env.clock w.calls) (env.reply w.calls)
        w.store k until m l)

-- Messages that workers of either lane process one after the other.
unfoldable pub process_all : WorkerConfig → List (Bool × Webhook) → Env → World → World
unfolding process_webhook
process_all c [] env w = w
process_all c ((slow, h) ∷ hs) env w = process_all c hs env (process_webhook c slow h env w).1

process_all-Marked :
    (c : WorkerConfig) (hs : List (Bool × Webhook)) (env : Env) (w : World) (k : Bytes)
    (until : Option ℕ)
    → Marked k until w.store
    → ((n : ℕ) → is_live (env.clock n) until ≡ true)
    → Marked k until (process_all c hs env w).store
unfolding process_all
process_all-Marked c [] env w k until m l = m
process_all-Marked c ((slow, h) ∷ hs) env w k until m l =
    process_all-Marked c hs env (process_webhook c slow h env w).1 k until
      (process-Marked c slow h env w k until m (l w.calls)) l

process-sets :
    (c : WorkerConfig) (slow : Bool) (h : Webhook) (env : Env) (w : World)
    → live (env.clock w.calls) (w.store.processed (reference h.id h.attempt)) ≡ none
    → env.reply w.calls ≢ lost
    → Marked
        (reference h.id h.attempt)
        (expiry (env.clock w.calls) c.ttl.idempotency_ttl)
        (process_webhook c slow h env w).1.store
unfolding process_webhook ◌>>=◌ redis
process-sets c slow h env w n m =
    let (a, w') = redis (check_and_set_processed h.id h.attempt c.ttl.idempotency_ttl) env w in
    unless_duplicate-Marked c slow h (is_duplicate a) env w' (reference h.id h.attempt)
      (expiry (env.clock w.calls) c.ttl.idempotency_ttl)
      (check-sets h.id h.attempt c.ttl.idempotency_ttl (env.clock w.calls) (env.reply w.calls)
        w.store n m)

process-found :
    (c : WorkerConfig) (slow : Bool) (h : Webhook) (env : Env) (w : World) (until : Option ℕ)
    → Marked (reference h.id h.attempt) until w.store
    → is_live (env.clock w.calls) until ≡ true
    → arrived (env.reply w.calls) ≡ true
    → process_webhook c slow h env w ≡ (ack, record w { calls = suc w.calls })
unfolding process_webhook ◌>>=◌ redis unless_duplicate pure
process-found c slow h env w until m l a =
    rw
      (check-found h.id h.attempt c.ttl.idempotency_ttl (env.clock w.calls) (env.reply w.calls)
        w.store until m l a)
      refl

-- Once a message has been processed and its idempotency key was written, a further message with
-- the same webhook and attempt is acknowledged with nothing done, in whichever lane and whatever
-- messages are processed in between, as long as the key has not run out and its check is answered.
pub at_most_once :
    (c : WorkerConfig) (slow again : Bool) (h h' : Webhook) (hs : List (Bool × Webhook)) (env : Env)
    (w : World)
    → h'.id ≡ h.id
    → h'.attempt ≡ h.attempt
    → live (env.clock w.calls) (w.store.processed (reference h.id h.attempt)) ≡ none
    → env.reply w.calls ≢ lost
    → ((n : ℕ) → is_live (env.clock n) (expiry (env.clock w.calls) c.ttl.idempotency_ttl) ≡ true)
    → let w' = process_all c hs env (process_webhook c slow h env w).1 in
      arrived (env.reply w'.calls) ≡ true
      → process_webhook c again h' env w' ≡ (ack, record w' { calls = suc w'.calls })
at_most_once c slow again h h' hs env w e f n m l a =
    let w' = process_all c hs env (process_webhook c slow h env w).1 in
    let until = expiry (env.clock w.calls) c.ttl.idempotency_ttl in
    let k : Marked (reference h.id h.attempt) until w'.store =
      process_all-Marked c hs env (process_webhook c slow h env w).1 (reference h.id h.attempt)
        until (process-sets c slow h env w n m) l in
    process-found c again h' env w' until (rw (e, f) k) (l w'.calls) a

process-one_request :
    (c : WorkerConfig) (slow : Bool) (h : Webhook) (env : Env) (w : World)
    → let w' = (process_webhook c slow h env w).1 in
      (w'.sent ≡ w.sent) ⊎ ((g : Webhook) × (w'.sent ≡ g ∷ w.sent))
unfolding process_webhook ◌>>=◌ redis
process-one_request c slow h env w =
    let (a, w') = redis (check_and_set_processed h.id h.attempt c.ttl.idempotency_ttl) env w in
    elim ((Once-unless_duplicate c slow h (is_duplicate a)).at w.sent env w' (refl, refl)) [
      | inl q ↦ inl q.1
      | inr (x, q) ↦ inr (x, q.1)
    ]

if_parsed-one_request :
    (c : WorkerConfig) (slow : Bool) (o : Option Webhook) (env : Env) (w : World)
    → let w' = (if_parsed c slow o env w).1 in
      (w'.sent ≡ w.sent) ⊎ ((g : Webhook) × (w'.sent ≡ g ∷ w.sent))
unfolding if_parsed pure
if_parsed-one_request c slow none env w = inl refl
if_parsed-one_request c slow (some h) env w = process-one_request c slow h env w

-- Whatever a message holds, however the calls to Redis and Kafka end, and whatever the gates and
-- the script decide, a worker that processes it sends no more than one HTTP request.
one_request :
    (c : WorkerConfig) (slow : Bool) (value : Bytes) (env : Env) (w : World)
    → let w' = (process_message c slow value env w).1 in
      (w'.sent ≡ w.sent) ⊎ ((g : Webhook) × (w'.sent ≡ g ∷ w.sent))
unfolding process_message ◌>>=◌ parse_message
one_request c slow value env w = if_parsed-one_request c slow (env.parse_webhook value) env w
