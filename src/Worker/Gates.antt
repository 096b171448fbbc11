-- ===== src/Worker/Gates.antt =====
-- internal/worker/worker.go: the gates, the processed keys and the requests sent.
use howk.Prelude.{ℕ, ◌≡◌, refl, ◌∙◌, Bool, true, false, List, Option, none, some, arith, inl, inr}
use howk.Prelude.Text.{Bytes}
use howk.Domain.{Webhook}
use howk.Redis.{Reply, Entry, Map}
use howk.Limiter.{try_acquire, release}
use howk.HotState.{Store, Op, incr_inflight, decr_inflight}
use howk.Effects.{M, World, Topics, redis, redis₂, redis₃, publish, publish_slow}
use howk.Effects.Keeps.{Keeps, Keeps-if, Keeps-bind, keeps_rules}
use howk.Effects.Once.{Once, Once-Keeps, Once-after, Once-before}
use howk.Worker.Config.{WorkerConfig, on_endpoint}
use howk.Worker.Record.{record_stats, schedule_retry_for_circuit}
use howk.Worker.{
  Gate, GateResult, proceed, diverted, nacked, after_divert, at_capacity, after_acquire,
  run_concurrency_gate, domain_of, domain_gate, release_domain, within_limit, acquire_inflight,
  inflight_gate, release_inflight, deliver_webhook, after_inflight_gate, with_inflight_slot,
  after_domain_gate, with_domain_slot, by_circuit, admit, unless_duplicate,
}
use howk.Worker.Frame.{Calm, Calm-record_stats, Calm-schedule_retry_for_circuit}
use howk.Worker.Requests.{Once-deliver_webhook}

-- The processed keys and the requests sent are as given.
abbrev pub Settled : Map (Entry (Unit {0})) → List Webhook → World → Type 0
Settled p l w = (w.store.processed ≡ p) × (w.sent ≡ l)

-- Taking a slot again after a failed divert, if there is such a step.
abbrev Again : Map (Entry (Unit {0})) → List Webhook → Option (M (Unit {0})) → Type 0
Again p l none = Unit
Again p l (some m) = Keeps (Settled p l) m

module _ {p : Map (Entry (Unit {0}))} {l : List Webhook} where
  Settled-Calm :
      {A : Type 0} (m : M A) → ((i d : Map ℕ) → Keeps (Calm p i d l) m) → Keeps (Settled p l) m
  Settled-Calm m k = record {
    at = λ env w h. let (a, b, c, e) = (k _ _).at env w (h.0, refl, refl, h.1) in (a, e);
  }

  Settled-redis :
      {A : Type 0} (f : ℕ → Reply → Op A)
      → ((now : ℕ) (r : Reply) (s : Store) → (f now r s).1.processed ≡ s.processed)
      → Keeps (Settled p l) (redis f)
  unfolding redis
  Settled-redis f g = record { at = λ env w h. (g _ _ w.store ∙ h.0, h.1) }

  Settled-redis₂ :
      {A : Type 0} (f : ℕ → Reply → Reply → Op A)
      → ((now : ℕ) (r q : Reply) (s : Store) → (f now r q s).1.processed ≡ s.processed)
      → Keeps (Settled p l) (redis₂ f)
  unfolding redis₂
  Settled-redis₂ f g = record { at = λ env w h. (g _ _ _ w.store ∙ h.0, h.1) }

  Settled-redis₃ :
      {A : Type 0} (f : ℕ → Reply → Reply → Reply → Op A)
      → ((now : ℕ) (r q t : Reply) (s : Store) → (f now r q t s).1.processed ≡ s.processed)
      → Keeps (Settled p l) (redis₃ f)
  unfolding redis₃
  Settled-redis₃ f g = record { at = λ env w h. (g _ _ _ _ w.store ∙ h.0, h.1) }

  Settled-publish : (f : Topics → Topics) → Keeps (Settled p l) (publish f)
  unfolding publish
  Settled-publish f = record { at = λ env w h. h }

  Settled-domain_of : (h : Webhook) → Keeps (Settled p l) (domain_of h)
  unfolding domain_of
  Settled-domain_of h = record { at = λ env w k. k }

  Settled-after_divert :
      (again : Option (M (Unit {0}))) (b : Bool)
      → Again p l again
      → Keeps (Settled p l) (after_divert again b)
  unfolding after_divert
  Settled-after_divert again true k = search keeps_rules
  Settled-after_divert none false k = search keeps_rules
  Settled-after_divert (some m) false k = search (keeps_rules, k)

  Settled-after_acquire :
      (slow : Bool) (h : Webhook) (again : Option (M (Unit {0}))) (got : Option Bool)
      → Again p l again
      → Keeps (Settled p l) (after_acquire slow h again got)
  unfolding after_acquire at_capacity publish_slow
  Settled-after_acquire slow h again none k = search keeps_rules
  Settled-after_acquire slow h again (some true) k = search keeps_rules
  Settled-after_acquire true h again (some false) k = search keeps_rules
  Settled-after_acquire false h again (some false) k =
      search (keeps_rules, Settled-publish, Settled-after_divert)

  Settled-gate :
      (h : Webhook) (slow : Bool) (g : Gate)
      → Keeps (Settled p l) g.acquire
      → Again p l g.reacquire
      → Keeps (Settled p l) (run_concurrency_gate h slow g)
  unfolding run_concurrency_gate
  Settled-gate h slow g a k =
      Keeps-if g.active _ _
        (Keeps-bind g.acquire _ a (λ got. Settled-after_acquire slow h g.reacquire got k))
        (search keeps_rules)

  Settled-stats : (stat : Bytes) (h : Webhook) → Keeps (Settled p l) (record_stats stat h)
  Settled-stats stat h = Settled-Calm (record_stats stat h) (λ i d. Calm-record_stats stat h)

  Settled-incr : (hash : Bytes) → Keeps (Settled p l) (redis (incr_inflight hash))
  unfolding incr_inflight
  Settled-incr hash = Settled-redis (incr_inflight hash) (λ now r s. refl)

  Settled-decr : (hash : Bytes) → Keeps (Settled p l) (redis (decr_inflight hash))
  unfolding decr_inflight
  Settled-decr hash = Settled-redis (decr_inflight hash) (λ now r s. refl)

  Settled-release_inflight : (b : Bool) (h : Webhook) → Keeps (Settled p l) (release_inflight b h)
  unfolding release_inflight
  Settled-release_inflight true h = search (keeps_rules, Settled-decr)
  Settled-release_inflight false h = search keeps_rules

  Settled-release_domain : (b : Bool) (h : Webhook) → Keeps (Settled p l) (release_domain b h)
  unfolding release_domain release
  Settled-release_domain true h = search (keeps_rules, Settled-domain_of, Settled-redis)
  Settled-release_domain false h = search keeps_rules

  Settled-within_limit :
      (c : WorkerConfig) (h : Webhook) (o : Option ℕ) → Keeps (Settled p l) (within_limit c h o)
  unfolding within_limit
  Settled-within_limit c h none = search keeps_rules
  Settled-within_limit c h (some n) = search (keeps_rules, Settled-decr)

  Settled-domain_acquire :
      (c : WorkerConfig) (d : Bytes) → Keeps (Settled p l) (redis₂ (try_acquire c.limiter d))
  unfolding try_acquire
  Settled-domain_acquire c d = Settled-redis₂ (try_acquire c.limiter d) (λ now r q s. ground arith)

  Settled-acquire_inflight :
      (c : WorkerConfig) (h : Webhook) → Keeps (Settled p l) (acquire_inflight c h)
  unfolding acquire_inflight
  Settled-acquire_inflight c h = search (keeps_rules, Settled-incr, Settled-within_limit)

  Settled-inflight_gate :
      (c : WorkerConfig) (slow : Bool) (h : Webhook)
      → Keeps (Settled p l) (run_concurrency_gate h slow (inflight_gate c h))
  unfolding inflight_gate
  Settled-inflight_gate c slow h =
      search (keeps_rules, Settled-gate, Settled-acquire_inflight, Settled-incr)

  Settled-domain_gate :
      (c : WorkerConfig) (slow : Bool) (h : Webhook)
      → Keeps (Settled p l) (run_concurrency_gate h slow (domain_gate c h))
  unfolding domain_gate
  Settled-domain_gate c slow h =
      search (keeps_rules, Settled-gate, Settled-domain_of, Settled-domain_acquire)

  Settled-schedule_retry_for_circuit :
      (c : WorkerConfig) (h : Webhook) → Keeps (Settled p l) (schedule_retry_for_circuit c h)
  Settled-schedule_retry_for_circuit c h =
      Settled-Calm (schedule_retry_for_circuit c h) (λ i d. Calm-schedule_retry_for_circuit c h)

module _ {p : Map (Entry (Unit {0}))} where
  Once-deliver :
      (c : WorkerConfig) (slow : Bool) (h : Webhook) → Once (Settled p) (deliver_webhook c slow h)
  Once-deliver c slow h = record {
    at = λ l env w k. elim ((Once-deliver_webhook c slow h).at l env w (k.0, refl, refl, k.1)) [
      | inl q ↦ inl (q.0, q.3)
      | inr (x, q) ↦ inr (x, (q.0, q.3))
    ];
  }

  Once-after_inflight_gate :
      (c : WorkerConfig) (slow : Bool) (h : Webhook) (g : GateResult)
      → Once (Settled p) (after_inflight_gate c slow h g)
  unfolding after_inflight_gate
  Once-after_inflight_gate c slow h diverted =
      Once-Keeps _ (λ l. search (keeps_rules, Settled-stats))
  Once-after_inflight_gate c slow h nacked = Once-Keeps _ (λ l. search keeps_rules)
  Once-after_inflight_gate c slow h (proceed held) =
      Once-before (deliver_webhook c slow h) _ (Once-deliver c slow h)
        (λ o l. search (keeps_rules, Settled-release_inflight))

  Once-with_inflight_slot :
      (c : WorkerConfig) (slow : Bool) (h : Webhook)
      → Once (Settled p) (with_inflight_slot c slow h)
  unfolding with_inflight_slot
  Once-with_inflight_slot c slow h =
      Once-after (run_concurrency_gate h slow (inflight_gate c h)) _
        (λ l. Settled-inflight_gate c slow h) (Once-after_inflight_gate c slow h)

  Once-after_domain_gate :
      (c : WorkerConfig) (slow : Bool) (h : Webhook) (g : GateResult)
      → Once (Settled p) (after_domain_gate c slow h g)
  unfolding after_domain_gate
  Once-after_domain_gate c slow h diverted = Once-Keeps _ (λ l. search (keeps_rules, Settled-stats))
  Once-after_domain_gate c slow h nacked = Once-Keeps _ (λ l. search keeps_rules)
  Once-after_domain_gate c slow h (proceed held) =
      Once-before (with_inflight_slot c slow h) _ (Once-with_inflight_slot c slow h)
        (λ o l. search (keeps_rules, Settled-release_domain))

  Once-by_circuit :
      (c : WorkerConfig) (slow : Bool) (h : Webhook) (allowed : Bool)
      → Once (Settled p) (by_circuit c slow h allowed)
  unfolding by_circuit with_domain_slot
  Once-by_circuit c slow h true =
      Once-after (run_concurrency_gate h slow (domain_gate c h)) _
        (λ l. Settled-domain_gate c slow h) (Once-after_domain_gate c slow h)
  Once-by_circuit c slow h false = Once-Keeps _ (λ l. Settled-schedule_retry_for_circuit c h)

  -- A duplicate sends nothing, any other message at most one request.
  pub Once-unless_duplicate :
      (c : WorkerConfig) (slow : Bool) (h : Webhook) (b : Bool)
      → Once (Settled p) (unless_duplicate c slow h b)
  unfolding unless_duplicate admit on_endpoint
  Once-unless_duplicate c slow h true = Once-Keeps _ (λ l. search keeps_rules)
  Once-unless_duplicate c slow h false =
      Once-after _ _ (λ l. search (keeps_rules, Settled-redis₃)) (λ v. Once-by_circuit c slow h _)
