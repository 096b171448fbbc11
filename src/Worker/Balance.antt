-- ===== src/Worker/Balance.antt =====
-- internal/worker/worker.go: the slots after a message, against the slots before it.
use howk.Prelude.{
  ℕ, ◌≡◌, refl, ap, ◌∙◌, inl, inr, Bool, true, false, List, Option, none, some, arith,
  if◌then◌else◌,
}
use howk.Prelude.Int.{ℤ}
use howk.Prelude.Text.{Bytes}
use howk.Domain.{Webhook}
use howk.Redis.{Reply, replied, Entry, Map}
use howk.Limiter.{release}
use howk.HotState.{Store, count_of, decr_key, check_and_set_processed}
use howk.Effects.{M, Env, World, pure, ◌>>=◌, redis, redis₃}
use howk.Effects.Keeps.{Keeps}
use howk.Worker.Config.{WorkerConfig, on_endpoint}
use howk.Worker.Record.{record_stats, schedule_retry_for_circuit}
use howk.Worker.{
  GateResult, proceed, diverted, nacked, run_concurrency_gate, domain_of, domain_gate,
  release_domain, inflight_gate, release_inflight, deliver_webhook, after_inflight_gate,
  with_inflight_slot, after_domain_gate, with_domain_slot, by_circuit, admit, is_duplicate,
  unless_duplicate, process_webhook, diverted_stat,
}
use howk.Worker.Frame.{Calm, Calm-record_stats, Calm-schedule_retry_for_circuit}
use howk.Worker.Requests.{Once-deliver_webhook}
use howk.Worker.Slots.{
  Shifted, SameSlots, SameSlots-trans, held_by, decr-Shifted, decr_inflight-replied,
  inflight_gate-slots, domain_gate-slots, domain_key,
}
use howk.Worker.{parse_message, if_parsed, process_message}

Calm-slots :
    {A : Type 0} (m : M A) (env : Env) (w : World)
    → ((p : Map (Entry (Unit {0}))) (i d : Map ℕ) (l : List Webhook) → Keeps (Calm p i d l) m)
    → SameSlots w.store (m env w).1.store
Calm-slots m env w k =
    let (a, b, c, d) = (k _ _ _ _).at env w (refl, refl, refl, refl) in
    (λ x. ap (λ f. count_of (f x)) b, λ x. ap (λ f. count_of (f x)) c)

deliver-slots :
    (c : WorkerConfig) (slow : Bool) (h : Webhook) (env : Env) (w : World)
    → SameSlots w.store (deliver_webhook c slow h env w).1.store
deliver-slots c slow h env w =
    elim ((Once-deliver_webhook c slow h).at w.sent env w (refl, refl, refl, refl)) [
      | inl q ↦ (λ x. ap (λ f. count_of (f x)) q.1, λ x. ap (λ f. count_of (f x)) q.2)
      | inr (g, q) ↦ (λ x. ap (λ f. count_of (f x)) q.1, λ x. ap (λ f. count_of (f x)) q.2)
    ]

release_inflight-slots :
    (held : Bool) (h : Webhook) (env : Env) (w : World)
    → ((n : ℕ) → env.reply n ≡ replied)
    → let s' = (release_inflight held h env w).1.store in
      (s'.inflight ≡ (if held then decr_key w.store.inflight h.endpoint_hash else w.store.inflight))
      × (s'.domain_inflight ≡ w.store.domain_inflight)
unfolding release_inflight ◌>>=◌ redis pure
release_inflight-slots false h env w r = (refl, refl)
release_inflight-slots true h env w r =
    decr_inflight-replied h.endpoint_hash (env.clock w.calls) (env.reply w.calls) w.store
      (r w.calls)

release-replied :
    (d : Bytes) (now : ℕ) (r : Reply) (s : Store)
    → r ≡ replied
    → let s' = (release d now r s).1 in
      (s'.domain_inflight ≡ decr_key s.domain_inflight d) × (s'.inflight ≡ s.inflight)
unfolding release
release-replied d now r s e = rw e (refl, refl)

release_domain-slots :
    (held : Bool) (h : Webhook) (env : Env) (w : World)
    → ((n : ℕ) → env.reply n ≡ replied)
    → let s' = (release_domain held h env w).1.store in
      (s'.domain_inflight ≡ (
        if held
        then decr_key w.store.domain_inflight (domain_key h env)
        else w.store.domain_inflight))
      × (s'.inflight ≡ w.store.inflight)
unfolding release_domain ◌>>=◌ domain_of redis pure
release_domain-slots false h env w r = (refl, refl)
release_domain-slots true h env w r =
    release-replied (domain_key h env) (env.clock w.calls) (env.reply w.calls) w.store (r w.calls)

-- After the gate of the endpoint, whose slot may be held, all slots come out as before the gate.
after_inflight_gate-slots :
    (c : WorkerConfig) (slow : Bool) (h : Webhook) (g : GateResult) (env : Env) (w : World)
    (s : Store)
    → ((n : ℕ) → env.reply n ≡ replied)
    → Shifted (held_by g) h.endpoint_hash s.inflight w.store.inflight
    → w.store.domain_inflight ≡ s.domain_inflight
    → SameSlots s (after_inflight_gate c slow h g env w).1.store
unfolding after_inflight_gate ◌>>=◌ pure
after_inflight_gate-slots c slow h diverted env w s r i d =
    let k =
      Calm-slots (record_stats diverted_stat h) env w
        (λ p i d l. Calm-record_stats diverted_stat h) in
    (λ x. k.0 x ∙ i x, λ x. k.1 x ∙ ap (λ f. count_of (f x)) d)
after_inflight_gate-slots c slow h nacked env w s r i d = (i, λ x. ap (λ f. count_of (f x)) d)
after_inflight_gate-slots c slow h (proceed held) env w s r i d =
    let (o, w') = deliver_webhook c slow h env w in
    let (a, b) = deliver-slots c slow h env w in
    let (e, f) = release_inflight-slots held h env w' r in
    (
      λ x.
          ap (λ m. count_of (m x)) e
          ∙ decr-Shifted held h.endpoint_hash s.inflight w'.store.inflight x (λ k. a k ∙ i k),
      λ x. ap (λ m. count_of (m x)) f ∙ (b x ∙ ap (λ m. count_of (m x)) d),
    )

with_inflight_slot-slots :
    (c : WorkerConfig) (slow : Bool) (h : Webhook) (env : Env) (w : World)
    → ((n : ℕ) → env.reply n ≡ replied)
    → SameSlots w.store (with_inflight_slot c slow h env w).1.store
unfolding with_inflight_slot ◌>>=◌
with_inflight_slot-slots c slow h env w r =
    let (g, w') = run_concurrency_gate h slow (inflight_gate c h) env w in
    let (i, d) = inflight_gate-slots c slow h env w r in
    after_inflight_gate-slots c slow h g env w' w.store r i d

after_domain_gate-slots :
    (c : WorkerConfig) (slow : Bool) (h : Webhook) (g : GateResult) (env : Env) (w : World)
    (s : Store)
    → ((n : ℕ) → env.reply n ≡ replied)
    → Shifted (held_by g) (domain_key h env) s.domain_inflight w.store.domain_inflight
    → w.store.inflight ≡ s.inflight
    → SameSlots s (after_domain_gate c slow h g env w).1.store
unfolding after_domain_gate ◌>>=◌ pure
after_domain_gate-slots c slow h diverted env w s r i d =
    let k =
      Calm-slots (record_stats diverted_stat h) env w
        (λ p i d l. Calm-record_stats diverted_stat h) in
    (λ x. k.0 x ∙ ap (λ f. count_of (f x)) d, λ x. k.1 x ∙ i x)
after_domain_gate-slots c slow h nacked env w s r i d = (λ x. ap (λ f. count_of (f x)) d, i)
after_domain_gate-slots c slow h (proceed held) env w s r i d =
    let (o, w') = with_inflight_slot c slow h env w in
    let (a, b) = with_inflight_slot-slots c slow h env w r in
    let (e, f) = release_domain-slots held h env w' r in
    (
      λ x. ap (λ m. count_of (m x)) f ∙ (a x ∙ ap (λ m. count_of (m x)) d),
      λ x.
          ap (λ m. count_of (m x)) e
          ∙ decr-Shifted held (domain_key h env) s.domain_inflight w'.store.domain_inflight x
              (λ k. b k ∙ i k),
    )

by_circuit-slots :
    (c : WorkerConfig) (slow : Bool) (h : Webhook) (allowed : Bool) (env : Env) (w : World)
    → ((n : ℕ) → env.reply n ≡ replied)
    → SameSlots w.store (by_circuit c slow h allowed env w).1.store
unfolding by_circuit with_domain_slot ◌>>=◌
by_circuit-slots c slow h true env w r =
    let (g, w') = run_concurrency_gate h slow (domain_gate c h) env w in
    let (i, d) = domain_gate-slots c slow h env w r in
    after_domain_gate-slots c slow h g env w' w.store r i d
by_circuit-slots c slow h false env w r =
    Calm-slots (schedule_retry_for_circuit c h) env w
      (λ p i d l. Calm-schedule_retry_for_circuit c h)

unless_duplicate-slots :
    (c : WorkerConfig) (slow : Bool) (h : Webhook) (b : Bool) (env : Env) (w : World)
    → ((n : ℕ) → env.reply n ≡ replied)
    → SameSlots w.store (unless_duplicate c slow h b env w).1.store
unfolding unless_duplicate admit ◌>>=◌ redis₃ on_endpoint pure
unless_duplicate-slots c slow h true env w r = (λ k. refl, λ k. refl)
unless_duplicate-slots c slow h false env w r = by_circuit-slots c slow h _ env _ r

check-slots :
    (id : Bytes) (n : ℤ) (ttl now : ℕ) (r : Reply) (s : Store)
    → SameSlots s (check_and_set_processed id n ttl now r s).1
unfolding check_and_set_processed
check-slots id n ttl now r s = (λ k. ground arith, λ k. ground arith)

if_parsed-slots :
    (c : WorkerConfig) (slow : Bool) (o : Option Webhook) (env : Env) (w : World)
    → ((n : ℕ) → env.reply n ≡ replied)
    → SameSlots w.store (if_parsed c slow o env w).1.store
unfolding if_parsed process_webhook ◌>>=◌ redis pure
if_parsed-slots c slow none env w r = (λ k. refl, λ k. refl)
if_parsed-slots c slow (some h) env w r =
    let (a, w') = redis (check_and_set_processed h.id h.attempt c.ttl.idempotency_ttl) env w in
    let z = unless_duplicate c slow h (is_duplicate a) env w' in
    SameSlots-trans w.store w'.store z.1.store
      (check-slots h.id h.attempt c.ttl.idempotency_ttl (env.clock w.calls) (env.reply w.calls)
        w.store)
      (unless_duplicate-slots c slow h (is_duplicate a) env w' r)

-- Whatever becomes of a message, its slots are given back: when Redis and Kafka answer, the counts
-- of every endpoint and of every domain are after it what they were before, in both lanes and
-- whether the message was delivered, diverted, refused, or failed in its script.
pub slots_are_given_back :
    (c : WorkerConfig) (slow : Bool) (value : Bytes) (env : Env) (w : World)
    → ((n : ℕ) → env.reply n ≡ replied)
    → SameSlots w.store (process_message c slow value env w).1.store
unfolding process_message ◌>>=◌ parse_message
slots_are_given_back c slow value env w r = if_parsed-slots c slow (env.parse_webhook value) env w r
