-- ===== src/Worker/Slots.antt =====
-- internal/worker/worker.go: what the gates do to the counts of slots.
use howk.Prelude.{
  ℕ, ◌+◌, ◌≡◌, refl, sym, subst, ap, ◌∙◌, inl, inr, ◌&&◌, Bool, true, false, Option, none, some,
  arith, if◌then◌else◌, ltb, Bool-cases,
}
use howk.Prelude.Text.{Bytes, bytes_eq}
use howk.Domain.{Webhook}
use howk.Redis.{Reply, replied, Map}
use howk.Redis.ZSet.{bytes_eq_iff}
use howk.Limiter.{extract_domain, try_acquire}
use howk.Limiter.Bound.{acquire_counts}
use howk.HotState.{Store, count_of, decr_key, incr_inflight, decr_inflight}
use howk.Effects.{M, Env, World, pure, ◌>>=◌, redis, redis₂, publish, publish_slow}
use howk.Worker.Config.{WorkerConfig}
use howk.Worker.{
  GateResult, proceed, diverted, nacked, after_divert, at_capacity, after_acquire,
  run_concurrency_gate, domain_of, domain_gate, within_limit, acquire_inflight, inflight_gate,
}

-- The counts of `m` are those of `k`, with one more under the key `k` if `held`.
abbrev pub Shifted : Bool → Bytes → Map ℕ → Map ℕ → Type 0
Shifted held key m m' =
    (k : Bytes)
    → count_of (m' k) ≡ (if held && bytes_eq key k then count_of (m k) + 1 else count_of (m k))

-- All slots of both kinds are counted as before.
abbrev pub SameSlots : Store → Store → Type 0
SameSlots s t =
    ((k : Bytes) → count_of (t.inflight k) ≡ count_of (s.inflight k))
    × ((k : Bytes) → count_of (t.domain_inflight k) ≡ count_of (s.domain_inflight k))

abbrev pub held_by : GateResult → Bool
held_by (proceed b) = b
held_by diverted = false
held_by nacked = false

pub SameSlots-trans : (s t u : Store) → SameSlots s t → SameSlots t u → SameSlots s u
SameSlots-trans s t u h k = (λ x. k.0 x ∙ h.0 x, λ x. k.1 x ∙ h.1 x)

-- Given back, the counts are the old ones again.
pub decr-Shifted :
    (held : Bool) (key : Bytes) (m m' : Map ℕ) (k : Bytes)
    → Shifted held key m m'
    → count_of ((if held then decr_key m' key else m') k) ≡ count_of (m k)
decr-Shifted true key m m' k h = ground (arith, h k, h key, bytes_eq_iff key k)
decr-Shifted false key m m' k h = ground (arith, h k)

at_capacity-slots :
    (slow : Bool) (h : Webhook) (again : Option (M (Unit {0}))) (env : Env) (w : World)
    → ((n : ℕ) → env.reply n ≡ replied)
    → let (g, w') = at_capacity slow h again env w in (held_by g ≡ false) × (w'.store ≡ w.store)
unfolding at_capacity ◌>>=◌ publish_slow publish after_divert pure
at_capacity-slots true h again env w r = (refl, refl)
at_capacity-slots false h again env w r = rw (r w.calls) (refl, refl)

after_acquire-slots :
    (slow : Bool) (h : Webhook) (again : Option (M (Unit {0}))) (b : Bool) (env : Env) (w : World)
    → ((n : ℕ) → env.reply n ≡ replied)
    → let (g, w') = after_acquire slow h again (some b) env w in
      (held_by g ≡ b) × (w'.store ≡ w.store)
unfolding after_acquire pure
after_acquire-slots slow h again true env w r = (refl, refl)
after_acquire-slots slow h again false env w r = at_capacity-slots slow h again env w r

incr_inflight-replied :
    (hash : Bytes) (now : ℕ) (r : Reply) (s : Store)
    → r ≡ replied
    → let (o, s') = incr_inflight hash now r s in
      (o ≡ some (count_of (s.inflight hash) + 1))
      × Shifted true hash s.inflight s'.inflight
      × (s'.domain_inflight ≡ s.domain_inflight)
unfolding incr_inflight
incr_inflight-replied hash now r s e =
    (ground arith, λ k. ground (arith, bytes_eq_iff hash k), refl)

pub decr_inflight-replied :
    (hash : Bytes) (now : ℕ) (r : Reply) (s : Store)
    → r ≡ replied
    → let s' = (decr_inflight hash now r s).1 in
      (s'.inflight ≡ decr_key s.inflight hash) × (s'.domain_inflight ≡ s.domain_inflight)
unfolding decr_inflight
decr_inflight-replied hash now r s e = rw e (refl, refl)

-- What a worker holds after it asked for a slot of the endpoint.
abbrev Acquired : Bytes → Store → Option Bool × World → Type 0
Acquired hash s (o, w) =
    (b : Bool) × (o ≡ some b)
    × Shifted b hash s.inflight w.store.inflight
    × (w.store.domain_inflight ≡ s.domain_inflight)

within_limit-slots :
    (c : WorkerConfig) (h : Webhook) (n : ℕ) (env : Env) (w : World) (s : Store)
    → ((n : ℕ) → env.reply n ≡ replied)
    → Shifted true h.endpoint_hash s.inflight w.store.inflight
    → w.store.domain_inflight ≡ s.domain_inflight
    → Acquired h.endpoint_hash s (within_limit c h (some n) env w)
unfolding within_limit ◌>>=◌ redis pure
within_limit-slots c h n env w s r i d = elim (Bool-cases (ltb c.max_inflight_per_endpoint n)) [
  | inl e ↦
      let (a, b) =
        decr_inflight-replied h.endpoint_hash (env.clock w.calls) (env.reply w.calls) w.store
          (r w.calls) in
      rw e (
        false,
        refl,
        (λ k.
            ap (λ m. count_of (m k)) a
            ∙ decr-Shifted true h.endpoint_hash s.inflight w.store.inflight k i),
        b ∙ d,
      )
  | inr e ↦ rw e (true, refl, i, d)
]

acquire_inflight-slots :
    (c : WorkerConfig) (h : Webhook) (env : Env) (w : World)
    → ((n : ℕ) → env.reply n ≡ replied)
    → Acquired h.endpoint_hash w.store (acquire_inflight c h env w)
unfolding acquire_inflight ◌>>=◌ redis
acquire_inflight-slots c h env w r =
    let (a, i, d) =
      incr_inflight-replied h.endpoint_hash (env.clock w.calls) (env.reply w.calls) w.store
        (r w.calls) in
    rw a (within_limit-slots c h _ env _ w.store r i d)

pub inflight_gate-slots :
    (c : WorkerConfig) (slow : Bool) (h : Webhook) (env : Env) (w : World)
    → ((n : ℕ) → env.reply n ≡ replied)
    → let (g, w') = run_concurrency_gate h slow (inflight_gate c h) env w in
      Shifted (held_by g) h.endpoint_hash w.store.inflight w'.store.inflight
      × (w'.store.domain_inflight ≡ w.store.domain_inflight)
unfolding run_concurrency_gate ◌>>=◌ inflight_gate
inflight_gate-slots c slow h env w r =
    let (b, e, i, d) = acquire_inflight-slots c h env w r in
    let w' = (acquire_inflight c h env w).1 in
    let (p, q) = after_acquire-slots slow h (inflight_gate c h).reacquire b env w' r in
    rw e (
      subst
          (λ (x : Store).
            Shifted (held_by (after_acquire slow h (inflight_gate c h).reacquire (some b) env w').0)
              h.endpoint_hash w.store.inflight x.inflight)
          (sym q)
          (subst (λ x. Shifted x h.endpoint_hash w.store.inflight w'.store.inflight) (sym p) i),
      ap (λ (x : Store). x.domain_inflight) q ∙ d,
    )

try_acquire-slots :
    (c : WorkerConfig) (d : Bytes) (now : ℕ) (r q : Reply) (s : Store)
    → r ≡ replied
    → q ≡ replied
    → let (b, s') = try_acquire c.limiter d now r q s in
      Shifted b d s.domain_inflight s'.domain_inflight × (s'.inflight ≡ s.inflight)
try_acquire-slots c d now r q s e f =
    rw (e, f) ((λ k. (acquire_counts c.limiter d k now s).1), try_acquire-inflight c d now s)
  where
    try_acquire-inflight :
        (c : WorkerConfig) (d : Bytes) (now : ℕ) (s : Store)
        → (try_acquire c.limiter d now replied replied s).1.inflight ≡ s.inflight
    try_acquire-inflight c d now s = unfold try_acquire in ground arith

-- The domain that the limiter counts a webhook under.
abbrev pub domain_key : Webhook → Env → Bytes
domain_key h env = extract_domain (env.url_host h.endpoint) h.endpoint

pub domain_gate-slots :
    (c : WorkerConfig) (slow : Bool) (h : Webhook) (env : Env) (w : World)
    → ((n : ℕ) → env.reply n ≡ replied)
    → let (g, w') = run_concurrency_gate h slow (domain_gate c h) env w in
      Shifted (held_by g) (domain_key h env) w.store.domain_inflight w'.store.domain_inflight
      × (w'.store.inflight ≡ w.store.inflight)
unfolding run_concurrency_gate ◌>>=◌ domain_gate domain_of redis₂ pure
domain_gate-slots c slow h env w r = go c.has_domain_limiter
  where
    go :
        (active : Bool)
        → let (g, w') =
            (if active
                then (do
                  got ← (do
                    d ← domain_of h
                    got ← redis₂ (try_acquire c.limiter d)
                    pure (some got))
                  after_acquire slow h none got)
                else pure (proceed false))
              env w in
          Shifted (held_by g) (domain_key h env) w.store.domain_inflight w'.store.domain_inflight
          × (w'.store.inflight ≡ w.store.inflight)
    go false = (λ k. refl, refl)
    go true =
        let (b, w') = redis₂ (try_acquire c.limiter (domain_key h env)) env w in
        let (i, d) =
          try_acquire-slots c (domain_key h env) (env.clock w.calls) (env.reply w.calls)
            (env.reply (w.calls + 1)) w.store (r _) (r _) in
        let (p, q) = after_acquire-slots slow h none b env w' r in
        (
          subst
              (λ (x : Store).
                Shifted (held_by (after_acquire slow h none (some b) env w').0) (domain_key h env)
                  w.store.domain_inflight x.domain_inflight)
              (sym q)
              (subst
                (λ x. Shifted x (domain_key h env) w.store.domain_inflight w'.store.domain_inflight)
                (sym p) i),
          ap (λ (x : Store). x.inflight) q ∙ d,
        )
