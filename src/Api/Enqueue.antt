-- ===== src/Api/Enqueue.antt =====
-- internal/api/h_webhook.go: what `processEnqueue` publishes and what it answers.
use howk.Prelude.{
  ℕ, suc, ◌+◌, ◌≡◌, ◌≢◌, ◌⊎◌, refl, ap, ◌∙◌, inl, inr, Bool, true, false, List, [], ◌∷◌, ◌++◌,
  Option, none, some, arith, All, length, if◌then◌else◌, length-append, Bool-cases, ◌==◌,
}
use howk.Prelude.Text.{Bytes, codes}
use howk.Domain.{Webhook}
use howk.HotState.{Store, TtlConfig}
use howk.HotState.ScriptCache.{
  get_script, get_namespace_script, namespace_of, ScriptReply, found, redis_error,
}
use howk.Redis.{Reply, replied, lost, late, arrived, live}
use howk.Effects.{Env, World, ◌>>=◌, pure, redis, redis₂, time_now, publish_pending}
use howk.Script.{Codec, Loader, Config}
use howk.Transformer.Engine.{Sources, fresh}
use howk.Api.{
  respond, error_body, accepted_body, batch_body, EnqueueRequest, Response, Tally, none_yet,
  resolve_hash, build_webhook, build_all, enqueue_one, enqueue_all, enqueue_built, process_enqueue,
  enqueue_response, lacks_script, load_opt,
}

-- The world but for the number of calls made.
abbrev pub SameWorld : World → World → Type 0
SameWorld v w = (v.store ≡ w.store) × (v.topics ≡ w.topics) × (v.sent ≡ w.sent)

get_script-store :
    (id : Bytes) (now : ℕ) (r₁ r₂ : Reply) (s : Store) → (get_script id now r₁ r₂ s).1 ≡ s
unfolding get_script get_namespace_script
get_script-store id now r₁ r₂ s = go (arrived r₁) (live now (s.scripts id)) (namespace_of id)
  where
    go :
        (b : Bool) (o n : Option Bytes)
        → (if b
            then elim o as (λ _. ScriptReply × Store) [
              | some json ↦ (found json, s)
              | none ↦ get_namespace_script n now r₂ s
            ]
            else (redis_error, s)).1
          ≡ s
    go false o n = refl
    go true (some json) n = refl
    go true none none = refl
    go true none (some ns) = refl

module _ (s : Sources) (k : Codec) (env : Env) where
  resolve_hash-SameWorld :
      (id : Bytes) (h : Webhook) (l : Option Loader) (o : Option Config) (w : World)
      → SameWorld (resolve_hash s k id h l o env w).1 w
  unfolding resolve_hash ◌>>=◌ pure redis₂
  resolve_hash-SameWorld id h l (some c) w = (refl, refl, refl)
  resolve_hash-SameWorld id h l none w = (
    get_script-store id (env.clock w.calls) (env.reply w.calls) (env.reply (w.calls + 1)) w.store,
    refl,
    refl,
  )

  build_webhook-SameWorld :
      (id : Bytes) (req : EnqueueRequest) (l : Option Loader) (w : World)
      → SameWorld (build_webhook s k id req l env w).1 w
  unfolding build_webhook ◌>>=◌ pure time_now fresh
  build_webhook-SameWorld id req l w = resolve_hash-SameWorld id _ l (load_opt l id) w

  build_all-SameWorld :
      (id : Bytes) (reqs : List EnqueueRequest) (i : ℕ) (built : List Webhook) (l : Option Loader)
      (w : World)
      → SameWorld (build_all s k id reqs i built l env w).1 w
  unfolding build_all ◌>>=◌ pure
  build_all-SameWorld id [] i built l w = (refl, refl, refl)
  build_all-SameWorld id (req ∷ reqs) i built l w =
      let (r, w') = build_webhook s k id req l env w in
      let (d, e, f) = build_webhook-SameWorld id req l w in
      let (a, b, c) = build_all-SameWorld id reqs (suc i) (built ++ r.0 ∷ []) r.1 w' in
      elim (Bool-cases (lacks_script req r.0)) [
        | inl y ↦ rw y (d, e, f)
        | inr n ↦ rw n (a ∙ d, b ∙ e, c ∙ f)
      ]

enqueue_response-ne : (n : ℕ) (t : Tally) → (enqueue_response n t).status ≢ 422
unfolding enqueue_response
enqueue_response-ne n t h = go (n == 1) t.responses h
  where
    go :
        (b : Bool) (ids : List Bytes)
        → (if b
            then elim ids as (λ _. Response) [
              | [] ↦ respond 500 (error_body (codes "failed to enqueue"))
              | id ∷ rest ↦ respond 202 (accepted_body id)
            ]
            else respond 202 (batch_body t.responses (length t.responses) t.failed)).status
          ≡ 422
        → ⊥
    go true [] h = omega arith
    go true (id ∷ rest) h = omega arith
    go false ids h = omega arith

-- A request that is rejected because a webhook in it needs a script and has none changes nothing: no
-- webhook of the request is published and no status is written, also not those before the
-- one that lacks its script.
pub rejection_is_total :
    (s : Sources) (k : Codec) (c : TtlConfig) (id : Bytes) (reqs : List EnqueueRequest)
    (l : Option Loader) (env : Env) (w : World)
    → (process_enqueue s k c id reqs l env w).0.0.status ≡ 422
    → SameWorld (process_enqueue s k c id reqs l env w).1 w
unfolding process_enqueue enqueue_built ◌>>=◌ pure
rejection_is_total s k c id reqs l env w h =
    let (r, w') = build_all s k id reqs 0 [] l env w in
    go r.0 r.1 w' (build_all-SameWorld s k env id reqs 0 [] l w) h
  where
    go :
        (o : Option (List Webhook)) (i : ℕ) (v : World)
        → SameWorld v w
        → (enqueue_built c id (length reqs) o i env v).0.status ≡ 422
        → SameWorld (enqueue_built c id (length reqs) o i env v).1 w
    go none i v same h = same
    go (some hs) i v same h = absurd (enqueue_response-ne (length reqs) _ h)

-- A list holds a webhook with the identifier.
abbrev pub HasId : List Webhook → Bytes → Type 0
HasId [] id = ⊥
HasId (h ∷ hs) id = (h.id ≡ id) ⊎ HasId hs id

All-HasId :
    (h : Webhook) (hs : List Webhook) (ids : List Bytes)
    → All (HasId hs) ids
    → All (HasId (h ∷ hs)) ids
All-HasId h hs [] k = tt
All-HasId h hs (i ∷ ids) k = (inr k.0, All-HasId h hs ids k.1)

All-snoc :
    (hs : List Webhook) (ids : List Bytes) (i : Bytes)
    → All (HasId hs) ids
    → HasId hs i
    → All (HasId hs) (ids ++ i ∷ [])
All-snoc hs [] i k m = (m, tt)
All-snoc hs (j ∷ ids) i k m = (k.0, All-snoc hs ids i k.1 m)

-- What the loop over the webhooks has done since the pending topic was `before`, with `n` of them done.
pub record Enqueued (before : List Webhook) (n : ℕ) (t : Tally) (w : World) : Type 0 where
  pub added : List Webhook
  pub grown : w.topics.pending ≡ added ++ before
  pub accepted : All (HasId added) t.responses
  pub counted : length t.responses + t.failed ≡ n

module _ (c : TtlConfig) (env : Env) (before : List Webhook) where
  enqueue_one-Enqueued :
      (h : Webhook) (n : ℕ) (t : Tally) (w : World)
      → Enqueued before n t w
      → let (done, w') = publish_pending h env w in
        let (t', w'') = enqueue_one c h t done env w' in Enqueued before (suc n) t' w''
  unfolding publish_pending enqueue_one ◌>>=◌ pure redis
  enqueue_one-Enqueued h n t w k = go (env.reply w.calls) refl
    where
      go :
          (r : Reply)
          → env.reply w.calls ≡ r
          → let (done, w') = publish_pending h env w in
            let (t', w'') = enqueue_one c h t done env w' in Enqueued before (suc n) t' w''
      go replied e = rw e (record {
        added = h ∷ k.added;
        grown = ap (◌∷◌ h) k.grown;
        accepted =
            All-snoc (h ∷ k.added) t.responses h.id (All-HasId h k.added t.responses k.accepted)
              (inl refl);
        counted = omega (arith, k.counted, length-append t.responses (h.id ∷ []));
      })
      go lost e = rw e (record {
        added = k.added;
        grown = k.grown;
        accepted = k.accepted;
        counted = omega (arith, k.counted);
      })
      go late e = rw e (record {
        added = h ∷ k.added;
        grown = ap (◌∷◌ h) k.grown;
        accepted = All-HasId h k.added t.responses k.accepted;
        counted = omega (arith, k.counted);
      })

  enqueue_all-Enqueued :
      (hs : List Webhook) (n : ℕ) (t : Tally) (w : World)
      → Enqueued before n t w
      → Enqueued before (n + length hs) (enqueue_all c hs t env w).0 (enqueue_all c hs t env w).1
  unfolding enqueue_all ◌>>=◌ pure
  enqueue_all-Enqueued [] n t w k = record {
    added = k.added;
    grown = k.grown;
    accepted = k.accepted;
    counted = omega (arith, k.counted);
  }
  enqueue_all-Enqueued (h ∷ hs) n t w k =
      let (done, w') = publish_pending h env w in
      let (t', w'') = enqueue_one c h t done env w' in
      let r = enqueue_all-Enqueued hs (suc n) t' w'' (enqueue_one-Enqueued h n t w k) in
      record {
        added = r.added;
        grown = r.grown;
        accepted = r.accepted;
        counted = omega (arith, r.counted);
      }

-- Whatever calls fail while webhooks are enqueued: nothing leaves the pending topic, each identifier
-- that is reported as accepted is that of a webhook that has been added to it, and those accepted
-- and those failed are together as many as the webhooks.
pub accepted_is_published :
    (c : TtlConfig) (hs : List Webhook) (env : Env) (w : World)
    → let (t, w') = enqueue_all c hs none_yet env w in Enqueued w.topics.pending (length hs) t w'
accepted_is_published c hs env w =
    let r =
      enqueue_all-Enqueued c env w.topics.pending hs 0 none_yet w
        (record { added = []; grown = refl; accepted = tt; counted = refl }) in
    record {
      added = r.added;
      grown = r.grown;
      accepted = r.accepted;
      counted = omega (arith, r.counted);
    }
