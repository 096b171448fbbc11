-- ===== src/Api.antt =====
-- internal/api/server.go and h_webhook.go: the handlers that take webhooks in and report their status. gin
-- has parsed the request and checked its required fields. The loader of a server is passed along;
-- `none` is a server without one.
pub mod Enqueue
pub mod Incoming
pub mod Scripts
mod Tests
use howk.Prelude.{
  ℕ, zero, suc, ◌+◌, Bool, true, false, ◌&&◌, List, [], ◌∷◌, ◌++◌, Option, none, some, ◌==◌,
  if◌then◌else◌, length,
}
use howk.Prelude.Int.{ℤ, pos}
use howk.Prelude.Text.{Bytes, codes}
use howk.Domain.{Webhook, WebhookStatus, StringMap, pending, new_webhook}
use howk.HotState.{TtlConfig, set_status, get_status, incr_stats, add_to_hll}
use howk.HotState.ScriptCache.{ScriptReply, found, not_found, redis_error, get_script}
use howk.Script.{Config, Codec, Loader, load, set_loaded}
use howk.Effects.{M, ◌>>=◌, ◌>>◌, pure, redis, redis₂, time_now, bucket, publish_pending}
use howk.Transformer.Engine.{Sources, fresh, initial_status, WebhookRef}

pub record EnqueueRequest : Type 0 where
  pub endpoint : Bytes
  pub payload : Bytes
  pub headers : StringMap
  pub idempotency_key : Bytes
  pub signing_secret : Bytes
  pub max_attempts : ℤ
  pub require_script : Bool

-- The bodies of the responses: an error, the identifier of an accepted webhook, a batch, a status, the
-- webhooks of a transformer, a script, or nothing.
pub data Body : Type 0 where
  error_body : Bytes → Body
  rejected_body : Bytes → ℕ → Body
  accepted_body : Bytes → Body
  batch_body : List Bytes → ℕ → ℕ → Body
  status_body : WebhookStatus → Body
  webhooks_body : List WebhookRef → Body
  script_body : Config → Body
  no_body : Body

pub record Response : Type 0 where
  pub status : ℕ
  pub body : Body

abbrev pub respond : ℕ → Body → Response
respond status body = record { status = status; body = body }

abbrev pub load_opt : Option Loader → Bytes → Option Config
load_opt none id = none
load_opt (some l) id = load l id

abbrev pub set_opt : Option Loader → Config → Option Loader
set_opt none c = none
set_opt (some l) c = some (set_loaded l c)

abbrev is_empty : Bytes → Bool
is_empty [] = true
is_empty (c ∷ s) = false

-- The script that Redis has, if it does and it parses.
unfoldable pub parsed_script : Codec → ScriptReply → Option Config
parsed_script k (found json) = if is_empty json then none else k.unmarshal json
parsed_script k not_found = none
parsed_script k redis_error = none

-- What `buildWebhook` makes of the script that Redis gave.
unfoldable pub tag_webhook : Webhook → Option Loader → Option Config → Webhook × Option Loader
tag_webhook h l none = (h, l)
tag_webhook h l (some c) = (record h { script_hash = c.hash }, set_opt l c)

-- Whether a request that needs a script has none.
abbrev pub lacks_script : EnqueueRequest → Webhook → Bool
lacks_script req h = req.require_script && is_empty h.script_hash

module _ (s : Sources) (k : Codec) where
  -- `buildWebhook` on what the loader finds for the config ID.
  unfoldable pub resolve_hash :
      Bytes → Webhook → Option Loader → Option Config → M (Webhook × Option Loader)
  unfolding tag_webhook parsed_script
  resolve_hash id h l (some c) = pure (record h { script_hash = c.hash }, l)
  resolve_hash id h l none = do
    reply ← redis₂ (get_script id)
    pure (tag_webhook h l (parsed_script k reply))

  unfoldable pub build_webhook :
      Bytes → EnqueueRequest → Option Loader → M (Webhook × Option Loader)
  unfolding resolve_hash fresh new_webhook
  build_webhook id req l = do
    now ← time_now
    ulid ← fresh s
    let h = new_webhook s.hash ulid now (record {
      config_id = id;
      endpoint = req.endpoint;
      payload = req.payload;
      headers = req.headers;
      idempotency_key = req.idempotency_key;
      signing_secret = req.signing_secret;
      script_hash = [];
      max_attempts = req.max_attempts;
      delivery_query_params = none;
      delivery_headers = none;
    })
    resolve_hash id h l (load_opt l id)

  -- The first loop of `processEnqueue`: the webhooks, or the index of a request that is rejected.
  unfoldable pub build_all :
      Bytes
      → List EnqueueRequest
      → ℕ
      → List Webhook
      → Option Loader
      → M (Option (List Webhook) × ℕ × Option Loader)
  unfolding build_webhook
  build_all id [] i built l = pure (some built, i, l)
  build_all id (req ∷ reqs) i built l = build_webhook id req l >>= λ r.
      if lacks_script req r.0
      then pure (none, i, r.1)
      else build_all id reqs (suc i) (built ++ r.0 ∷ []) r.1

-- What the second loop has counted: the identifiers accepted, and the failures.
pub record Tally : Type 0 where
  pub responses : List Bytes
  pub failed : ℕ

abbrev pub none_yet : Tally
none_yet = record { responses = []; failed = 0 }

unfoldable pub enqueue_one : TtlConfig → Webhook → Tally → Bool → M Tally
unfolding initial_status
enqueue_one c h t false = pure (record t { failed = suc t.failed })
enqueue_one c h t true = do
  _ ← redis (set_status c (initial_status h.id 0))
  pure (record t { responses = t.responses ++ h.id ∷ [] })

unfoldable pub enqueue_all : TtlConfig → List Webhook → Tally → M Tally
unfolding enqueue_one
enqueue_all c [] t = pure t
enqueue_all c (h ∷ hs) t =
    publish_pending h >>= λ done. enqueue_one c h t done >>= λ t'. enqueue_all c hs t'

-- The statistics of the hour; their errors are ignored.
unfoldable pub record_enqueued : List Webhook → Tally → M (Unit {0})
record_enqueued hs t = do
  hour ← bucket
  _ ← redis (incr_stats (codes "enqueued:" ++ hour) (length t.responses))
  elim hs [
    | [] ↦ pure tt
    | h ∷ rest ↦ elim h.endpoint_hash [
      | [] ↦ pure tt
      | c ∷ d ↦ redis (add_to_hll (codes "endpoints:" ++ hour) (c ∷ d)) >>= λ _. pure tt
    ]
  ]

-- A request for one webhook is answered with its identifier, any other with a batch.
unfoldable pub enqueue_response : ℕ → Tally → Response
enqueue_response n t =
    if n == 1
    then elim t.responses [
      | [] ↦ respond 500 (error_body (codes "failed to enqueue"))
      | id ∷ ids ↦ respond 202 (accepted_body id)
    ]
    else respond 202 (batch_body t.responses (length t.responses) t.failed)

unfoldable pub enqueue_built : TtlConfig → Bytes → ℕ → Option (List Webhook) → ℕ → M Response
unfolding enqueue_all record_enqueued enqueue_response
enqueue_built c id n none i = pure (respond 422 (rejected_body id i))
enqueue_built c id n (some hs) i = do
  t ← enqueue_all c hs none_yet
  record_enqueued hs t
  pure (enqueue_response n t)

unfoldable pub process_enqueue :
    Sources
    → Codec
    → TtlConfig
    → Bytes
    → List EnqueueRequest
    → Option Loader
    → M (Response × Option Loader)
unfolding build_all enqueue_built
process_enqueue s k c id reqs l = do
  r ← build_all s k id reqs 0 [] l
  response ← enqueue_built c id (length reqs) r.0 r.1
  pure (response, r.2)

-- `handleEnqueueWebhook` of one request; the batch endpoint hands on its list.
unfoldable pub handle_enqueue :
    Sources
    → Codec
    → TtlConfig
    → Bytes
    → Option EnqueueRequest
    → Option Loader
    → M (Response × Option Loader)
unfolding process_enqueue
handle_enqueue s k c id none l = pure (respond 400 (error_body (codes "invalid request")), l)
handle_enqueue s k c id (some req) l = process_enqueue s k c id (req ∷ []) l

unfoldable status_response : Option (Option WebhookStatus) → Response
status_response none = respond 500 (error_body (codes "failed to get status"))
status_response (some none) = respond 404 (error_body (codes "webhook not found"))
status_response (some (some st)) = respond 200 (status_body st)

unfoldable pub handle_get_status : Bytes → M Response
unfolding status_response
handle_get_status id = do r ← redis (get_status id); pure (status_response r)
