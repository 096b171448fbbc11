-- ===== src/Effects.antt =====
-- What the services share: the outside world that they act on, and actions on it.
-- `World` is Redis, the Kafka topics (newest message first) and the HTTP requests sent. `Env`
-- answers each call by its number (an operation takes as many numbers as it may make calls): how
-- it ends, the time, the local name of the hour, the environment variables, the configuration of
-- the script that the loader holds for a config ID, and what the parts outside this development
-- reply (the endpoints, Lua scripts, the URL and JSON packages).
-- internal/broker/broker.go: `WebhookPublisher`; a publish fails as a call to Redis does.
pub mod Keeps
pub mod Once
use howk.Prelude.{ℕ, suc, ◌+◌, Bool, List, [], ◌∷◌, Option, none, some}
use howk.Prelude.Text.{Bytes}
use howk.Domain.{Webhook, DeliveryResult, DeadLetter, WebhookStateSnapshot}
use howk.Redis.{Reply, wrote, arrived}
use howk.Json.{Fields}
use howk.Delivery.{apply_overrides, lookup_delivery_overrides}
use howk.Retry.{Fraction}
use howk.HotState.{Store, Op}

-- The messages of each topic. A state message is a key and a snapshot, or a tombstone.
pub record Topics : Type 0 where
  pub pending : List Webhook
  pub slow : List Webhook
  pub results : List DeliveryResult
  pub dead_letters : List DeadLetter
  pub states : List (Bytes × Option WebhookStateSnapshot)

pub record World : Type 0 where
  pub store : Store
  pub topics : Topics
  pub sent : List Webhook
  pub calls : ℕ

-- `delivery.Result`; `error` is the text of its error.
pub record Delivery : Type 0 where
  pub status_code : ℕ
  pub error : Option Bytes
  pub response_body : Bytes
  pub duration : ℕ

pub data ScriptErrorType : Type 0 where
  script_not_found script_syntax_error script_runtime_error script_timeout : ScriptErrorType
  script_memory_limit script_module_kv script_module_http script_module_crypto : ScriptErrorType
  script_invalid_output script_disabled : ScriptErrorType

-- `text` is what its `Error()` gives.
pub record ScriptError : Type 0 where
  pub type : ScriptErrorType
  pub message : Bytes
  pub cause : Option Bytes
  pub text : Bytes

-- `TransformResult`: an empty body and an empty list of statuses change nothing.
pub record TransformResult : Type 0 where
  pub body : Bytes
  pub headers : List (Bytes × Bytes)
  pub removed_headers : List Bytes
  pub retry_on_status : List ℕ

pub data ScriptOutcome : Type 0 where
  transforms : TransformResult → ScriptOutcome
  script_failed : ScriptError → ScriptOutcome
  other_failure : Bytes → ScriptOutcome

pub record Env : Type 0 where
  pub reply : ℕ → Reply
  pub clock : ℕ → ℕ
  pub hour_name : ℕ → Bytes
  pub sample : ℕ → Fraction
  pub respond : ℕ → Webhook → Delivery
  pub run_script : ℕ → Webhook → ScriptOutcome
  pub getenv : Bytes → Bytes
  pub set_query : Bytes → List (Bytes × Bytes) → Option Bytes
  pub held_config : Bytes → Option (Option Fields)
  pub url_host : Bytes → Option Bytes
  pub parse_webhook : Bytes → Option Webhook

abbrev pub M : Type 0 → Type 0
M A = Env → World → A × World

unfoldable pub pure : {A : Type 0} → A → M A
pure a env w = (a, w)

infixl 5 ◌>>=◌ ◌>>◌
unfoldable pub ◌>>=◌ : {A B : Type 0} → M A → (A → M B) → M B
unfolding pure
◌>>=◌ m f env w = let (a, w') = m env w in f a env w'

abbrev pub ◌>>◌ : {A B : Type 0} → M A → M B → M B
m >> k = m >>= λ _. k

-- An operation of one, two or three calls to Redis.
unfoldable pub redis : {A : Type 0} → (ℕ → Reply → Op A) → M A
redis f env w =
    let (a, s) = f (env.clock w.calls) (env.reply w.calls) w.store in
    (a, record w { store = s; calls = suc w.calls })

unfoldable pub redis₂ : {A : Type 0} → (ℕ → Reply → Reply → Op A) → M A
redis₂ f env w =
    let (a, s) = f (env.clock w.calls) (env.reply w.calls) (env.reply (w.calls + 1)) w.store in
    (a, record w { store = s; calls = w.calls + 2 })

unfoldable pub redis₃ : {A : Type 0} → (ℕ → Reply → Reply → Reply → Op A) → M A
redis₃ f env w =
    let (a, s) =
      f (env.clock w.calls) (env.reply w.calls) (env.reply (w.calls + 1)) (env.reply (w.calls + 2))
        w.store in
    (a, record w { store = s; calls = w.calls + 3 })

-- Whether the producer reported success.
unfoldable pub publish : (Topics → Topics) → M Bool
publish f env w =
    let r = env.reply w.calls in
    (arrived r, record w { topics = wrote r (f w.topics) w.topics; calls = suc w.calls })

-- `time.Now()`, and the sample that the jitter of a retry takes.
unfoldable pub time_now : M ℕ
time_now env w = (env.clock w.calls, w)

-- `time.Now().Format("2006010215")`: the local hour, which names the counters of the statistics.
unfoldable pub bucket : M Bytes
bucket env w = (env.hour_name (env.clock w.calls), w)

unfoldable pub next_sample : M Fraction
next_sample env w = (env.sample w.calls, w)

-- `Deliver`: one HTTP request.
unfoldable pub send : Webhook → M Delivery
send h env w = (env.respond w.calls h, record w { sent = h ∷ w.sent; calls = suc w.calls })

unfoldable pub execute_script : Webhook → M ScriptOutcome
execute_script h env w = (env.run_script w.calls h, record w { calls = suc w.calls })

-- The copy that is sent, which the overrides have been applied to.
unfoldable pub deliverable : Env → Webhook → Webhook
unfolding apply_overrides lookup_delivery_overrides
deliverable env h =
    apply_overrides env.set_query h
      (lookup_delivery_overrides env.getenv (env.held_config h.config_id) h)

unfoldable pub resolve_overrides : Webhook → M Webhook
unfolding deliverable
resolve_overrides h env w = (deliverable env h, w)

unfoldable pub publish_pending : Webhook → M Bool
unfolding publish
publish_pending h = publish (λ t. record t { pending = h ∷ t.pending })

unfoldable pub publish_slow : Webhook → M Bool
unfolding publish
publish_slow h = publish (λ t. record t { slow = h ∷ t.slow })

unfoldable pub publish_result : DeliveryResult → M Bool
unfolding publish
publish_result r = publish (λ t. record t { results = r ∷ t.results })

unfoldable pub publish_dead_letter : DeadLetter → M Bool
unfolding publish
publish_dead_letter d = publish (λ t. record t { dead_letters = d ∷ t.dead_letters })

unfoldable pub publish_state : WebhookStateSnapshot → M Bool
unfolding publish
publish_state s = publish (λ t. record t { states = (s.webhook_id, some s) ∷ t.states })

unfoldable pub publish_tombstone : Bytes → M Bool
unfolding publish
publish_tombstone id = publish (λ t. record t { states = (id, none) ∷ t.states })
