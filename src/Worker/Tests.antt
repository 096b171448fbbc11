-- ===== src/Worker/Tests.antt =====
-- internal/worker/worker.go: runs of a worker on concrete messages and worlds.
use howk.Prelude.{
  ℕ, suc, ◌*◌, ◌≡◌, refl, true, false, [], none, some, arith, if◌then◌else◌, ◌==◌, ◌/◌,
}
use howk.Prelude.Text.{codes}
use howk.Domain.{is_success}
use howk.Prelude.Decimal.{itoa}
use howk.Prelude.Int.{pos}
use howk.Domain.Samples.{sample_webhook}
use howk.Redis.{Reply, replied, lost}
use howk.Circuit.{should_allow}
use howk.Circuit.Tests.{limits, opened, holding}
use howk.Retry.{second, minute, should_retry}
use howk.HotState.Tests.{ttls, empty_store}
use howk.Effects.{
  Env, World, Topics, Delivery, ScriptError, ScriptErrorType, other_failure, script_failed,
}
use howk.Worker.Config.{WorkerConfig, ack}
use howk.Worker.{process_webhook, process_message}
use howk.Worker.Attempt.{attempt}
use howk.Worker.Slots.{SameSlots}
use howk.Worker.Balance.{slots_are_given_back}
use howk.Worker.Once.{process_all, at_most_once}
use howk.Worker.Denied.{Queued, circuit_retry_is_dropped}
use howk.Worker.Retained.{KeptOrNacked, failed_attempt_is_kept}
use howk.Worker.{after_script}
use howk.Worker.ScriptFailures.{NotLost, failed_script_is_kept}

abbrev pub settings : WorkerConfig
settings = record {
  ttl = ttls;
  circuit = limits;
  retry = record {
    base_delay = 10 * second;
    max_delay = 1440 * minute;
    max_attempts = 20;
    jitter = record { num = 1; den = 5 };
  };
  max_inflight_per_endpoint = 2;
  has_domain_limiter = true;
  limiter = record { default_max = 2; domain_overrides = [] };
  lua_enabled = false;
  dlq = record { disable_redaction = false; redact_headers = []; include_response_body = false };
}

abbrev answer : ℕ → Delivery
answer status = record { status_code = status; error = none; response_body = []; duration = 5 }

-- Every call ends like that, at 400 seconds, and every endpoint answers with that status.
abbrev pub steady : (ℕ → Reply) → ℕ → Env
steady reply status = record {
  reply = reply;
  clock = λ n. 400 * second;
  sample = λ n. record { num = 1; den = 2 };
  respond = λ n h. answer status;
  run_script = λ n h. other_failure [];
  hour_name = λ t. itoa (pos (t / 3600000000000));
  getenv = λ v. [];
  set_query = λ e ps. some e;
  held_config = λ id. none;
  url_host = λ e. some (codes "a.example");
  parse_webhook = λ v. some sample_webhook;
}

abbrev no_topics : Topics
no_topics = record { pending = []; slow = []; results = []; dead_letters = []; states = [] }

abbrev pub before : World
before = record { store = empty_store; topics = no_topics; sent = []; calls = 0 }

-- Redis holds the sample's endpoint as open, since before its recovery timeout.
abbrev with_open_circuit : World
with_open_circuit = record before {
  store = record empty_store {
    endpoints = λ k. holding (record opened { state_changed_at = 390 * second });
  };
}

abbrev pub healthy : Env
healthy = steady (λ n. replied) 200

at_most_once_example :
    let w' =
      process_all settings [] healthy
        (process_webhook settings false sample_webhook healthy before).1 in
    process_webhook settings true sample_webhook healthy w'
    ≡ (ack, record w' { calls = suc w'.calls })
at_most_once_example =
    at_most_once settings false true sample_webhook sample_webhook [] healthy before refl refl refl
      (ground arith) (λ n. refl) refl

circuit_retry_is_dropped_example :
    let w' =
      process_all settings [] healthy
        (process_webhook settings false sample_webhook healthy with_open_circuit).1 in
    Queued sample_webhook with_open_circuit
      (process_webhook settings false sample_webhook healthy with_open_circuit)
    × (process_webhook settings false sample_webhook healthy w'
        ≡ (ack, record w' { calls = suc w'.calls }))
unfolding should_allow
circuit_retry_is_dropped_example =
    circuit_retry_is_dropped settings false false sample_webhook sample_webhook [] healthy
      with_open_circuit refl refl refl (λ n. refl) (λ n. refl) refl

failed_attempt_is_kept_example :
    KeptOrNacked sample_webhook
      (attempt settings false sample_webhook (steady (λ n. replied) 503) before)
unfolding should_retry is_success
failed_attempt_is_kept_example =
    failed_attempt_is_kept settings false sample_webhook (steady (λ n. replied) 503) before refl
      refl

-- The third call fails: the publish of the dead letter.
abbrev third_fails : ℕ → Reply
third_fails n = if n == 2 then lost else replied

slots_are_given_back_example :
    SameSlots before.store (process_message settings false (codes "{}") healthy before).1.store
slots_are_given_back_example =
    slots_are_given_back settings false (codes "{}") healthy before (λ n. refl)

-- The key-value module of the script could not reach Redis.
abbrev no_connection : ScriptError
no_connection = record {
  type = ScriptErrorType.script_module_kv;
  message = codes "get";
  cause = some (codes "refused");
  text = codes "script_module_kv: get: refused";
}

failed_script_is_kept_example :
    NotLost settings sample_webhook before
      (after_script settings false sample_webhook (script_failed no_connection) healthy before)
failed_script_is_kept_example =
    failed_script_is_kept settings false sample_webhook (script_failed no_connection) healthy before
      tt
