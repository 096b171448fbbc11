-- ===== src/Worker.antt =====
-- internal/worker/worker.go and slow.go: what a worker does with one message of the pending topic
-- or of the slow lane. `processMessage` is cut at its early returns: `process_message`,
-- `process_webhook`, `admit`, `with_domain_slot`, `with_inflight_slot`, `transform`, `attempt` and
-- the ends of an attempt in Worker/Attempt and Worker/Scripts. A deferred release is a step after
-- the rest.
-- State snapshots are published by a goroutine in the source; here at once. Logs and metrics are
-- left out.
pub mod Config
pub mod Record
pub mod Transform
pub mod DeadLetters
pub mod Attempt
pub mod Scripts
pub mod Frame
pub mod Requests
pub mod Gates
pub mod Slots
pub mod Balance
pub mod Once
pub mod Tests
pub mod Lost
pub mod ScriptFailures
pub mod Retained
pub mod Denied
use howk.Prelude.{
  ℕ, ◌+◌, Bool, true, false, not, ◌||◌, List, [], ◌∷◌, Option, none, some, ltb, if◌then◌else◌,
}
use howk.Prelude.Text.{Bytes}
use howk.Domain.{Webhook, delivering}
use howk.Circuit.{Verdict, should_allow}
use howk.Limiter.{extract_domain, try_acquire, release}
use howk.HotState.{check_and_set_processed, incr_inflight, decr_inflight}
use howk.Effects.{
  M, ◌>>=◌, ◌>>◌, pure, Env, World, redis, redis₂, redis₃, execute_script, publish_slow,
  ScriptOutcome, transforms, script_failed, other_failure,
}
use Config.{WorkerConfig, Outcome, ack, nack, domain_saturated, endpoint_saturated, on_endpoint}
use Record.{update_status, record_stats, schedule_retry_for_circuit, diverted_stat}
use Attempt.{attempt}
use Scripts.{handle_script_error, handle_other_failure, send_to_dlq_for_script_disabled}
use Transform.{apply_transformation}

-- `ConcurrencyGate`: `try_acquire` gives `none` for a failure of the infrastructure.
pub record Gate : Type 0 where
  pub active : Bool
  pub acquire : M (Option Bool)
  pub reacquire : Option (M (Unit {0}))

-- The four results of `runConcurrencyGate`.
pub data GateResult : Type 0 where
  proceed : Bool → GateResult
  diverted nacked : GateResult

abbrev pub after_divert_failed : Option (M (Unit {0})) → M GateResult
after_divert_failed none = pure (proceed false)
after_divert_failed (some again) = do again; pure (proceed true)

unfoldable pub after_divert : Option (M (Unit {0})) → Bool → M GateResult
after_divert again true = pure diverted
after_divert again false = after_divert_failed again

unfoldable pub at_capacity : Bool → Webhook → Option (M (Unit {0})) → M GateResult
unfolding after_divert
at_capacity true h again = pure nacked
at_capacity false h again = do published ← publish_slow h; after_divert again published

unfoldable pub after_acquire : Bool → Webhook → Option (M (Unit {0})) → Option Bool → M GateResult
unfolding at_capacity
after_acquire slow h again none = pure (proceed false)
after_acquire slow h again (some true) = pure (proceed true)
after_acquire slow h again (some false) = at_capacity slow h again

unfoldable pub run_concurrency_gate : Webhook → Bool → Gate → M GateResult
unfolding after_acquire
run_concurrency_gate h slow g =
    if g.active
    then (do got ← g.acquire; after_acquire slow h g.reacquire got)
    else pure (proceed false)

-- The domain of the webhook, as the limiter sees it.
unfoldable pub domain_of : Webhook → M Bytes
domain_of h env w = (extract_domain (env.url_host h.endpoint) h.endpoint, w)

unfoldable pub domain_gate : WorkerConfig → Webhook → Gate
unfolding domain_of
domain_gate c h = record {
  active = c.has_domain_limiter;
  acquire = do
    d ← domain_of h
    got ← redis₂ (try_acquire c.limiter d)
    pure (some got);
  reacquire = none;
}

unfoldable pub release_domain : Bool → Webhook → M (Unit {0})
unfolding domain_of
release_domain false h = pure tt
release_domain true h = do d ← domain_of h; _ ← redis (release d); pure tt

-- Over the limit the count is taken back.
unfoldable pub within_limit : WorkerConfig → Webhook → Option ℕ → M (Option Bool)
within_limit c h none = pure none
within_limit c h (some n) =
    if ltb c.max_inflight_per_endpoint n
    then (do _ ← redis (decr_inflight h.endpoint_hash); pure (some false))
    else pure (some true)

unfoldable pub acquire_inflight : WorkerConfig → Webhook → M (Option Bool)
unfolding within_limit
acquire_inflight c h = do count ← redis (incr_inflight h.endpoint_hash); within_limit c h count

unfoldable pub inflight_gate : WorkerConfig → Webhook → Gate
unfolding acquire_inflight
inflight_gate c h = record {
  active = true;
  acquire = acquire_inflight c h;
  reacquire = some (do _ ← redis (incr_inflight h.endpoint_hash); pure tt);
}

unfoldable pub release_inflight : Bool → Webhook → M (Unit {0})
release_inflight false h = pure tt
release_inflight true h = do _ ← redis (decr_inflight h.endpoint_hash); pure tt

unfoldable pub after_script : WorkerConfig → Bool → Webhook → ScriptOutcome → M Outcome
after_script c slow h (transforms r) = attempt c slow (apply_transformation h r)
after_script c slow h (script_failed e) = handle_script_error c h e
after_script c slow h (other_failure text) = handle_other_failure c h text

-- The script step, then the attempt.
unfoldable pub transform : WorkerConfig → Bool → Webhook → Bytes → M Outcome
unfolding after_script
transform c slow h [] = attempt c slow h
transform c slow h (_ ∷ _) =
    if c.lua_enabled
    then (do outcome ← execute_script h; after_script c slow h outcome)
    else send_to_dlq_for_script_disabled c h

unfoldable pub deliver_webhook : WorkerConfig → Bool → Webhook → M Outcome
unfolding transform
deliver_webhook c slow h = do update_status c h delivering none; transform c slow h h.script_hash

unfoldable pub after_inflight_gate : WorkerConfig → Bool → Webhook → GateResult → M Outcome
unfolding deliver_webhook release_inflight
after_inflight_gate c slow h diverted = do record_stats diverted_stat h; pure ack
after_inflight_gate c slow h nacked = pure (nack endpoint_saturated)
after_inflight_gate c slow h (proceed held) = do
  outcome ← deliver_webhook c slow h
  release_inflight held h
  pure outcome

unfoldable pub with_inflight_slot : WorkerConfig → Bool → Webhook → M Outcome
unfolding run_concurrency_gate inflight_gate after_inflight_gate
with_inflight_slot c slow h = do
  result ← run_concurrency_gate h slow (inflight_gate c h)
  after_inflight_gate c slow h result

unfoldable pub after_domain_gate : WorkerConfig → Bool → Webhook → GateResult → M Outcome
unfolding with_inflight_slot release_domain
after_domain_gate c slow h diverted = do record_stats diverted_stat h; pure ack
after_domain_gate c slow h nacked = pure (nack domain_saturated)
after_domain_gate c slow h (proceed held) = do
  outcome ← with_inflight_slot c slow h
  release_domain held h
  pure outcome

unfoldable pub with_domain_slot : WorkerConfig → Bool → Webhook → M Outcome
unfolding run_concurrency_gate domain_gate after_domain_gate
with_domain_slot c slow h = do
  result ← run_concurrency_gate h slow (domain_gate c h)
  after_domain_gate c slow h result

unfoldable pub by_circuit : WorkerConfig → Bool → Webhook → Bool → M Outcome
unfolding with_domain_slot
by_circuit c slow h true = with_domain_slot c slow h
by_circuit c slow h false = schedule_retry_for_circuit c h

-- The circuit's turn; a failed check lets the request through.
unfoldable pub admit : WorkerConfig → Bool → Webhook → M Outcome
unfolding by_circuit
admit c slow h = do
  v ← redis₃ λ now r₁ r₂ r₃.
      on_endpoint h.endpoint_hash (should_allow c.circuit h.endpoint_hash now r₁ r₂ r₃)
  by_circuit c slow h (v.allowed || v.failed)

-- A key that was set before means that this attempt has been processed; a failed check does not.
abbrev pub is_duplicate : Option Bool → Bool
is_duplicate none = false
is_duplicate (some first_time) = not first_time

unfoldable pub unless_duplicate : WorkerConfig → Bool → Webhook → Bool → M Outcome
unfolding admit
unless_duplicate c slow h true = pure ack
unless_duplicate c slow h false = admit c slow h

unfoldable pub process_webhook : WorkerConfig → Bool → Webhook → M Outcome
unfolding unless_duplicate
process_webhook c slow h = do
  first_time ← redis (check_and_set_processed h.id h.attempt c.ttl.idempotency_ttl)
  unless_duplicate c slow h (is_duplicate first_time)

-- `json.Unmarshal`.
unfoldable pub parse_message : Bytes → M (Option Webhook)
parse_message value env w = (env.parse_webhook value, w)

-- A message that does not parse is dropped.
unfoldable pub if_parsed : WorkerConfig → Bool → Option Webhook → M Outcome
unfolding process_webhook
if_parsed c slow none = pure ack
if_parsed c slow (some h) = process_webhook c slow h

unfoldable pub process_message : WorkerConfig → Bool → Bytes → M Outcome
unfolding parse_message if_parsed
process_message c slow value = do parsed ← parse_message value; if_parsed c slow parsed
