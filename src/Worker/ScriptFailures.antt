-- ===== src/Worker/ScriptFailures.antt =====
-- internal/worker/worker.go: what becomes of a webhook whose script failed.
use howk.Prelude.{
  ℕ, ◌≡◌, refl, ◌∙◌, ◌⊎◌, inl, inr, any, [], Bool, true, false, List, ◌∷◌, Bool-cases,
}
use howk.Prelude.Int.{incr}
use howk.Prelude.Text.{Bytes, bytes_eq, to_lower}
use howk.Domain.Headers.{
  header, masked, is_sensitive, default_sensitive_headers, clone_for_dlq, clone_for_dlq_masks,
}
use howk.Domain.{
  Webhook, WebhookState, pending, delivering, delivered, failed, exhausted, WebhookStatus,
  DeadLetter, DeadLetterReason, script_runtime_error, closed,
}
use howk.Redis.{Reply, replied, lost, late, Entry, Map, wrote}
use howk.Redis.ZSet.{ZSet}
use howk.HotState.{Op}
use howk.Effects.{
  Env, World, Topics, ScriptError, ScriptOutcome, transforms, script_failed, other_failure, pure,
  ◌>>=◌, redis, publish, publish_dead_letter, publish_state, publish_tombstone, time_now,
}
use howk.Effects.Keeps.{Keeps, keeps_rules}
use howk.Worker.Config.{
  WorkerConfig, Outcome, ack, nack, NackReason, retry_not_scheduled, dead_letter_failed,
}
use howk.Worker.Record.{publish_state_snapshot, update_status, record_stats, next_retry_time}
use howk.Worker.DeadLetters.{dead_letter_webhook, redact_names}
use howk.Worker.Attempt.{next_attempt}
use howk.Worker.Scripts.{
  dead_letter_sent, send_to_dlq, dlq_reason, is_transient, script_retry_scheduled, retry_script,
  handle_script_error, handle_other_failure,
}
use howk.Worker.{after_script}
use howk.Worker.Retained.{
  Retained, Retained-same, Kept, Kept-update_status, Kept-record_stats,
  schedule_webhook_retry-Retained,
}

-- The names of the headers to hide: those that are configured, or the default ones.
abbrev hidden_names : WorkerConfig → List Bytes
hidden_names c = elim c.dlq.redact_headers [ [] ↦ default_sensitive_headers | n ∷ ns ↦ n ∷ ns ]

-- What a dead letter shows of the webhook: all of it if that is configured; else each header of a
-- hidden name, up to the case of its letters, has the placeholder, and all else is as it was.
abbrev pub Shows : WorkerConfig → Webhook → Webhook → Type 0
Shows c h g =
    ((c.dlq.disable_redaction ≡ true) × (g ≡ h))
    ⊎ ((c.dlq.disable_redaction ≡ false)
        × ((k : Bytes)
            → header k g.headers
              ≡ masked (any (λ n. bytes_eq (to_lower n) (to_lower k)) (hidden_names c))
                  (header k h.headers))
        × (g ≡ record h { headers = g.headers }))

dead_letter_webhook-Shows : (c : WorkerConfig) (h : Webhook) → Shows c h (dead_letter_webhook c h)
unfolding dead_letter_webhook redact_names is_sensitive
dead_letter_webhook-Shows c h = elim (Bool-cases c.dlq.disable_redaction) [
  | inl e ↦ inl (e, rw e refl)
  | inr e ↦ inr (
    e,
    (λ k. rw e (named c.dlq.redact_headers k)),
    rw e (clone_for_dlq_masks h (redact_names c.dlq.redact_headers) []).1,
  )
]
  where
    named :
        (ns : List Bytes) (k : Bytes)
        → header k (clone_for_dlq h (redact_names ns)).headers
          ≡ masked
              (any
                (λ n. bytes_eq (to_lower n) (to_lower k))
                (elim ns [ [] ↦ default_sensitive_headers | n ∷ ms ↦ n ∷ ms ]))
              (header k h.headers)
    named [] k = (clone_for_dlq_masks h default_sensitive_headers k).0
    named (n ∷ ns) k = (clone_for_dlq_masks h (n ∷ ns) k).0

-- Nothing is lost: the next attempt is queued, or the dead letter, masked as configured, is
-- published, or the message is left to be redelivered.
abbrev pub NotLost : WorkerConfig → Webhook → World → Outcome × World → Type 0
NotLost c h w (o, w') =
    ((o ≡ ack) × Retained h.id (incr h.attempt) w'.store)
    ⊎ ((o ≡ ack)
        × ((d : DeadLetter) × (w'.topics.dead_letters ≡ d ∷ w.topics.dead_letters)
            × Shows c h d.webhook))
    ⊎ ((r : NackReason) × (o ≡ nack r))

abbrev Letters : List DeadLetter → World → Type 0
Letters l w = w.topics.dead_letters ≡ l

module _ {l : List DeadLetter} where
  Letters-redis : {A : Type 0} (f : ℕ → Reply → Op A) → Keeps (Letters l) (redis f)
  unfolding redis
  Letters-redis f = record { at = λ env w h. h }

  Letters-publish :
      (f : Topics → Topics)
      → ((t : Topics) → (f t).dead_letters ≡ t.dead_letters)
      → Keeps (Letters l) (publish f)
  unfolding publish
  Letters-publish f g = record { at = λ env w h. go (env.reply w.calls) w.topics h }
    where
      go : (r : Reply) (t : Topics) → t.dead_letters ≡ l → (wrote r (f t) t).dead_letters ≡ l
      go replied t h = g t ∙ h
      go late t h = g t ∙ h
      go lost t h = h

  Letters-publish_state_snapshot :
      (h : Webhook) (s : WebhookState) (st : WebhookStatus)
      → Keeps (Letters l) (publish_state_snapshot h s st)
  unfolding publish_state_snapshot publish_state publish_tombstone
  Letters-publish_state_snapshot h pending st = search keeps_rules
  Letters-publish_state_snapshot h delivering st = search keeps_rules
  Letters-publish_state_snapshot h delivered st = search (keeps_rules, Letters-publish)
  Letters-publish_state_snapshot h failed st = search (keeps_rules, Letters-publish)
  Letters-publish_state_snapshot h exhausted st = search (keeps_rules, Letters-publish)

  Letters-dead_letter_sent :
      (c : WorkerConfig) (h : Webhook) (text : Bytes)
      → Keeps (Letters l) (dead_letter_sent c h text true)
  unfolding dead_letter_sent update_status record_stats
  Letters-dead_letter_sent c h text =
      search (keeps_rules, Letters-redis, Letters-publish_state_snapshot) depth 10

dead_letter_sent-acks :
    (c : WorkerConfig) (h : Webhook) (text : Bytes) (env : Env) (w : World)
    → (dead_letter_sent c h text true env w).0 ≡ ack
unfolding dead_letter_sent ◌>>=◌ pure
dead_letter_sent-acks c h text env w = refl

after_letter-NotLost :
    (c : WorkerConfig) (h : Webhook) (text : Bytes) (d : DeadLetter) (env : Env) (w : World)
    → Shows c h d.webhook
    → let (b, w') = publish_dead_letter d env w in
      NotLost c h w (dead_letter_sent c h text b env w')
unfolding publish_dead_letter publish dead_letter_sent pure
after_letter-NotLost c h text d env w e = go (env.reply w.calls) refl
  where
    go :
        (r : Reply)
        → env.reply w.calls ≡ r
        → let (b, w') = publish_dead_letter d env w in
          NotLost c h w (dead_letter_sent c h text b env w')
    go replied f = rw f (
        inr (
          inl (
            dead_letter_sent-acks c h text env _,
            (d, (Letters-dead_letter_sent c h text).at env _ refl, e),
          )))
    go lost f = rw f (inr (inr (dead_letter_failed, refl)))
    go late f = rw f (inr (inr (dead_letter_failed, refl)))

send_to_dlq-NotLost :
    (c : WorkerConfig) (h : Webhook) (type : DeadLetterReason) (text : Bytes) (env : Env)
    (w : World)
    → NotLost c h w (send_to_dlq c h type text env w)
unfolding send_to_dlq ◌>>=◌ time_now
send_to_dlq-NotLost c h type text env w =
    after_letter-NotLost c h text _ env w (dead_letter_webhook-Shows c h)

module _ {z : ZSet} {m : Map (Entry Webhook)} where
  Kept-script_retry_scheduled :
      (c : WorkerConfig) (h : Webhook) (text : Bytes) (at : ℕ)
      → Keeps (Kept z m) (script_retry_scheduled c h text at true)
  unfolding script_retry_scheduled
  Kept-script_retry_scheduled c h text at =
      search (keeps_rules, Kept-update_status, Kept-record_stats) depth 8

script_retry_scheduled-acks :
    (c : WorkerConfig) (h : Webhook) (text : Bytes) (at : ℕ) (env : Env) (w : World)
    → (script_retry_scheduled c h text at true env w).0 ≡ ack
unfolding script_retry_scheduled ◌>>=◌ pure
script_retry_scheduled-acks c h text at env w = refl

script_retry_scheduled-NotLost :
    (c : WorkerConfig) (h g : Webhook) (text : Bytes) (at : ℕ) (done : Bool) (env : Env)
    (w₀ w : World)
    → g.id ≡ h.id
    → g.attempt ≡ incr h.attempt
    → (done ≡ true → Retained g.id g.attempt w.store)
    → NotLost c h w₀ (script_retry_scheduled c g text at done env w)
unfolding script_retry_scheduled pure
script_retry_scheduled-NotLost c h g text at false env w₀ w e f k =
    inr (inr (retry_not_scheduled, refl))
script_retry_scheduled-NotLost c h g text at true env w₀ w e f k =
    let (a, b) = (Kept-script_retry_scheduled c g text at).at env w (refl, refl) in
    let t = (script_retry_scheduled c g text at true env w).1.store in
    inl (
      script_retry_scheduled-acks c g text at env w,
      rw (← e, ← f) (Retained-same g.id g.attempt w.store t a b (k refl)),
    )

retry_script-NotLost :
    (c : WorkerConfig) (h : Webhook) (e : ScriptError) (env : Env) (w : World)
    → NotLost c h w (retry_script c h e env w)
unfolding retry_script ◌>>=◌ next_attempt
retry_script-NotLost c h e env w =
    let (at, w₁) = next_retry_time c h.attempt closed env w in
    let g = next_attempt h at in
    script_retry_scheduled-NotLost c h g e.text at _ env w _ refl refl
      (schedule_webhook_retry-Retained c g at _ env w₁)

handle_script_error-NotLost :
    (c : WorkerConfig) (h : Webhook) (e : ScriptError) (env : Env) (w : World)
    → NotLost c h w (handle_script_error c h e env w)
unfolding handle_script_error
handle_script_error-NotLost c h e env w = elim (Bool-cases (is_transient e.type)) [
  | inl t ↦ rw t (retry_script-NotLost c h e env w)
  | inr t ↦ rw t (send_to_dlq-NotLost c h (dlq_reason e.type e) e.text env w)
]

abbrev pub HasFailed : ScriptOutcome → Type 0
HasFailed (transforms r) = ⊥
HasFailed (script_failed e) = Unit {0}
HasFailed (other_failure text) = Unit {0}

-- However the calls to Redis and Kafka end, a webhook whose script failed, with a script error or
-- another one, is acknowledged only if its next attempt stands in the retry queue with its data in
-- Redis, or its dead letter was published; else the message is left to be redelivered. The dead
-- letter is the webhook, in which each header with a configured name (or a default one, if none
-- are configured) has the placeholder, unless that is switched off, and nothing else differs.
pub failed_script_is_kept :
    (c : WorkerConfig) (slow : Bool) (h : Webhook) (o : ScriptOutcome) (env : Env) (w : World)
    → HasFailed o
    → NotLost c h w (after_script c slow h o env w)
unfolding after_script handle_other_failure
failed_script_is_kept c slow h (transforms r) env w k = absurd k
failed_script_is_kept c slow h (script_failed e) env w k = handle_script_error-NotLost c h e env w
failed_script_is_kept c slow h (other_failure text) env w k =
    send_to_dlq-NotLost c h script_runtime_error text env w
