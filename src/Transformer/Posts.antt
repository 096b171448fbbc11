-- ===== src/Transformer/Posts.antt =====
-- internal/transformer/engine.go: which webhooks a run of a transformer script brings into being.
use mathlib.Core.Option.{none-ne-some}
use howk.Json.{
  Value, Values, Fields, json_null, json_bool, json_number, json_string, json_array, json_object,
  last, item,
}
use howk.Domain.Matching.{matches_domain, matches_domain_iff, HasMatch}
use howk.Prelude.{
  ◌≡◌, ◌⊎◌, refl, sym, arith, true, Bool-cases, ap, inl, inr, List, [], ◌∷◌, ◌++◌, Option, none,
  some, All,
}
use howk.Prelude.Text.{Bytes}
use howk.Domain.{Webhook, new_webhook}
use howk.HotState.{TtlConfig}
use howk.Redis.{Reply, replied, lost, late}
use howk.Delivery.{extract_templates}
use howk.Effects.{Env, World, ◌>>=◌, pure, redis, time_now, publish_pending}
use howk.Transformer.{TransformerScript}
use howk.Transformer.Engine.{
  PostCall, PostError, Program, finished, post, WebhookRef, Sources, validate_domain, is_listed,
  check_domains, allowed_domains, parse_post_options, posted_webhook, after_post, post_valid,
  post_payload, execute_script, noted, host_of, fresh, default_options,
}

-- The patterns of a list of domains; what is no string is passed over.
abbrev pub patterns : Values → List Bytes
patterns last = []
patterns (item (json_string p) vs) = p ∷ patterns vs
patterns (item json_null vs) = patterns vs
patterns (item (json_bool b) vs) = patterns vs
patterns (item (json_number n) vs) = patterns vs
patterns (item (json_array a) vs) = patterns vs
patterns (item (json_object o) vs) = patterns vs

-- What `allowed_domains` lets through: everything if it is not there, else the hosts that match one
-- of its patterns.
abbrev pub Allows : Option Value → Bytes → Type 0
Allows none host = Unit
Allows (some (json_array vs)) host = HasMatch host (patterns vs)
Allows (some json_null) host = ⊥
Allows (some (json_bool b)) host = ⊥
Allows (some (json_number n)) host = ⊥
Allows (some (json_string s)) host = ⊥
Allows (some (json_object o)) host = ⊥

is_listed-HasMatch :
    (host : Bytes) (vs : Values) → is_listed host vs ≡ true → HasMatch host (patterns vs)
unfolding is_listed
is_listed-HasMatch host last h = ground arith
is_listed-HasMatch host (item (json_string p) vs) h = elim (Bool-cases (matches_domain host p)) [
  | inl e ↦ inl ((matches_domain_iff host p).0 e)
  | inr e ↦ inr (is_listed-HasMatch host vs (rw e at h))
]
is_listed-HasMatch host (item json_null vs) h = is_listed-HasMatch host vs h
is_listed-HasMatch host (item (json_bool b) vs) h = is_listed-HasMatch host vs h
is_listed-HasMatch host (item (json_number n) vs) h = is_listed-HasMatch host vs h
is_listed-HasMatch host (item (json_array a) vs) h = is_listed-HasMatch host vs h
is_listed-HasMatch host (item (json_object o) vs) h = is_listed-HasMatch host vs h

check_domains-Allows :
    (host : Bytes) (v : Option Value) → check_domains host v ≡ none → Allows v host
unfolding check_domains
check_domains-Allows host none h = tt
check_domains-Allows host (some (json_array vs)) h = elim (Bool-cases (is_listed host vs)) [
  | inl e ↦ is_listed-HasMatch host vs e
  | inr e ↦ absurd (none-ne-some _ (sym (rw e at h)))
]
check_domains-Allows host (some json_null) h = absurd (none-ne-some _ (sym h))
check_domains-Allows host (some (json_bool b)) h = absurd (none-ne-some _ (sym h))
check_domains-Allows host (some (json_number n)) h = absurd (none-ne-some _ (sym h))
check_domains-Allows host (some (json_string s)) h = absurd (none-ne-some _ (sym h))
check_domains-Allows host (some (json_object o)) h = absurd (none-ne-some _ (sym h))

-- The endpoint has a host, and the configuration allows it.
abbrev pub GoesToAllowed : Option Bytes → Option Fields → Type 0
GoesToAllowed parsed config =
    (host : Bytes) × (parsed ≡ some host) × Allows (allowed_domains config) host

validate_domain-GoesToAllowed :
    (parsed : Option Bytes) (config : Option Fields)
    → validate_domain parsed config ≡ none
    → GoesToAllowed parsed config
unfolding validate_domain
validate_domain-GoesToAllowed none config h = absurd (none-ne-some _ (sym h))
validate_domain-GoesToAllowed (some []) config h = absurd (none-ne-some _ (sym h))
validate_domain-GoesToAllowed (some (c ∷ host)) config h =
    (c ∷ host, refl, check_domains-Allows (c ∷ host) (allowed_domains config) h)

-- A webhook of the script: to a host that its configuration allows, with its delivery templates.
pub record IsPosted (env : Env) (script : TransformerScript) (h : Webhook) : Type 0 where
  pub allowed : GoesToAllowed (env.url_host h.endpoint) script.config
  pub params : h.delivery_query_params ≡ (extract_templates script.config).0
  pub headers : h.delivery_headers ≡ (extract_templates script.config).1

-- A list holds the webhook that a reference names.
abbrev pub Holds : List Webhook → WebhookRef → Type 0
Holds [] r = ⊥
Holds (h ∷ hs) r = ((h.id ≡ r.id) × (h.endpoint ≡ r.endpoint)) ⊎ Holds hs r

All-Holds :
    (h : Webhook) (hs : List Webhook) (refs : List WebhookRef)
    → All (Holds hs) refs
    → All (Holds (h ∷ hs)) refs
All-Holds h hs [] k = tt
All-Holds h hs (r ∷ refs) k = (inr k.0, All-Holds h hs refs k.1)

All-noted :
    (hs : List Webhook) (refs : List WebhookRef) (r : WebhookRef)
    → All (Holds hs) refs
    → Holds hs r
    → All (Holds hs) (refs ++ r ∷ [])
All-noted hs [] r k m = (m, tt)
All-noted hs (x ∷ refs) r k m = (k.0, All-noted hs refs r k.1 m)

-- What has been added to the pending topic since it was `before`, and the references so far.
pub record Posted (env : Env) (script : TransformerScript) (before : List Webhook) (w : World)
    (refs : List WebhookRef) : Type 0 where
  pub added : List Webhook
  pub grown : w.topics.pending ≡ added ++ before
  pub each : All (IsPosted env script) added
  pub named : All (Holds added) refs

module _ (c : TtlConfig) (s : Sources) (script : TransformerScript) (env : Env)
    (before : List Webhook) where
  abbrev Kept : World → List WebhookRef → Type 0
  Kept = Posted env script before

  post_valid-Posted :
      (call : PostCall) (payload : Bytes) (o : Option PostError) (w : World)
      (refs : List WebhookRef)
      → validate_domain (env.url_host call.endpoint) script.config ≡ o
      → Kept w refs
      → let (r, w') = post_valid c s script call payload o env w in
        Kept w' (noted call.endpoint r refs)
  unfolding post_valid ◌>>=◌ pure time_now fresh publish_pending after_post redis posted_webhook
      new_webhook
  post_valid-Posted call payload (some e) w refs v k = record {
    added = k.added;
    grown = k.grown;
    each = k.each;
    named = k.named;
  }
  post_valid-Posted call payload none w refs v k = go (env.reply w.calls) refl
    where
      h : Webhook
      h =
          posted_webhook s script call payload (parse_post_options call.options default_options)
            (s.ulid w.calls) (env.clock w.calls)

      ok : IsPosted env script h
      ok =
          unfold posted_webhook new_webhook in
          record {
            allowed = validate_domain-GoesToAllowed (env.url_host call.endpoint) script.config v;
            params = refl;
            headers = refl;
          }

      go :
          (r : Reply)
          → env.reply w.calls ≡ r
          → let (r, w') = post_valid c s script call payload none env w in
            Kept w' (noted call.endpoint r refs)
      go replied e = rw e (record {
        added = h ∷ k.added;
        grown = ap (◌∷◌ h) k.grown;
        each = (ok, k.each);
        named =
            All-noted (h ∷ k.added) refs _ (All-Holds h k.added refs k.named) (inl (refl, refl));
      })
      go lost e = rw e (record { added = k.added; grown = k.grown; each = k.each; named = k.named })
      go late e = rw e (record {
        added = h ∷ k.added;
        grown = ap (◌∷◌ h) k.grown;
        each = (ok, k.each);
        named = All-Holds h k.added refs k.named;
      })

  post_payload-Posted :
      (call : PostCall) (o : Option Bytes) (w : World) (refs : List WebhookRef)
      → Kept w refs
      → let (r, w') = post_payload c s script call o env w in Kept w' (noted call.endpoint r refs)
  unfolding post_payload ◌>>=◌ pure host_of
  post_payload-Posted call none w refs k = k
  post_payload-Posted call (some payload) w refs k =
      post_valid-Posted call payload (validate_domain (env.url_host call.endpoint) script.config) w
        refs refl k

  execute_script-Posted :
      (p : Program) (w : World) (refs : List WebhookRef)
      → Kept w refs
      → let ((e, refs'), w') = execute_script c s script p refs env w in Kept w' refs'
  unfolding execute_script ◌>>=◌ pure
  execute_script-Posted (finished e) w refs k = k
  execute_script-Posted (post call next) w refs k =
      let (r, w') = post_payload c s script call call.payload env w in
      execute_script-Posted (next r) w' (noted call.endpoint r refs)
        (post_payload-Posted call call.payload w refs k)

-- However a script calls `howk.post`, fails or is interrupted, and whatever publishes fail: a run adds
-- to the pending topic only webhooks to hosts that the configuration of the script allows, each
-- with the delivery templates of that configuration unresolved, and removes none; and each webhook
-- that the run reports is among those added.
pub posts_are_allowed :
    (c : TtlConfig) (s : Sources) (script : TransformerScript) (p : Program) (env : Env) (w : World)
    → let ((e, refs), w') = execute_script c s script p [] env w in
      Posted env script w.topics.pending w' refs
posts_are_allowed c s script p env w =
    execute_script-Posted c s script env w.topics.pending p w []
      (record { added = []; grown = refl; each = tt; named = tt })
