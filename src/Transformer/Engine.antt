-- ===== src/Transformer/Engine.antt =====
-- internal/transformer/engine.go: a transformer script and the webhooks that it posts. The Lua machine is
-- third-party: it turns the code of a script, with its inputs, into a `Program`, the tree of the calls
-- of `howk.post` that the script makes, each of which goes on from the result of the call.
use howk.Prelude.{ℕ, Bool, true, false, List, [], ◌∷◌, ◌++◌, Option, none, some, if◌then◌else◌}
use howk.Prelude.Int.{ℤ, pos}
use howk.Prelude.Text.{Bytes, codes, bytes_eq}
use howk.Domain.{Webhook, WebhookStatus, pending, new_webhook}
use howk.Domain.Entries.{set_entries}
use howk.Domain.Matching.{matches_domain}
use howk.HotState.{TtlConfig, set_status}
use howk.Json.{
  Value, json_null, json_bool, json_number, json_string, json_array, json_object, Values, last,
  item, Fields, get,
}
use howk.Delivery.{extract_templates}
use howk.Effects.{M, ◌>>=◌, ◌>>◌, pure, redis, time_now, publish_pending}
use howk.Transformer.{TransformerScript}

-- A value of Lua, as `parsePostOptions` reads it: what its `String` gives, its entries if it is a table,
-- and its integer part if it is a number.
pub record LuaValue : Type 0 where
  pub text : Bytes
  pub table : Option (List (Bytes × Bytes))
  pub number : Option ℤ

-- A call of `howk.post`: the payload that luajson made of the table, unless that failed, and the
-- entries of the table of options, in the order in which Lua gives them.
pub record PostCall : Type 0 where
  pub endpoint : Bytes
  pub payload : Option Bytes
  pub options : List (Bytes × LuaValue)

pub record PostOptions : Type 0 where
  pub headers : List (Bytes × Bytes)
  pub signing_secret : Bytes
  pub config_id : Bytes
  pub max_attempts : ℤ

pub data ErrorKind : Type 0 where
  syntax_error runtime_error timeout internal : ErrorKind

pub record TransformerError : Type 0 where
  pub kind : ErrorKind
  pub message : Bytes

pub data PostError : Type 0 where
  encode_failed invalid_url missing_host domains_not_array domain_refused publish_failed : PostError

pub data PostResult : Type 0 where
  created : Bytes → PostResult
  refused : PostError → PostResult

pub data Program : Type 0 where
  finished : Option TransformerError → Program
  post : PostCall → (PostResult → Program) → Program

pub record WebhookRef : Type 0 where
  pub id : Bytes
  pub endpoint : Bytes

abbrev pub default_options : PostOptions
default_options = record {
  headers = [];
  signing_secret = [];
  config_id = [];
  max_attempts = pos 20;
}

abbrev headers_of : Option (List (Bytes × Bytes)) → PostOptions → PostOptions
headers_of none o = o
headers_of (some m) o = record o { headers = set_entries o.headers m }

abbrev attempts_of : Option ℤ → PostOptions → PostOptions
attempts_of none o = o
attempts_of (some n) o = record o { max_attempts = n }

unfoldable pub parse_post_options : List (Bytes × LuaValue) → PostOptions → PostOptions
parse_post_options [] o = o
parse_post_options ((k, v) ∷ m) o = parse_post_options m (
    if bytes_eq k (codes "headers")
    then headers_of v.table o
    else if bytes_eq k (codes "signing_secret")
    then record o { signing_secret = v.text }
    else if bytes_eq k (codes "config_id")
    then record o { config_id = v.text }
    else if bytes_eq k (codes "max_attempts")
    then attempts_of v.number o
    else o)

-- The loop over `allowed_domains`: entries that are no strings are skipped.
unfoldable pub is_listed : Bytes → Values → Bool
is_listed host last = false
is_listed host (item (json_string p) vs) =
    let rest = is_listed host vs in if matches_domain host p then true else rest
is_listed host (item json_null vs) = is_listed host vs
is_listed host (item (json_bool b) vs) = is_listed host vs
is_listed host (item (json_number n) vs) = is_listed host vs
is_listed host (item (json_array a) vs) = is_listed host vs
is_listed host (item (json_object o) vs) = is_listed host vs

-- The value of `allowed_domains`, if the script has it.
abbrev pub allowed_domains : Option Fields → Option Value
allowed_domains none = none
allowed_domains (some fs) = get (codes "allowed_domains") fs

unfoldable pub check_domains : Bytes → Option Value → Option PostError
unfolding is_listed
check_domains host none = none
check_domains host (some (json_array vs)) = if is_listed host vs then none else some domain_refused
check_domains host (some json_null) = some domains_not_array
check_domains host (some (json_bool b)) = some domains_not_array
check_domains host (some (json_number n)) = some domains_not_array
check_domains host (some (json_string s)) = some domains_not_array
check_domains host (some (json_object o)) = some domains_not_array

-- `parsed` is the host that `url.Parse` gives; `none` as result is success.
unfoldable pub validate_domain : Option Bytes → Option Fields → Option PostError
unfolding check_domains
validate_domain none config = some invalid_url
validate_domain (some []) config = some missing_host
validate_domain (some (c ∷ host)) config = check_domains (c ∷ host) (allowed_domains config)

-- What the constructors of identifiers and hashes give: the fresh ULID of a call, and `HashEndpoint`.
pub record Sources : Type 0 where
  pub ulid : ℕ → Bytes
  pub hash : Bytes → Bytes

unfoldable pub fresh : Sources → M Bytes
fresh s env w = (s.ulid w.calls, w)

unfoldable pub host_of : Bytes → M (Option Bytes)
host_of endpoint env w = (env.url_host endpoint, w)

unfoldable pub posted_webhook :
    Sources → TransformerScript → PostCall → Bytes → PostOptions → Bytes → ℕ → Webhook
unfolding extract_templates
posted_webhook s script call payload o id now =
    let (params, headers) = extract_templates script.config in
    new_webhook s.hash id now (record {
      config_id = elim o.config_id [ [] ↦ script.name | c ∷ t ↦ c ∷ t ];
      endpoint = call.endpoint;
      payload = payload;
      headers = some o.headers;
      idempotency_key = [];
      signing_secret = o.signing_secret;
      script_hash = [];
      max_attempts = o.max_attempts;
      delivery_query_params = params;
      delivery_headers = headers;
    })

-- The status of a webhook that has been accepted.
unfoldable pub initial_status : Bytes → ℕ → WebhookStatus
initial_status id now = record {
  webhook_id = id;
  state = pending;
  attempts = pos 0;
  last_attempt_at = none;
  last_status_code = 0;
  last_error = [];
  next_retry_at = none;
  delivered_at = none;
  updated_at_ns = now;
}

abbrev pub noted : Bytes → PostResult → List WebhookRef → List WebhookRef
noted endpoint (created id) refs = refs ++ record { id = id; endpoint = endpoint } ∷ []
noted endpoint (refused e) refs = refs

module _ (c : TtlConfig) (s : Sources) (script : TransformerScript) where
  -- After the publish; the error of `SetStatus` is only logged.
  unfoldable pub after_post : Webhook → Bool → M PostResult
  unfolding initial_status
  after_post h false = pure (refused publish_failed)
  after_post h true = do
    now ← time_now
    redis (set_status c (initial_status h.id now))
    pure (created h.id)

  unfoldable pub post_valid : PostCall → Bytes → Option PostError → M PostResult
  unfolding after_post posted_webhook parse_post_options fresh
  post_valid call payload (some e) = pure (refused e)
  post_valid call payload none = do
    now ← time_now
    id ← fresh s
    let h =
        posted_webhook s script call payload (parse_post_options call.options default_options) id
          now
    done ← publish_pending h
    after_post h done

  unfoldable pub post_payload : PostCall → Option Bytes → M PostResult
  unfolding post_valid validate_domain host_of
  post_payload call none = pure (refused encode_failed)
  post_payload call (some payload) = do
    host ← host_of call.endpoint
    post_valid call payload (validate_domain host script.config)

  -- `executeScript`: how the script ended, and the webhooks that it created.
  unfoldable pub execute_script :
      Program → List WebhookRef → M (Option TransformerError × List WebhookRef)
  unfolding post_payload
  execute_script (finished e) refs = pure (e, refs)
  execute_script (post call next) refs =
      post_payload call call.payload >>= λ r. execute_script (next r) (noted call.endpoint r refs)

pub data Execution : Type 0 where
  failed : TransformerError → Execution
  executed : List WebhookRef → Execution

abbrev ended : Option TransformerError × List WebhookRef → Execution
ended (none, refs) = executed refs
ended (some e, refs) = failed e

-- `Execute`. `timed_out` says whether the timeout comes first; the script then still runs to where it
-- is interrupted.
unfoldable pub execute : TtlConfig → Sources → TransformerScript → Program → Bool → M Execution
unfolding execute_script
execute c s script p timed_out = do
  r ← execute_script c s script p []
  pure (
      if timed_out
      then failed (record { kind = timeout; message = codes "script execution exceeded timeout" })
      else ended r)
