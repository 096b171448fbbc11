-- ===== src/Api/Tests.antt =====
-- internal/api: requests on a healthy system.
use howk.Prelude.{◌≡◌, refl, subst, Bool, true, false, [], ◌∷◌, none, some}
use mathlib.Core.Option.{some-injective}
use howk.Prelude.Int.{pos}
use howk.Prelude.Text.{Bytes, codes, has_suffix}
use howk.Redis.{replied}
use howk.HotState.Tests.{ttls, empty_store}
use howk.HotState.ScriptCache.{get_script}
use howk.Domain.Samples.{sample_webhook}
use howk.Effects.{◌>>=◌, redis₂, time_now}
use howk.Worker.Tests.{healthy, before}
use howk.Script.{Loader, new_loader}
use howk.Script.Tests.{plain, plain-IsJson, script_of}
use howk.Transformer.{load}
use howk.Transformer.Auth.{check}
use howk.Transformer.Tests.{files, dirs, name, filed, sources, one_post, ann}
use howk.Api.{
  EnqueueRequest, respond, script_body, load_opt, process_enqueue, enqueue_all, none_yet,
}
use howk.Api.Enqueue.{SameWorld, Enqueued, rejection_is_total, accepted_is_published}
use howk.Api.Incoming.{IncomingRequest, handle_incoming, guarded_script_needs_credentials}
use howk.Api.Scripts.{
  Scripts, UploadRequest, uploaded, handle_upload_script, handle_get_script, upload_then_get,
}

abbrev request : Bool → EnqueueRequest
request require = record {
  endpoint = codes "https://a.example";
  payload = codes "{}";
  headers = none;
  idempotency_key = [];
  signing_secret = [];
  max_attempts = pos 0;
  require_script = require;
}

-- The second of two webhooks needs a script, and there is none.
rejection_is_total_example :
    SameWorld
      (process_enqueue sources plain ttls
        (codes "cfg")
        (request false ∷ request true ∷ [])
        none
        healthy
        before).1
      before
unfolding process_enqueue ◌>>=◌ redis₂ get_script time_now
rejection_is_total_example =
    rejection_is_total sources plain ttls (codes "cfg") (request false ∷ request true ∷ []) none
      healthy before refl

accepted_is_published_example :
    let (t, w') = enqueue_all ttls (sample_webhook ∷ sample_webhook ∷ []) none_yet healthy before in
    Enqueued [] 2 t w'
accepted_is_published_example =
    accepted_is_published ttls (sample_webhook ∷ sample_webhook ∷ []) healthy before

abbrev incoming : IncomingRequest
incoming = record {
  script_name = name;
  basic_auth = some (codes "ann", codes "guess");
  body = some (codes "{}");
  headers = [];
}

wrong_password : check (λ p h. false) ann (codes "ann") (codes "guess") ≡ false
unfolding check
wrong_password = refl

guarded_script_needs_credentials_example :
    let (r, w') =
      handle_incoming ttls sources
        (λ p h. false)
        (λ s b hs. one_post)
        0
        false
        (some (load (files (codes "ann:pw")) dirs).1)
        incoming
        healthy
        before in
    (r.status ≡ 401) × (w' ≡ before)
unfolding load has_suffix
guarded_script_needs_credentials_example =
    guarded_script_needs_credentials ttls sources (λ p h. false) (λ s b hs. one_post) 0 false
      (files (codes "ann:pw")) dirs (filed (some ann)) ann incoming healthy before refl refl
      (λ user password e.
        subst (λ c. check (λ p h. false) ann c.0 c.1 ≡ false) (some-injective _ _ e) wrong_password)

abbrev empty_scripts : Scripts
empty_scripts = record { store = empty_store; topic = []; loader = some new_loader }

abbrev upload : UploadRequest
upload = record { lua_code = codes "return 1"; version = []; script_config = none }

abbrev no_hash : Bytes → Bytes
no_hash code = []

upload_then_get_example :
    let s' =
      (handle_upload_script plain
        (λ c. true)
        no_hash
        (codes "wh")
        upload
        0
        replied
        replied
        empty_scripts).1 in
    let c = uploaded no_hash (codes "wh") upload 0 in
    (handle_get_script plain (codes "wh") 7 replied replied s' ≡ respond 200 (script_body c))
    × (load_opt s'.loader (codes "wh") ≡ some c)
unfolding handle_upload_script
upload_then_get_example =
    upload_then_get plain (λ c. true) no_hash plain-IsJson (codes "wh") upload 0 7 replied replied
      empty_scripts new_loader refl refl

abbrev held : Loader
held id = some (script_of (codes "return 1"))
