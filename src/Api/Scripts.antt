-- ===== src/Api/Scripts.antt =====
-- internal/api/h_script.go: the handlers that deploy, show and delete the script of a config ID. The dry run
-- of a script is left out. `is_valid` is the syntax check of the Lua compiler, `hash` the SHA-256 of
-- internal/script/domain.go; `topic` is the scripts topic, newest message first.
use howk.Prelude.{
  ℕ, ◌≡◌, refl, Bool, true, false, List, ◌∷◌, Option, none, some, arith, if◌then◌else◌,
}
use howk.Prelude.Text.{Bytes, codes, bytes_eq_refl}
use howk.Redis.{Reply, replied, lost, late, wrote, arrived}
use howk.HotState.{Store}
use howk.HotState.ScriptCache.{
  ScriptReply, found, not_found, redis_error, get_script, set_script, delete_script, namespace_of,
}
use howk.Json.{Fields}
use howk.Script.{Config, Codec, Loader, Message, load, message_of, tombstone}
use howk.Script.Replay.{IsJson}
use howk.Api.{Response, respond, error_body, script_body, no_body, load_opt, set_opt}

pub record UploadRequest : Type 0 where
  pub lua_code : Bytes
  pub version : Bytes
  pub script_config : Option Fields

-- What the handlers work on.
pub record Scripts : Type 0 where
  pub store : Store
  pub topic : List Message
  pub loader : Option Loader

unfoldable pub uploaded : (Bytes → Bytes) → Bytes → UploadRequest → ℕ → Config
uploaded hash id req now = record {
  config_id = id;
  lua_code = req.lua_code;
  hash = hash req.lua_code;
  version = req.version;
  script_config = req.script_config;
  created_at = now;
  updated_at = now;
}

module _ (k : Codec) (is_valid : Bytes → Bool) (hash : Bytes → Bytes) where
  -- After the script has been published; Redis keeps it for good, and its error is only logged.
  unfoldable pub cache_script : Config → Bytes → ℕ → Reply → Scripts → Response × Scripts
  unfolding set_script
  cache_script c json now r s = (
    respond 200 (script_body c),
    record s {
      store = (set_script c.config_id json 0 now r s.store).1;
      loader = set_opt s.loader c;
    },
  )

  unfoldable pub publish_script :
      Config → Option Bytes → ℕ → Reply → Reply → Scripts → Response × Scripts
  unfolding cache_script
  publish_script c none now r₁ r₂ s = (respond 500 (error_body (codes "Failed to save script")), s)
  publish_script c (some json) now r₁ r₂ s =
      let s' = record s { topic = wrote r₁ (message_of c json ∷ s.topic) s.topic } in
      if arrived r₁
      then cache_script c json now r₂ s'
      else (respond 500 (error_body (codes "Failed to save script")), s')

  -- `handleUploadScript`: a publish, then a write to Redis.
  unfoldable pub handle_upload_script :
      Bytes → UploadRequest → ℕ → Reply → Reply → Scripts → Response × Scripts
  unfolding publish_script uploaded
  handle_upload_script id req now r₁ r₂ s =
      if is_valid req.lua_code
      then publish_script (uploaded hash id req now) (k.marshal (uploaded hash id req now)) now r₁
          r₂ s
      else (respond 400 (error_body (codes "Lua syntax error")), s)

-- What `handleGetScript` makes of the reply of Redis; after an error it asks the loader.
unfoldable pub show_script : Codec → Bytes → ScriptReply → Option Config → Response
show_script k id (found json) kept = elim (k.unmarshal json) [
  | some c ↦ respond 200 (script_body c)
  | none ↦ respond 500 (error_body (codes "Failed to retrieve script"))
]
show_script k id not_found (some c) = respond 200 (script_body c)
show_script k id not_found none = respond 404 (error_body (codes "Script not found"))
show_script k id redis_error (some c) = respond 200 (script_body c)
show_script k id redis_error none = respond 500 (error_body (codes "Failed to retrieve script"))

unfoldable pub handle_get_script : Codec → Bytes → ℕ → Reply → Reply → Scripts → Response
unfolding show_script
handle_get_script k id now r₁ r₂ s =
    show_script k id (get_script id now r₁ r₂ s.store).0 (load_opt s.loader id)

-- `handleDeleteScript`: a tombstone, then Redis; the loader keeps the script until the tombstone is
-- replayed.
unfoldable pub handle_delete_script : Bytes → ℕ → Reply → Reply → Scripts → Response × Scripts
unfolding tombstone
handle_delete_script id now r₁ r₂ s =
    let s' = record s { topic = wrote r₁ (tombstone id ∷ s.topic) s.topic } in
    if arrived r₁
    then (respond 204 no_body, record s' { store = (delete_script id now r₂ s.store).1 })
    else (respond 500 (error_body (codes "Failed to delete script")), s')

module _ (k : Codec) (is_valid : Bytes → Bool) (hash : Bytes → Bytes) where
  -- If JSON reads back what it writes: an upload that is answered with 200 while Redis answers is read
  -- back by the next request for the script, at any later time, and is the script that the
  -- server's loader finds for the config ID.
  pub upload_then_get :
      IsJson k
      → (id : Bytes) (req : UploadRequest) (now later : ℕ) (r₁ r : Reply) (s : Scripts) (l : Loader)
      → s.loader ≡ some l
      → (handle_upload_script k is_valid hash id req now r₁ replied s).0.status ≡ 200
      → let s' = (handle_upload_script k is_valid hash id req now r₁ replied s).1 in
        let c = uploaded hash id req now in
        (handle_get_script k id later replied r s' ≡ respond 200 (script_body c))
        × (load_opt s'.loader id ≡ some c)
  unfolding handle_upload_script
  upload_then_get json id req now later r₁ r s l e h =
      valid (is_valid req.lua_code) (k.marshal (uploaded hash id req now)) refl h
    where
      c : Config
      c = uploaded hash id req now

      Served : Response × Scripts → Type 0
      Served p =
          (handle_get_script k id later replied r p.1 ≡ respond 200 (script_body c))
          × (load_opt p.1.loader id ≡ some c)

      sent :
          (text : Bytes)
          → k.marshal c ≡ some text
          → (b : Reply)
          → (publish_script k is_valid hash c (some text) now b replied s).0.status ≡ 200
          → Served (publish_script k is_valid hash c (some text) now b replied s)
      sent text m replied h =
          unfold publish_script cache_script handle_get_script show_script set_script get_script
            uploaded load in
          rw (e, bytes_eq_refl id, (json.reads c text m).1) (refl, refl)
      sent text m lost h = unfold publish_script in absurd (omega arith)
      sent text m late h = unfold publish_script in absurd (omega arith)

      valid :
          (b : Bool) (o : Option Bytes)
          → k.marshal c ≡ o
          → (if b
              then publish_script k is_valid hash c o now r₁ replied s
              else (respond 400 (error_body (codes "Lua syntax error")), s)).0.status
            ≡ 200
          → Served (
              if b
              then publish_script k is_valid hash c o now r₁ replied s
              else (respond 400 (error_body (codes "Lua syntax error")), s))
      valid false o m h = absurd (omega arith)
      valid true none m h = unfold publish_script in absurd (omega arith)
      valid true (some text) m h = sent text m r₁ h

-- A deletion that is answered with 204 leaves the script to be shown, and to be found for new webhooks,
-- by the server that deleted it, if that server's loader held it and it has no namespace.
deleted_script_is_served :
    (k : Codec) (id : Bytes) (now later : ℕ) (r : Reply) (s : Scripts) (l : Loader) (c : Config)
    → s.loader ≡ some l
    → l id ≡ some c
    → namespace_of id ≡ none
    → let (response, s') = handle_delete_script id now replied replied s in
      (response.status ≡ 204)
      × (handle_get_script k id later replied r s' ≡ respond 200 (script_body c))
      × (load_opt s'.loader id ≡ some c)
unfolding handle_delete_script handle_get_script show_script delete_script get_script load
deleted_script_is_served k id now later r s l c e f n =
    rw (e, load, f, get_script, bytes_eq_refl id, n) (refl, refl, refl)
