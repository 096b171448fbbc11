-- ===== src/Script.antt =====
-- internal/script/domain.go, loader.go, publisher.go and consumer.go, and `EnsureScript` of engine.go: the
-- Lua scripts of the config IDs. The compacted topic is their source of truth; each process
-- replays it into its `Loader` and mirrors it in Redis. `Codec` is encoding/json on a `Config`.
-- The TTL of the mirror is not below zero, as `NewConsumer` sees to, and zero is no expiry.
pub mod Replay
pub mod Mirror
pub mod Ensure
pub mod Tests
use howk.Prelude.{ℕ, suc, Bool, true, false, List, [], ◌∷◌, Option, none, some, if◌then◌else◌}
use howk.Prelude.Text.{Bytes, codes, bytes_eq}
use howk.Redis.{Reply, arrived, Map, empty_map, put, drop_key}
use howk.HotState.{Store}
use howk.HotState.ScriptCache.{
  ScriptReply, found, not_found, redis_error, namespace_of, get_script, set_script, delete_script,
}
use howk.Json.{Fields}

pub record Config : Type 0 where
  pub config_id : Bytes
  pub lua_code : Bytes
  pub hash : Bytes
  pub version : Bytes
  pub script_config : Option Fields
  pub created_at : ℕ
  pub updated_at : ℕ

-- `none` is an error of either.
pub record Codec : Type 0 where
  pub marshal : Config → Option Bytes
  pub unmarshal : Bytes → Option Config

abbrev pub Loader : Type 0
Loader = Map Config

abbrev pub new_loader : Loader
new_loader = empty_map

-- The fallback of `GetScript`, for the namespace that `extractLoaderNamespace` gives.
unfoldable pub load_namespace : Loader → Bytes → Option Bytes → Option Config
load_namespace l id none = none
load_namespace l id (some ns) = if bytes_eq ns id then none else l ns

-- The script of the very config ID, else that of its namespace.
unfoldable pub load : Loader → Bytes → Option Config
unfolding load_namespace namespace_of
load l id = elim (l id) [ some c ↦ some c | none ↦ load_namespace l id (namespace_of id) ]

abbrev pub set_loaded : Loader → Config → Loader
set_loaded l c = put l c.config_id c

abbrev pub delete_loaded : Loader → Bytes → Loader
delete_loaded l id = drop_key l id

-- A message of the topic; an empty value is a tombstone.
pub record Message : Type 0 where
  pub key : Bytes
  pub value : Bytes
  pub headers : List (Bytes × Bytes)

abbrev pub message_of : Config → Bytes → Message
message_of c json = record {
  key = c.config_id;
  value = json;
  headers = (codes "script_hash", c.hash) ∷ (codes "version", c.version) ∷ [];
}

-- The message of `PublishScript`; a config that cannot be marshalled is an error.
unfoldable pub script_message : Codec → Config → Option Message
script_message k c = elim (k.marshal c) [ none ↦ none | some json ↦ some (message_of c json) ]

-- The message of `DeleteScript`.
unfoldable pub tombstone : Bytes → Message
tombstone id = record { key = id; value = []; headers = (codes "operation", codes "delete") ∷ [] }

-- What the consumer works on: its loader, and Redis.
pub record Caches : Type 0 where
  pub loader : Loader
  pub store : Store

abbrev is_empty : Bytes → Bool
is_empty [] = true
is_empty (c ∷ s) = false

-- The checks of `handleMessage` on a parsed script.
unfoldable pub checked : Option Config → Option Config
checked none = none
checked (some c) =
    if is_empty c.config_id then none else if is_empty c.lua_code then none else some c

-- The write-through to Redis, under the key of the message; its error is only logged.
unfoldable pub mirror : Codec → ℕ → Bytes → Config → ℕ → Reply → Store → Store
mirror k ttl key c now r s = elim (k.marshal c) [
  | none ↦ s
  | some json ↦ (set_script key json ttl now r s).1
]

-- `handleMessage` on the parsed script of a message that is no tombstone.
unfoldable pub handle_script :
    Codec → ℕ → Bytes → Option Config → ℕ → Reply → Caches → Bool × Caches
unfolding mirror
handle_script k ttl key none now r s = (false, s)
handle_script k ttl key (some c) now r s =
    (true, record { loader = set_loaded s.loader c; store = mirror k ttl key c now r s.store })

-- Whether `handleMessage` succeeds, and what it leaves; Redis is there.
unfoldable pub handle_message : Codec → ℕ → Message → ℕ → Reply → Caches → Bool × Caches
unfolding handle_script checked
handle_message k ttl m now r s =
    if is_empty m.value
    then (
      true,
      record {
        loader = delete_loaded s.loader m.key;
        store = (delete_script m.key now r s.store).1;
      },
    )
    else handle_script k ttl m.key (checked (k.unmarshal m.value)) now r s

-- `Replay` hands every message to `handleMessage` and skips those that fail. The messages of one
-- partition, oldest first; `reply` and `clock` answer the call for the message with that number.
unfoldable pub replay : Codec → ℕ → (ℕ → Reply) → (ℕ → ℕ) → List Message → ℕ → Caches → Caches
unfolding handle_message
replay k ttl reply clock [] n s = s
replay k ttl reply clock (m ∷ ms) n s =
    replay k ttl reply clock ms (suc n) (handle_message k ttl m (clock n) (reply n) s).1

-- `EnsureScript` on the reply of Redis.
unfoldable pub cache_reply : Codec → ScriptReply → Loader → Loader
cache_reply k (found json) l =
    if is_empty json then l else elim (k.unmarshal json) [ none ↦ l | some c ↦ set_loaded l c ]
cache_reply k not_found l = l
cache_reply k redis_error l = l

-- `EnsureScript`: a script that `GetScript` finds, be it the namespace's, ends it.
unfoldable pub ensure_script : Codec → Bytes → ℕ → Reply → Reply → Caches → Caches
unfolding load cache_reply
ensure_script k id now r₁ r₂ s = elim (load s.loader id) [
  | some c ↦ s
  | none ↦
      let (reply, store) = get_script id now r₁ r₂ s.store in
      record { loader = cache_reply k reply s.loader; store = store }
]
