-- ===== src/Kv.antt =====
-- internal/script/modules/kv.go: the `kv` module of the Lua scripts, on the keys of Redis. No other key
-- of the program begins with "kv:". The time to live that a script asks for is below 292 years.
pub mod Namespaces
pub mod Tests
use howk.Prelude.{ℕ, ◌*◌, ◌≡◌, List, [], ◌∷◌, ◌++◌, Option, none, some}
use howk.Prelude.Int.{ℤ, pos_part}
use howk.Prelude.Text.{Bytes, codes}
use howk.Redis.{Reply, Entry, Map, wrote, reported, put, drop_key, live, expiry}
use howk.HotState.ScriptCache.{before_colon}

pub record KvModule : Type 0 where
  pub config_id : Bytes
  pub namespace : Bytes

-- What comes before the first colon, or all of it.
unfoldable pub extract_namespace : Bytes → Bytes
unfolding before_colon
extract_namespace id = elim (before_colon id) [ none ↦ id | some ns ↦ ns ]

unfoldable pub new_kv_module : Bytes → KvModule
unfolding extract_namespace
new_kv_module id = record { config_id = id; namespace = extract_namespace id }

unfoldable pub redis_key : KvModule → Bytes → Bytes
redis_key kv key = codes "kv:" ++ (kv.namespace ++ (b':' ∷ key))

abbrev pub Keys : Type 0
Keys = Map (Entry Bytes)

-- `none` is an error, and `some none` a key that is not there.
unfoldable pub kv_get : KvModule → Bytes → ℕ → Reply → Keys → Option (Option Bytes)
unfolding redis_key
kv_get kv key now r s = reported r (live now (s (redis_key kv key)))

-- What is written: with a time to live of whole seconds, or without one if it is not positive.
abbrev pub kv_entry : Bytes → ℤ → ℕ → Entry Bytes
kv_entry value ttl now = record { value = value; expires = expiry now (pos_part ttl * 1000000000) }

unfoldable pub kv_set : KvModule → Bytes → Bytes → ℤ → ℕ → Reply → Keys → Option (Unit {0}) × Keys
unfolding redis_key
kv_set kv key value ttl now r s =
    (reported r tt, wrote r (put s (redis_key kv key) (kv_entry value ttl now)) s)

unfoldable pub kv_del : KvModule → Bytes → Reply → Keys → Option (Unit {0}) × Keys
unfolding redis_key
kv_del kv key r s = (reported r tt, wrote r (drop_key s (redis_key kv key)) s)
