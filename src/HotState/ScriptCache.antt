-- ===== src/HotState/ScriptCache.antt =====
-- internal/hotstate/redis.go: `GetScript`, `SetScript` and `DeleteScript`, the mirror of the scripts.
use howk.Prelude.{ℕ, [], ◌∷◌, Option, none, some, ◌==◌, if◌then◌else◌}
use howk.Prelude.Text.{Bytes}
use howk.Redis.{Reply, wrote, arrived, reported, put, drop_key, live, expiry}
use howk.HotState.{Op}

-- A JSON text, `ErrScriptNotFound`, or another error.
pub data ScriptReply : Type 0 where
  found : Bytes → ScriptReply
  not_found : ScriptReply
  redis_error : ScriptReply

-- `s[:strings.Index(s, ":")]`, if there is a colon.
unfoldable pub before_colon : Bytes → Option Bytes
before_colon [] = none
before_colon (c ∷ s) =
    let rest = before_colon s in
    if c == b':' then some [] else elim rest [ none ↦ none | some r ↦ some (c ∷ r) ]

-- The namespace, if the first colon is not the first byte.
unfoldable pub namespace_of : Bytes → Option Bytes
unfolding before_colon
namespace_of id = elim (before_colon id) [
  | none ↦ none
  | some ns ↦ elim ns [ [] ↦ none | c ∷ r ↦ some (c ∷ r) ]
]

abbrev as_reply : Option Bytes → ScriptReply
as_reply none = not_found
as_reply (some json) = found json

-- The second call, for the namespace: whatever goes wrong there is `ErrScriptNotFound`.
unfoldable pub get_namespace_script : Option Bytes → ℕ → Reply → Op ScriptReply
get_namespace_script none now r s = (not_found, s)
get_namespace_script (some ns) now r s =
    (if arrived r then as_reply (live now (s.scripts ns)) else not_found, s)

unfoldable pub get_script : Bytes → ℕ → Reply → Reply → Op ScriptReply
unfolding get_namespace_script namespace_of
get_script id now r₁ r₂ s =
    if arrived r₁
    then elim (live now (s.scripts id)) [
      | some json ↦ (found json, s)
      | none ↦ get_namespace_script (namespace_of id) now r₂ s
    ]
    else (redis_error, s)

unfoldable pub set_script : Bytes → Bytes → ℕ → ℕ → Reply → Op (Option (Unit {0}))
set_script id json ttl now r s = (
  reported r tt,
  record s {
    scripts =
        wrote r (put s.scripts id (record { value = json; expires = expiry now ttl })) s.scripts;
  },
)

unfoldable pub delete_script : Bytes → ℕ → Reply → Op (Option (Unit {0}))
delete_script id now r s =
    (reported r tt, record s { scripts = wrote r (drop_key s.scripts id) s.scripts })
