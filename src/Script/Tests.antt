-- ===== src/Script/Tests.antt =====
-- internal/script: a topic with two versions of a script, and a JSON that only knows such scripts.
use howk.Prelude.{
  ℕ, ◌≡◌, refl, subst, Bool, true, false, ◌&&◌, List, [], ◌∷◌, Option, none, some, arith, ◌==◌,
  if◌then◌else◌,
}
use mathlib.Core.Option.{some-injective, none-ne-some}
use howk.Prelude.Text.{Bytes, codes, bytes_eq}
use howk.Redis.{replied}
use howk.Redis.ZSet.{bytes_eq_iff}
use howk.HotState.ScriptCache.{get_script, namespace_of, before_colon}
use howk.HotState.Tests.{empty_store}
use howk.Script.{
  Config, Codec, Message, Caches, new_loader, load, load_namespace, replay, message_of, tombstone,
}
use howk.Script.Replay.{
  IsValid, deletes, defines, IsJson, done, keep, supersede, forget, latest, compacted_replay,
  restart_keeps_deleted,
}
use howk.Script.Mirror.{parsed_reply, redis_agrees}

abbrev pub script_of : Bytes → Config
script_of code = record {
  config_id = codes "wh";
  lua_code = code;
  hash = [];
  version = [];
  script_config = none;
  created_at = 0;
  updated_at = 0;
}

abbrev is_plain : Config → Bool
is_plain c =
    bytes_eq c.config_id (codes "wh")
    && bytes_eq c.hash []
    && bytes_eq c.version []
    && elim c.script_config [ none ↦ true | some fs ↦ false ]
    && (c.created_at == 0)
    && (c.updated_at == 0)
    && elim c.lua_code [ [] ↦ false | x ∷ code ↦ true ]

-- The JSON of a script is its code.
abbrev pub plain : Codec
plain = record {
  marshal = λ c. if is_plain c then some c.lua_code else none;
  unmarshal = λ v. elim v [ [] ↦ none | x ∷ code ↦ some (script_of (x ∷ code)) ];
}

plain_writes : (c : Config) (v : Bytes) → plain.unmarshal v ≡ some c → plain.marshal c ≡ some v
plain_writes c [] e = absurd (none-ne-some c e)
plain_writes c (x ∷ code) e =
    subst (λ d. plain.marshal d ≡ some (x ∷ code)) (some-injective _ _ e) refl

pub plain-IsJson : IsJson plain
plain-IsJson = record {
  reads = λ c json e. ground (
    arith,
    bytes_eq_iff c.config_id (codes "wh"),
    bytes_eq_iff c.hash [],
    bytes_eq_iff c.version [],
  );
  writes = λ c v e. (v, plain_writes c v e);
}

abbrev version : Bytes → Message
version code = message_of (script_of code) code

abbrev old_then_new : List Message
old_then_new = version (codes "old") ∷ version (codes "new") ∷ []

version-IsValid : (x : ℕ) (code : Bytes) → IsValid plain (version (x ∷ code))
version-IsValid x code = defines (script_of (x ∷ code)) (λ e. cc) refl refl (λ e. cc) (λ e. cc)

abbrev at_start : Caches
at_start = record { loader = new_loader; store = empty_store }

compacted_replay_example :
    (replay plain 0 (λ i. replied) (λ i. 5) (version (codes "new") ∷ []) 0 at_start).loader
      (codes "wh")
    ≡ latest plain old_then_new (codes "wh")
compacted_replay_example =
    compacted_replay plain 0 (λ i. replied) (λ i. 5) old_then_new (version (codes "new") ∷ [])
      at_start (supersede refl (keep done)) (version-IsValid _ _, (version-IsValid _ _, tt)) refl
      (codes "wh")

abbrev loaded : Caches
loaded = record at_start { loader = λ id. some (script_of (codes "old")) }

restart_keeps_deleted_example :
    ((replay plain 0 (λ i. replied) (λ i. 5) [] 0 loaded).loader (codes "wh")
      ≡ some (script_of (codes "old")))
    × (latest plain (version (codes "old") ∷ tombstone (codes "wh") ∷ []) (codes "wh") ≡ none)
unfolding tombstone
restart_keeps_deleted_example =
    restart_keeps_deleted plain 0 (λ i. replied) (λ i. 5)
      (version (codes "old") ∷ tombstone (codes "wh") ∷ []) [] (tombstone (codes "wh")) loaded 0
      (supersede refl (forget refl refl done)) (version-IsValid _ _, (deletes refl, tt)) refl refl
      refl

-- The loader holds scripts that Redis does not, until the replay.
redis_agrees_example :
    let s' = replay plain 0 (λ i. replied) (λ i. 5) old_then_new 0 loaded in
    parsed_reply plain (get_script (codes "wh") 9 replied replied s'.store).0
    ≡ load s'.loader (codes "wh")
unfolding namespace_of before_colon
redis_agrees_example =
    redis_agrees plain plain-IsJson (λ i. 5) old_then_new
      (version-IsValid _ _, (version-IsValid _ _, tt)) loaded 9 (codes "wh") refl
      (λ ns e. absurd (none-ne-some _ e))

-- Redis holds the script of the namespace "wh".
abbrev scripts : Bytes → Option Config
scripts id = if bytes_eq (codes "wh") id then some (script_of (codes "new")) else none

-- The namespace's script is found.
loaded_by_namespace : load scripts (codes "wh:42") ≡ some (script_of (codes "new"))
unfolding load load_namespace namespace_of before_colon
loaded_by_namespace = refl
