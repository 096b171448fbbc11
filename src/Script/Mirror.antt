-- ===== src/Script/Mirror.antt =====
-- internal/script/consumer.go and internal/hotstate/redis.go: the mirror of the scripts in Redis.
use howk.Prelude.{
  ℕ, suc, ◌≡◌, ◌≢◌, refl, inl, inr, Bool, true, false, Bool-cases, any, List, [], ◌∷◌, Option, none,
  some, arith, sym, subst, ◌∙◌, Option-cases, All,
}
use howk.Prelude.Text.{Bytes, bytes_eq}
use howk.Redis.{replied, live}
use howk.Redis.ZSet.{bytes_eq_iff}
use howk.HotState.{Store}
use howk.HotState.ScriptCache.{
  ScriptReply, found, not_found, redis_error, namespace_of, get_namespace_script, get_script,
  set_script, delete_script, before_colon,
}
use howk.Script.{
  Config, Codec, Loader, Message, Caches, load, load_namespace, handle_script, handle_message,
  replay, mirror,
}
use howk.Script.Replay.{IsValid, deletes, defines, IsJson, checked-valid}

abbrev pub parsed : Codec → Option Bytes → Option Config
parsed k none = none
parsed k (some json) = k.unmarshal json

-- Redis holds for this config ID, for good, the JSON of just the script that the loader holds.
abbrev pub MirrorsAt : Codec → Loader → Store → Bytes → Type 0
MirrorsAt k l s id =
    (now : ℕ)
    → (live now (s.scripts id) ≢ some [])
      × (parsed k (live now (s.scripts id)) ≡ l id)
      × (l id ≡ none → live now (s.scripts id) ≡ none)

abbrev pub Mirrors : Codec → Loader → Store → Type 0
Mirrors k l s = (id : Bytes) → MirrorsAt k l s id

-- Whether the log has a message for the config ID.
abbrev pub mentions : Bytes → List Message → Bool
mentions id log = any (λ m. bytes_eq m.key id) log

module _ (k : Codec) (json : IsJson k) (id : Bytes) where
  -- A message makes Redis agree on its config ID, and no other one changes.
  handle_message-MirrorsAt :
      (m : Message) (now : ℕ) (s : Caches)
      → IsValid k m
      → (bytes_eq m.key id ≡ false → MirrorsAt k s.loader s.store id)
      → let s' = (handle_message k 0 m now replied s).1 in MirrorsAt k s'.loader s'.store id
  unfolding handle_message handle_script delete_script mirror set_script
  handle_message-MirrorsAt m now s (deletes e) h at = elim (Bool-cases (bytes_eq m.key id)) [
    | inl y ↦ rw e (ground arith)
    | inr y ↦ rw e (ground (arith, h y at))
  ]
  handle_message-MirrorsAt m now s (defines c v u i n l) h at = go m.value refl
    where
      go :
          (v' : Bytes)
          → m.value ≡ v'
          → let s' = (handle_message k 0 m now replied s).1 in
            (live at (s'.store.scripts id) ≢ some [])
            × (parsed k (live at (s'.store.scripts id)) ≡ s'.loader id)
            × (s'.loader id ≡ none → live at (s'.store.scripts id) ≡ none)
      go [] e = absurd (v e)
      go (x ∷ v') e =
          let (text, w) = json.writes c m.value u in
          let (f, r) = json.reads c text w in
          rw
            (
              e,
              subst (λ y. k.unmarshal y ≡ some c) e u,
              checked-valid c (λ z. n (sym i ∙ z)) l,
              mirror,
              w,
            )
            (elim (Bool-cases (bytes_eq m.key id)) [
              | inl y ↦ ground (arith, f, r, i)
              | inr y ↦ ground (arith, h y at, f, r, i)
            ])

  replay-MirrorsAt :
      (clock : ℕ → ℕ) (log : List Message)
      → All (IsValid k) log
      → (n : ℕ) (s : Caches) → (mentions id log ≡ false → MirrorsAt k s.loader s.store id)
      → let s' = replay k 0 (λ i. replied) clock log n s in MirrorsAt k s'.loader s'.store id
  unfolding replay
  replay-MirrorsAt clock [] v n s h = h refl
  replay-MirrorsAt clock (m ∷ log) v n s h =
      replay-MirrorsAt clock log v.1 (suc n) _
        (λ e. handle_message-MirrorsAt m (clock n) s v.0 (λ d. h (ground arith)))

abbrev pub parsed_reply : Codec → ScriptReply → Option Config
parsed_reply k (found json) = k.unmarshal json
parsed_reply k not_found = none
parsed_reply k redis_error = none

before_colon-ne : (id : Bytes) → before_colon id ≢ some id
unfolding before_colon
before_colon-ne [] h = cc
before_colon-ne (c ∷ s) h = ground (arith, before_colon-ne s)

pub namespace-ne : (id ns : Bytes) → namespace_of id ≡ some ns → bytes_eq ns id ≡ false
unfolding namespace_of
namespace-ne id ns h = ground (arith, before_colon-ne id, bytes_eq_iff ns id)

-- Where Redis is a mirror, for a config ID and its namespace, both lookups agree on it.
get_script-MirrorsAt :
    (k : Codec) (l : Loader) (s : Store) (id : Bytes)
    → MirrorsAt k l s id
    → ((ns : Bytes) → namespace_of id ≡ some ns → MirrorsAt k l s ns)
    → (now : ℕ) → parsed_reply k (get_script id now replied replied s).0 ≡ load l id
unfolding get_script get_namespace_script load load_namespace
get_script-MirrorsAt k l s id h g now = elim (Option-cases (namespace_of id)) [
  | inl e ↦ ground (arith, h now)
  | inr (ns, e) ↦ ground (arith, namespace-ne id ns e, h now, g ns e now)
]

-- If every message of a log is valid, JSON reads back what it writes, the mirror never expires and
-- Redis answers, then after a replay, whatever the loader and Redis held before it, the lookup of a
-- config ID in Redis, with its fallback to the namespace, finds the script that the lookup in the
-- loader finds, as long as the log has a message for the config ID and, if it has a namespace, for
-- that.
pub redis_agrees :
    (k : Codec)
    → IsJson k
    → (clock : ℕ → ℕ) (log : List Message) → All (IsValid k) log
    → (s : Caches) (now : ℕ) (id : Bytes) → mentions id log ≡ true
    → ((ns : Bytes) → namespace_of id ≡ some ns → mentions ns log ≡ true)
    → let s' = replay k 0 (λ i. replied) clock log 0 s in
      parsed_reply k (get_script id now replied replied s'.store).0 ≡ load s'.loader id
redis_agrees k json clock log v s now id m n =
    get_script-MirrorsAt k _ _ id
      (replay-MirrorsAt k json id clock log v 0 s (λ e. absurd (ground arith)))
      (λ ns e. replay-MirrorsAt k json ns clock log v 0 s (λ f. absurd (ground (arith, n ns e))))
      now
