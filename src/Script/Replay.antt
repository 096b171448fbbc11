-- ===== src/Script/Replay.antt =====
-- internal/script/consumer.go: what the loader holds after a replay of the topic, before and after
-- Kafka has compacted it.
use howk.Prelude.{
  ℕ, suc, ◌≡◌, ◌≢◌, refl, true, false, List, [], ◌∷◌, Option, none, some, arith, sym, ap, subst,
  ◌∙◌, if◌then◌else◌, All,
}
use mathlib.Core.Option.{some-injective, none-ne-some}
use howk.Prelude.Text.{Bytes, bytes_eq}
use howk.Redis.{Reply}
use howk.Redis.ZSet.{bytes_eq_iff}
use howk.Script.{
  Config, Codec, Message, Caches, new_loader, checked, handle_script, handle_message, replay,
  script_message, message_of, tombstone,
}

abbrev pub value_of : Codec → Message → Option Config
value_of k m = elim m.value [ [] ↦ none | c ∷ v ↦ k.unmarshal (c ∷ v) ]

-- A tombstone, or a script under its own config ID.
pub data IsValid (k : Codec) (m : Message) : Type 0 where
  deletes : m.value ≡ [] → IsValid k m
  defines :
      (c : Config)
      → m.value ≢ []
      → k.unmarshal m.value ≡ some c
      → c.config_id ≡ m.key
      → m.key ≢ []
      → c.lua_code ≢ []
      → IsValid k m

pub checked-valid : (c : Config) → c.config_id ≢ [] → c.lua_code ≢ [] → checked (some c) ≡ some c
unfolding checked
checked-valid c i l = go c.config_id c.lua_code i l
  where
    go :
        (a b : Bytes)
        → a ≢ []
        → b ≢ []
        → (if elim a [ [] ↦ true | x ∷ y ↦ false ]
            then none
            else if elim b [ [] ↦ true | x ∷ y ↦ false ]
            then none
            else some c)
          ≡ some c
    go [] b i l = absurd (i refl)
    go (x ∷ a) [] i l = absurd (l refl)
    go (x ∷ a) (y ∷ b) i l = refl

-- One message sets the entry of its key.
pub loader-handle_message :
    (k : Codec) (ttl : ℕ) (m : Message) (now : ℕ) (r : Reply) (s : Caches) (id : Bytes)
    → IsValid k m
    → (handle_message k ttl m now r s).1.loader id
      ≡ (if bytes_eq m.key id then value_of k m else s.loader id)
unfolding handle_message handle_script
loader-handle_message k ttl m now r s id (deletes e) = rw e refl
loader-handle_message k ttl m now r s id (defines c v u i n l) = go m.value refl
  where
    go :
        (v' : Bytes)
        → m.value ≡ v'
        → (handle_message k ttl m now r s).1.loader id
          ≡ (if bytes_eq m.key id then value_of k m else s.loader id)
    go [] e = absurd (v e)
    go (x ∷ v') e =
        rw (e, subst (λ y. k.unmarshal y ≡ some c) e u, checked-valid c (λ z. n (sym i ∙ z)) l, i)
          refl

-- The last message with the key, in a log with the oldest message first.
abbrev pub last_for : Bytes → List Message → Option Message
last_for id [] = none
last_for id (m ∷ ms) = elim (last_for id ms) [
  | some x ↦ some x
  | none ↦ if bytes_eq m.key id then some m else none
]

-- The script that a log defines for a config ID: what its last message says.
abbrev pub latest : Codec → List Message → Bytes → Option Config
latest k log id = elim (last_for id log) [ none ↦ none | some m ↦ value_of k m ]

-- What compaction may leave of a log, after the messages that it has kept before: it removes a
-- message that a later one with its key supersedes, and in time a tombstone with none left before.
pub data Compacts : List Message → List Message → List Message → Type 0 where
  done : {before : List Message} → Compacts before [] []
  keep :
      {before log left : List Message} {m : Message}
      → Compacts (m ∷ before) log left
      → Compacts before (m ∷ log) (m ∷ left)
  supersede :
      {before log left : List Message} {m next : Message}
      → last_for m.key log ≡ some next
      → Compacts before log left
      → Compacts before (m ∷ log) left
  forget :
      {before log left : List Message} {m : Message}
      → m.value ≡ []
      → last_for m.key before ≡ none
      → Compacts before log left
      → Compacts before (m ∷ log) left

module _ (k : Codec) (ttl : ℕ) (reply : ℕ → Reply) (clock : ℕ → ℕ) where
  replay-Compacts :
      {before log left : List Message}
      → Compacts before log left
      → All (IsValid k) log
      → (n : ℕ) (s : Caches) (id : Bytes) → (last_for id before ≡ none → s.loader id ≡ none)
      → (replay k ttl reply clock left n s).loader id
        ≡ elim (last_for id log) [ none ↦ s.loader id | some m ↦ value_of k m ]
  unfolding replay
  replay-Compacts done v n s id fresh = refl
  replay-Compacts {before} (keep {m} c) v n s id fresh = ground (
    arith,
    loader-handle_message k ttl m (clock n) (reply n) s id v.0,
    replay-Compacts c v.1 (suc n) (handle_message k ttl m (clock n) (reply n) s).1 id,
    bytes_eq_iff m.key id,
  )
  replay-Compacts (supersede {m} e c) v n s id fresh =
      ground (arith, e, replay-Compacts c v.1 n s id fresh, bytes_eq_iff m.key id)
  replay-Compacts (forget {m} e f c) v n s id fresh =
      ground (arith, e, f, replay-Compacts c v.1 n s id fresh, bytes_eq_iff m.key id)

  -- A replay of what compaction has left of a log of tombstones and scripts, each under its own
  -- config ID, into an empty loader gives each config ID the script of its last message in the
  -- whole log, and no script if that is a tombstone or there is none.
  pub compacted_replay :
      (log left : List Message) (s : Caches)
      → Compacts [] log left
      → All (IsValid k) log
      → s.loader ≡ new_loader
      → (id : Bytes) → (replay k ttl reply clock left 0 s).loader id ≡ latest k log id
  compacted_replay log left s c v e id = replay-Compacts c v 0 s id (λ _. ap (λ l. l id) e) ∙ rest
    where
      rest : elim (last_for id log) [ none ↦ s.loader id | some m ↦ value_of k m ] ≡ latest k log id
      rest = go (last_for id log)
        where
          go :
              (o : Option Message)
              → elim o [ none ↦ s.loader id | some m ↦ value_of k m ]
                ≡ elim o [ none ↦ none | some m ↦ value_of k m ]
          go none = ap (λ l. l id) e
          go (some m) = refl

  replay-last_for :
      (log : List Message)
      → All (IsValid k) log
      → (n : ℕ) (s : Caches) (id : Bytes)
      → (replay k ttl reply clock log n s).loader id
        ≡ elim (last_for id log) [ none ↦ s.loader id | some m ↦ value_of k m ]
  unfolding replay
  replay-last_for [] v n s id = refl
  replay-last_for (m ∷ log) v n s id = ground (
    arith,
    loader-handle_message k ttl m (clock n) (reply n) s id v.0,
    replay-last_for log v.1 (suc n) (handle_message k ttl m (clock n) (reply n) s).1 id,
    bytes_eq_iff m.key id,
  )

  Compacts-All :
      (P : Message → Type 0) {before log left : List Message}
      → Compacts before log left
      → All P log
      → All P left
  Compacts-All P done v = tt
  Compacts-All P (keep c) v = (v.0, Compacts-All P c v.1)
  Compacts-All P (supersede e c) v = Compacts-All P c v.1
  Compacts-All P (forget e f c) v = Compacts-All P c v.1

  -- If a log of valid messages ends, for some config ID, with a tombstone that compaction has
  -- removed, a replay that is started again into the loader that a process already has keeps the
  -- script that the loader holds for it, although the log defines none.
  pub restart_keeps_deleted :
      (log left : List Message) (m : Message) (s : Caches) (n : ℕ)
      → Compacts [] log left
      → All (IsValid k) log
      → last_for m.key log ≡ some m
      → m.value ≡ []
      → last_for m.key left ≡ none
      → ((replay k ttl reply clock left n s).loader m.key ≡ s.loader m.key)
        × (latest k log m.key ≡ none)
  restart_keeps_deleted log left m s n c v e d f =
      (ground (arith, replay-last_for left (Compacts-All _ c v) n s m.key), ground (arith, e, d))

-- What encoding/json promises of a `Config`: it reads what it writes, and writes what it has read.
pub record IsJson (k : Codec) : Type 0 where
  pub reads :
      (c : Config) (json : Bytes)
      → k.marshal c ≡ some json
      → (json ≢ []) × (k.unmarshal json ≡ some c)
  pub writes :
      (c : Config) (v : Bytes) → k.unmarshal v ≡ some c → (json : Bytes) × (k.marshal c ≡ some json)

-- What a publisher sends is valid, if JSON reads back what it writes.
pub script_message-IsValid :
    (k : Codec) (c : Config) (m : Message)
    → IsJson k
    → c.config_id ≢ []
    → c.lua_code ≢ []
    → script_message k c ≡ some m
    → IsValid k m
unfolding script_message
script_message-IsValid k c m law i l e = go (k.marshal c) refl e
  where
    go :
        (o : Option Bytes)
        → k.marshal c ≡ o
        → (elim o [ none ↦ none | some json ↦ some (message_of c json) ]) ≡ some m
        → IsValid k m
    go none p e = absurd (none-ne-some _ e)
    go (some json) p e =
        let (f, u) = law.reads c json p in
        subst (IsValid k) (some-injective _ _ e) (defines c f u refl i l)

pub tombstone-IsValid : (k : Codec) (id : Bytes) → IsValid k (tombstone id)
unfolding tombstone
tombstone-IsValid k id = deletes refl
