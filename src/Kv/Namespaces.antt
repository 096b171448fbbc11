-- ===== src/Kv/Namespaces.antt =====
-- internal/script/modules/kv.go: the keys of each namespace as a store of their own.
use mathlib.Core.Path.{fun_ext}
use mathlib.Core.Option.{some-injective, none-ne-some}
use howk.Prelude.{
  subst, ℕ, ◌≡◌, ◌≢◌, refl, sym, ap, ◌∙◌, true, false, ◌&&◌, List, [], ◌∷◌, ◌++◌, Option, none,
  some, arith, Option-cases, Bool-cases, inl, inr, if◌then◌else◌, ◌==◌,
}
use howk.Prelude.Int.{ℤ}
use howk.Prelude.Text.{Bytes, bytes_eq}
use howk.Redis.{Reply, replied, lost, late, reported, Entry, Map, wrote, put, drop_key, live}
use howk.HotState.ScriptCache.{before_colon}
use howk.Kv.{
  kv_get, KvModule, Keys, extract_namespace, new_kv_module, redis_key, kv_entry, kv_set, kv_del,
}

-- A write of a script.
pub data Write : Type 0 where
  sets : Bytes → Bytes → ℤ → ℕ → Reply → Write
  deletes : Bytes → Reply → Write

abbrev pub write : KvModule → Write → Keys → Keys
write kv (sets key value ttl now r) s = (kv_set kv key value ttl now r s).1
write kv (deletes key r) s = (kv_del kv key r s).1

abbrev pub writes : KvModule → List Write → Keys → Keys
writes kv [] s = s
writes kv (w ∷ ws) s = writes kv ws (write kv w s)

-- The same writes to a map that belongs to one namespace alone.
abbrev pub plain_write : Write → Map (Entry Bytes) → Map (Entry Bytes)
plain_write (sets key value ttl now r) m = wrote r (put m key (kv_entry value ttl now)) m
plain_write (deletes key r) m = wrote r (drop_key m key) m

abbrev pub plain_writes : List Write → Map (Entry Bytes) → Map (Entry Bytes)
plain_writes [] m = m
plain_writes (w ∷ ws) m = plain_writes ws (plain_write w m)

-- What a module finds under its keys.
abbrev pub view : KvModule → Keys → Map (Entry Bytes)
view kv s key = s (redis_key kv key)

-- The text has no colon.
abbrev HasNoColon : Bytes → Type 0
HasNoColon [] = Unit {0}
HasNoColon (c ∷ s) = (c ≢ b':') × HasNoColon s

before_colon-HasNoColon : (id ns : Bytes) → before_colon id ≡ some ns → HasNoColon ns
unfolding before_colon
before_colon-HasNoColon [] ns h = absurd (none-ne-some _ h)
before_colon-HasNoColon (c ∷ s) ns h = elim (Bool-cases (c == b':')) [
  | inl e ↦ subst HasNoColon (some-injective _ _ (rw (e, before_colon) at h)) tt
  | inr e ↦ elim (Option-cases (before_colon s)) [
    | inl f ↦ absurd (none-ne-some _ (rw (e, f, before_colon) at h))
    | inr (r, f) ↦
        subst HasNoColon (some-injective _ _ (rw (e, f, before_colon) at h))
          (ground arith, before_colon-HasNoColon s r f)
  ]
]

all-HasNoColon : (id : Bytes) → before_colon id ≡ none → HasNoColon id
unfolding before_colon
all-HasNoColon [] h = tt
all-HasNoColon (c ∷ s) h = elim (Bool-cases (c == b':')) [
  | inl e ↦ absurd (none-ne-some _ (sym (rw (e, before_colon) at h)))
  | inr e ↦ elim (Option-cases (before_colon s)) [
    | inl f ↦ (ground arith, all-HasNoColon s f)
    | inr (r, f) ↦ absurd (none-ne-some _ (sym (rw (e, f, before_colon) at h)))
  ]
]

extract_namespace-HasNoColon : (id : Bytes) → HasNoColon (extract_namespace id)
unfolding extract_namespace
extract_namespace-HasNoColon id = go (before_colon id) refl
  where
    go : (o : Option Bytes) → before_colon id ≡ o → HasNoColon (elim o [ none ↦ id | some ns ↦ ns ])
    go none e = all-HasNoColon id e
    go (some ns) e = before_colon-HasNoColon id ns e

-- A colon-free text before a colon is read back.
split-eq :
    (a b k j : Bytes)
    → HasNoColon a
    → HasNoColon b
    → bytes_eq (a ++ (b':' ∷ k)) (b ++ (b':' ∷ j)) ≡ bytes_eq a b && bytes_eq k j
split-eq [] [] k j p q = ground arith
split-eq [] (c ∷ b) k j p q = ground (arith, q.0)
split-eq (c ∷ a) [] k j p q = ground (arith, p.0)
split-eq (c ∷ a) (d ∷ b) k j p q = ground (arith, split-eq a b k j p.1 q.1)

redis_key-eq :
    (id other key k : Bytes)
    → bytes_eq (redis_key (new_kv_module id) key) (redis_key (new_kv_module other) k)
      ≡ bytes_eq (extract_namespace id) (extract_namespace other) && bytes_eq key k
unfolding redis_key new_kv_module
redis_key-eq id other key k =
    split-eq (extract_namespace id) (extract_namespace other) key k
      (extract_namespace-HasNoColon id) (extract_namespace-HasNoColon other)

-- A write in one's own namespace is the write to a plain map, and one in another changes nothing.
write-view :
    (id other : Bytes) (w : Write) (s : Keys) (k : Bytes)
    → view (new_kv_module other) (write (new_kv_module id) w s) k ≡ (
        if bytes_eq (extract_namespace id) (extract_namespace other)
        then plain_write w (view (new_kv_module other) s) k
        else view (new_kv_module other) s k)
unfolding kv_set kv_del
write-view id other (sets key value ttl now replied) s k =
    ground (arith, redis_key-eq id other key k)
write-view id other (sets key value ttl now lost) s k = ground arith
write-view id other (sets key value ttl now late) s k = ground (arith, redis_key-eq id other key k)
write-view id other (deletes key replied) s k = ground (arith, redis_key-eq id other key k)
write-view id other (deletes key lost) s k = ground arith
write-view id other (deletes key late) s k = ground (arith, redis_key-eq id other key k)

write-same :
    (id other : Bytes) (w : Write) (s : Keys)
    → bytes_eq (extract_namespace id) (extract_namespace other) ≡ true
    → view (new_kv_module other) (write (new_kv_module id) w s)
      ≡ plain_write w (view (new_kv_module other) s)
write-same id other w s e = fun_ext (λ k. rw (write-view id other w s k, e) refl)

writes-same :
    (id other : Bytes) (ws : List Write) (s : Keys)
    → bytes_eq (extract_namespace id) (extract_namespace other) ≡ true
    → view (new_kv_module other) (writes (new_kv_module id) ws s)
      ≡ plain_writes ws (view (new_kv_module other) s)
writes-same id other [] s e = refl
writes-same id other (w ∷ ws) s e =
    writes-same id other ws (write (new_kv_module id) w s) e
    ∙ ap (plain_writes ws) (write-same id other w s e)

writes-other :
    (id other : Bytes) (ws : List Write) (s : Keys) (k : Bytes)
    → bytes_eq (extract_namespace id) (extract_namespace other) ≡ false
    → view (new_kv_module other) (writes (new_kv_module id) ws s) k ≡ view (new_kv_module other) s k
writes-other id other [] s k e = refl
writes-other id other (w ∷ ws) s k e =
    writes-other id other ws (write (new_kv_module id) w s) k e
    ∙ rw (write-view id other w s k, e) refl

-- Whatever a script of one config ID writes, and however its calls end: a script of a config ID with
-- the same namespace reads what the same writes give on a map of that namespace alone, and a
-- script of any other namespace reads what it read before.
pub namespaces_are_apart :
    (id other : Bytes) (ws : List Write) (s : Keys) (key : Bytes) (now : ℕ) (r : Reply)
    → kv_get (new_kv_module other) key now r (writes (new_kv_module id) ws s)
      ≡ reported r (
          live now (
            if bytes_eq (extract_namespace id) (extract_namespace other)
            then plain_writes ws (view (new_kv_module other) s) key
            else view (new_kv_module other) s key))
unfolding kv_get
namespaces_are_apart id other ws s key now r =
    elim (Bool-cases (bytes_eq (extract_namespace id) (extract_namespace other))) [
      | inl e ↦ rw e (ap (λ m. reported r (live now (m key))) (writes-same id other ws s e))
      | inr e ↦ rw e (ap (λ v. reported r (live now v)) (writes-other id other ws s key e))
    ]
