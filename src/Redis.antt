-- ===== src/Redis.antt =====
-- Redis as internal/hotstate/redis.go and internal/delivery/limiter.go use it: how a call may
-- end, expiry, maps from keys to values, and the sorted set.
-- A call ends in one of three ways: it replied, it failed and nothing was written, or it was
-- carried out and the reply was lost; a transaction that another client's write broke up is of the
-- second kind. Redis and all workers read one clock.
pub mod ZSet
use howk.Prelude.{ℕ, ◌+◌, Bool, true, false, Option, none, some, ltb, ◌==◌, if◌then◌else◌}
use howk.Prelude.Text.{Bytes, bytes_eq}

pub data Reply : Type 0 where
  replied lost late : Reply

-- What Redis holds after a write with this reply.
abbrev pub wrote {ℓ} : {A : Type ℓ} → Reply → A → A → A
wrote replied new old = new
wrote late new old = new
wrote lost new old = old

abbrev pub arrived : Reply → Bool
arrived replied = true
arrived lost = false
arrived late = false

-- The result of a call, which the caller sees only if the reply arrived.
abbrev pub reported {ℓ} : {A : Type ℓ} → Reply → A → Option A
reported replied a = some a
reported lost a = none
reported late a = none

-- A TTL of zero is none.
abbrev pub expiry : ℕ → ℕ → Option ℕ
expiry now ttl = if ttl == 0 then none else some (now + ttl)

abbrev pub is_live : ℕ → Option ℕ → Bool
is_live now none = true
is_live now (some t) = ltb now t

-- A value and the time at which Redis drops it; `none` is a key without expiry.
pub record Entry {ℓ} (V : Type ℓ) : Type ℓ where
  pub value : V
  pub expires : Option ℕ

abbrev pub Map {ℓ} : Type ℓ → Type ℓ
Map V = Bytes → Option V

abbrev pub empty_map {ℓ} : {V : Type ℓ} → Map V
empty_map k = none

abbrev pub put {ℓ} : {V : Type ℓ} → Map V → Bytes → V → Map V
put m k v j = if bytes_eq k j then some v else m j

abbrev pub drop_key {ℓ} : {V : Type ℓ} → Map V → Bytes → Map V
drop_key m k j = if bytes_eq k j then none else m j

-- The live value of an entry.
abbrev pub live {ℓ} : {V : Type ℓ} → ℕ → Option (Entry V) → Option V
live now none = none
live now (some e) = if is_live now e.expires then some e.value else none
