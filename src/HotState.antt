-- ===== src/HotState.antt =====
-- internal/hotstate/redis.go: what Redis holds of the webhooks, and the operations of
-- `RedisHotState` on it. Each operation takes the time and how its calls to Redis end, and gives
-- its result (`none` for an error) and the new store. The stored JSON and its compression are left
-- to encoding/json and zstd: a key holds the record itself. TTLs are whole seconds. The TTL
-- of in-flight counts, which only bounds what a crash leaves behind, is not modelled. `stats_ttl` is
-- that of the statistics, which `RedisHotState` holds itself.
pub mod Recovery
pub mod Lock
pub mod Queue
pub mod Exclusive
pub mod Status
pub mod ScriptCache
pub mod Stats
pub mod Counted
pub mod Tests
use howk.Prelude.{
  ℕ, zero, suc, ◌+◌, ◌-◌, ◌*◌, ◌/◌, ◌%◌, ◌^◌, Bool, true, false, not, List, [], ◌∷◌, ◌++◌, Option,
  none, some, ltb, leb, ◌==◌, if◌then◌else◌, take, length,
}
use howk.Prelude.Int.{ℤ}
use howk.Prelude.Text.{Bytes, codes, bytes_eq}
use howk.Prelude.Decimal.{itoa}
use howk.Domain.{Webhook, WebhookStatus, SystemEpoch}
use howk.Redis.{
  Reply, replied, lost, late, wrote, arrived, reported, Entry, Map, empty_map, put, drop_key, live,
  expiry, is_live,
}
use howk.Redis.ZSet.{ZSet, zadd, zrem, up_to}
use howk.Circuit.{Endpoint, CircuitConfig}

-- The fields `data` and `ts` of the hash of a status.
pub record StatusHash : Type 0 where
  pub status : WebhookStatus
  pub ts : ℕ

pub record RetryMeta : Type 0 where
  pub reason : Bytes
  pub scheduled_at : ℕ

pub record Store : Type 0 where
  pub statuses : Map (Entry StatusHash)
  pub retries : ZSet
  pub retry_data : Map (Entry Webhook)
  pub retry_meta : Map (Entry RetryMeta)
  pub processed : Map (Entry (Unit {0}))
  pub inflight : Map ℕ
  pub domain_inflight : Map ℕ
  pub endpoints : Bytes → Endpoint
  pub counters : Map (Entry ℕ)
  pub sketches : Map (Entry (List Bytes))
  pub scripts : Map (Entry Bytes)
  pub epoch : Option SystemEpoch
  pub canary : Bool
  pub reconciler_lock : Option (Entry Bytes)
  pub stats_ttl : ℕ

pub record TtlConfig : Type 0 where
  pub retry_data_ttl : ℕ
  pub status_ttl : ℕ
  pub idempotency_ttl : ℕ

-- `time.Unix`: whole seconds.
abbrev pub unix : ℕ → ℕ
unix ns = ns / 1000000000

-- "webhook_id:attempt".
unfoldable pub reference : Bytes → ℤ → Bytes
reference id attempt = id ++ b':' ∷ itoa attempt

abbrev pub Op : Type 0 → Type 0
Op A = Store → A × Store

-- `EXPIRE`, then `SET` if there was no such key; the data of an earlier attempt stays.
unfoldable pub ensure_retry_data : ℕ → Webhook → ℕ → Reply → Reply → Op (Option (Unit {0}))
ensure_retry_data ttl w now r₁ r₂ s = elim (live now (s.retry_data w.id)) [
  | some kept ↦ (
    reported r₁ tt,
    record s {
      retry_data =
          wrote r₁ (put s.retry_data w.id (record { value = kept; expires = some (now + ttl) }))
            s.retry_data;
    },
  )
  | none ↦
      if arrived r₁
      then (
        reported r₂ tt,
        record s {
          retry_data =
              wrote r₂ (put s.retry_data w.id (record { value = w; expires = expiry now ttl }))
                s.retry_data;
        },
      )
      else (none, s)
]

-- One pipeline: the metadata and the member of the sorted set.
unfoldable pub schedule_retry :
    TtlConfig → Bytes → ℤ → ℕ → Bytes → ℕ → Reply → Op (Option (Unit {0}))
unfolding reference
schedule_retry c id attempt scheduled_at reason now r s =
    let ref = reference id attempt in
    let meta : RetryMeta = record { reason = reason; scheduled_at = scheduled_at } in
    (
      reported r tt,
      wrote r
          (record s {
            retry_meta =
                put s.retry_meta ref
                  (record { value = meta; expires = expiry now c.retry_data_ttl });
            retries = zadd ref (unix scheduled_at) s.retries;
          })
          s,
    )

-- The loop of the Lua script: each item gets the new score.
unfoldable pub lock_all : ℕ → List Bytes → ZSet → ZSet
lock_all until [] z = z
lock_all until (m ∷ ms) z = lock_all until ms (zadd m until z)

unfoldable pub pop_and_lock_retries : ℕ → ℕ → ℕ → Reply → Op (Option (List Bytes))
unfolding lock_all
pop_and_lock_retries limit lock_duration now r s =
    let items = take limit (up_to (unix now) s.retries) in
    (
      reported r items,
      record s {
        retries = wrote r (lock_all (unix (now + lock_duration)) items s.retries) s.retries;
      },
    )

-- A missing key is an error too.
unfoldable pub get_retry_data : Bytes → ℕ → Reply → Op (Option Webhook)
get_retry_data id now r s = (if arrived r then live now (s.retry_data id) else none, s)

unfoldable pub ack_retry : Bytes → ℕ → Reply → Op (Option (Unit {0}))
ack_retry ref now r s = (
  reported r tt,
  wrote r (record s { retries = zrem ref s.retries; retry_meta = drop_key s.retry_meta ref }) s,
)

unfoldable pub delete_retry_data : Bytes → ℕ → Reply → Op (Option (Unit {0}))
delete_retry_data id now r s =
    (reported r tt, record s { retry_data = wrote r (drop_key s.retry_data id) s.retry_data })

-- `tonumber` of Lua: a double. Nanoseconds of the years 2006 to 2043 lie between 2^60 and 2^61,
-- where doubles are the multiples of 256, and the nearest is taken, of two the even one.
unfoldable pub lua_number : ℕ → ℕ
lua_number n =
    let q = n / 256 in
    let r = n % 256 in
    if ltb n (2 ^ 53)
    then n
    else if ltb r 128
    then q * 256
    else if ltb 128 r
    then (q + 1) * 256
    else if q % 2 == 0
    then q * 256
    else (q + 1) * 256

abbrev pub stored_ts : Option StatusHash → ℕ
stored_ts none = 0
stored_ts (some h) = h.ts

-- The Lua script of `SetStatus`: the write goes through only if its timestamp is later.
unfoldable pub set_if_later : TtlConfig → WebhookStatus → ℕ → Store → Store
unfolding lua_number
set_if_later c st now s =
    if ltb (stored_ts (live now (s.statuses st.webhook_id))) (lua_number st.updated_at_ns)
    then record s {
      statuses = put s.statuses st.webhook_id (record {
        value = record { status = st; ts = lua_number st.updated_at_ns };
        expires = some (now + c.status_ttl);
      });
    }
    else s

-- A status without a timestamp gets the time of the call.
unfoldable pub stamped : ℕ → WebhookStatus → WebhookStatus
stamped now st = if st.updated_at_ns == 0 then record st { updated_at_ns = now } else st

unfoldable pub set_status : TtlConfig → WebhookStatus → ℕ → Reply → Op (Option (Unit {0}))
unfolding set_if_later stamped
set_status c st now r s = (reported r tt, wrote r (set_if_later c (stamped now st) now s) s)

unfoldable pub get_status : Bytes → ℕ → Reply → Op (Option (Option WebhookStatus))
get_status id now r s =
    (reported r (elim (live now (s.statuses id)) [ none ↦ none | some h ↦ some h.status ]), s)

-- `SETNX`; the result tells whether this call set the key.
unfoldable pub check_and_set_processed : Bytes → ℤ → ℕ → ℕ → Reply → Op (Option Bool)
unfolding reference
check_and_set_processed id attempt ttl now r s =
    let key = reference id attempt in
    elim (live now (s.processed key)) [
      | some u ↦ (reported r false, s)
      | none ↦ (
        reported r true,
        record s {
          processed =
              wrote r (put s.processed key (record { value = tt; expires = expiry now ttl }))
                s.processed;
        },
      )
    ]

abbrev pub count_of : Option ℕ → ℕ
count_of none = 0
count_of (some n) = n

-- `INCR`, with the new count as its result.
abbrev pub incr_key : Map ℕ → Bytes → Map ℕ
incr_key m k = put m k (count_of (m k) + 1)

-- The Lua scripts that never go below zero.
abbrev pub decr_key : Map ℕ → Bytes → Map ℕ
decr_key m k = if ltb 0 (count_of (m k)) then put m k (count_of (m k) - 1) else m

unfoldable pub incr_inflight : Bytes → ℕ → Reply → Op (Option ℕ)
incr_inflight hash now r s = (
  reported r (count_of (s.inflight hash) + 1),
  record s { inflight = wrote r (incr_key s.inflight hash) s.inflight },
)

unfoldable pub decr_inflight : Bytes → ℕ → Reply → Op (Option (Unit {0}))
decr_inflight hash now r s =
    (reported r tt, record s { inflight = wrote r (decr_key s.inflight hash) s.inflight })

-- `IncrStats` with the one counter that its callers in the worker give.
unfoldable pub incr_stats : Bytes → ℕ → ℕ → Reply → Op (Option (Unit {0}))
incr_stats key delta now r s = (
  reported r tt,
  record s {
    counters =
        wrote r
          (put s.counters key (record {
            value = count_of (live now (s.counters key)) + delta;
            expires = some (now + s.stats_ttl);
          }))
          s.counters;
  },
)

abbrev pub values_of : Option (List Bytes) → List Bytes
values_of none = []
values_of (some vs) = vs

-- A sketch is the list of what was added to it.
unfoldable pub add_to_hll : Bytes → Bytes → ℕ → Reply → Op (Option (Unit {0}))
add_to_hll key v now r s = (
  reported r tt,
  record s {
    sketches =
        wrote r
          (put s.sketches key (record {
            value = v ∷ values_of (live now (s.sketches key));
            expires = some (now + s.stats_ttl);
          }))
          s.sketches;
  },
)
