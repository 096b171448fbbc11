-- ===== src/HotState/Queue.antt =====
-- internal/hotstate/redis.go: the queue of scheduled retries, with its visibility timeout.
use howk.Prelude.{
  ℕ, zero, suc, ◌+◌, ◌≤◌, ◌≡◌, refl, List, [], ◌∷◌, some, arith, leb, if◌then◌else◌, take, length,
  length-take,
}
use howk.Prelude.Int.{ℤ}
use howk.Prelude.Text.{Bytes, bytes_eq}
use howk.Redis.{replied}
use howk.Redis.ZSet.{
  ZSet, zadd, zscore, zscore-zadd, IsZSet, zadd-IsZSet, up_to, has, has-up_to, is_due,
}
use howk.HotState.{
  Store, TtlConfig, unix, lock_all, pop_and_lock_retries, schedule_retry, reference,
}

pub zscore-lock_all :
    (k : Bytes) (t : ℕ) (ms : List Bytes) (z : ZSet)
    → zscore k (lock_all t ms z) ≡ (if has k ms then some t else zscore k z)
unfolding lock_all
zscore-lock_all k t [] z = refl
zscore-lock_all k t (m ∷ ms) z =
    ground (arith, zscore-lock_all k t ms (zadd m t z), zscore-zadd k m t z)

pub lock_all-IsZSet : (t : ℕ) (ms : List Bytes) (z : ZSet) → IsZSet z → IsZSet (lock_all t ms z)
unfolding lock_all
lock_all-IsZSet t [] z h = h
lock_all-IsZSet t (m ∷ ms) z h = lock_all-IsZSet t ms (zadd m t z) (zadd-IsZSet m t z h)

-- What a pop hands out.
abbrev pub popped : ℕ → ℕ → Store → List Bytes
popped limit now s = take limit (up_to (unix now) s.retries)

-- A pop hands out at most the batch size, gives each reference that it hands out the score at
-- which its lock ends, and leaves every other reference as it was: none is lost, and none appears.
pop_keeps_references :
    (limit lock now : ℕ) (s : Store) (k : Bytes)
    → let (items, s') = pop_and_lock_retries limit lock now replied s in
      (items ≡ some (popped limit now s))
      × (length (popped limit now s) ≤ limit)
      × (zscore k s'.retries
          ≡ (if has k (popped limit now s) then some (unix (now + lock)) else zscore k s.retries))
unfolding pop_and_lock_retries
pop_keeps_references limit lock now s k = (
  refl,
  omega (arith, length-take limit (up_to (unix now) s.retries)),
  zscore-lock_all k (unix (now + lock)) (popped limit now s) s.retries,
)

has-take_all : (k : Bytes) (n : ℕ) (ms : List Bytes) → length ms ≤ n → has k (take n ms) ≡ has k ms
has-take_all k zero [] h = refl
has-take_all k zero (m ∷ ms) h = absurd (omega arith)
has-take_all k (suc n) [] h = refl
has-take_all k (suc n) (m ∷ ms) h = ground (arith, has-take_all k n ms)

-- If the batch has room, a pop hands out exactly the references whose time has come.
pub pop_complete :
    (limit now : ℕ) (s : Store) (k : Bytes)
    → IsZSet s.retries
    → length (up_to (unix now) s.retries) ≤ limit
    → has k (popped limit now s) ≡ is_due (unix now) (zscore k s.retries)
pop_complete limit now s k h l =
    rw (has-take_all k limit (up_to (unix now) s.retries) l) (has-up_to (unix now) k s.retries h)

-- A scheduled retry is handed out once its time has come and not before, and scheduling it moves
-- no other reference.
schedule_then_pop :
    (c : TtlConfig) (id : Bytes) (attempt : ℤ) (at : ℕ) (reason : Bytes) (limit now later : ℕ)
    (s : Store) (k : Bytes)
    → IsZSet s.retries
    → let s' = (schedule_retry c id attempt at reason now replied s).1 in
      length (up_to (unix later) s'.retries) ≤ limit
      → has k (popped limit later s') ≡ (
          if bytes_eq (reference id attempt) k
          then leb (unix at) (unix later)
          else is_due (unix later) (zscore k s.retries))
unfolding schedule_retry
schedule_then_pop c id attempt at reason limit now later s k h l =
    let s' = (schedule_retry c id attempt at reason now replied s).1 in
    let ref = reference id attempt in
    rw
      (
        pop_complete limit later s' k (zadd-IsZSet ref (unix at) s.retries h) l,
        zscore-zadd k ref (unix at) s.retries,
      )
      (ground arith)
