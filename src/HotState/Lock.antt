-- ===== src/HotState/Lock.antt =====
-- internal/hotstate/redis.go: the lock of the reconciler among several instances. An instance
-- knows its lock by a value of its own.
use howk.Prelude.{
  ℕ, ◌+◌, ◌<◌, ◌≡◌, refl, Bool, false, List, [], ◌∷◌, none, some, arith, All, ◌||◌, if◌then◌else◌,
}
use howk.Prelude.Text.{Bytes, bytes_eq}
use howk.Redis.{Reply, wrote, arrived, live, expiry}
use howk.HotState.{Store, Op}

-- `SETNX` with the TTL; an error is a lock not taken.
unfoldable pub acquire_lock : Bytes → ℕ → ℕ → Reply → Op Bool
acquire_lock value ttl now r s = elim (live now s.reconciler_lock) [
  | some holder ↦ (false, s)
  | none ↦ (
    arrived r,
    record s {
      reconciler_lock =
          wrote r (some (record { value = value; expires = expiry now ttl })) s.reconciler_lock;
    },
  )
]

-- Whether the lock is held under this value.
unfoldable pub is_holder : Bytes → ℕ → Store → Bool
is_holder value now s = elim (live now s.reconciler_lock) [
  | none ↦ false
  | some holder ↦ bytes_eq holder value
]

-- One beat of `lockHeartbeat`.
unfoldable pub extend_lock : Bytes → ℕ → ℕ → Reply → Op (Unit {0})
unfolding is_holder
extend_lock value ttl now r s = (
  tt,
  if is_holder value now s
      then record s {
        reconciler_lock =
            wrote r (some (record { value = value; expires = some (now + ttl) })) s.reconciler_lock;
      }
      else s,
)

unfoldable pub unlock : Bytes → ℕ → Reply → Op (Unit {0})
unfolding is_holder
unlock value now r s = (
  tt,
  if is_holder value now s
      then record s { reconciler_lock = wrote r none s.reconciler_lock }
      else s,
)

pub data LockAct : Type 0 where
  acquires extends unlocks : LockAct

-- What an instance does with the lock, and when.
pub record LockEvent : Type 0 where
  pub value : Bytes
  pub ttl : ℕ
  pub now : ℕ
  pub reply : Reply
  pub act : LockAct

-- Whether the step took the lock.
unfoldable pub lock_step : LockEvent → LockAct → Op Bool
unfolding acquire_lock extend_lock unlock
lock_step e acquires s = acquire_lock e.value e.ttl e.now e.reply s
lock_step e extends s = (false, (extend_lock e.value e.ttl e.now e.reply s).1)
lock_step e unlocks s = (false, (unlock e.value e.now e.reply s).1)

-- Whether some step took it.
unfoldable pub lock_steps : List LockEvent → Op Bool
unfolding lock_step
lock_steps [] s = (false, s)
lock_steps (e ∷ es) s =
    let (a, s') = lock_step e e.act s in let (b, t) = lock_steps es s' in (a || b, t)

-- The lock is held under that value up to that time.
abbrev pub HeldUntil : Bytes → ℕ → Store → Type 0
HeldUntil value until s = s.reconciler_lock ≡ some (record { value = value; expires = some until })

lock_step-HeldUntil :
    (e : LockEvent) (a : LockAct) (v : Bytes) (until : ℕ) (s : Store)
    → HeldUntil v until s
    → bytes_eq v e.value ≡ false
    → e.now < until
    → ((lock_step e a s).0 ≡ false) × HeldUntil v until (lock_step e a s).1
unfolding lock_step acquire_lock extend_lock unlock is_holder
lock_step-HeldUntil e acquires v until s h n b = (ground arith, ground arith)
lock_step-HeldUntil e extends v until s h n b = (refl, ground arith)
lock_step-HeldUntil e unlocks v until s h n b = (refl, ground arith)

-- While one instance holds the lock, up to its TTL, nothing that other instances do takes the lock
-- or changes it, whether they try to take, extend or release it and however their calls end.
pub lock_is_exclusive :
    (es : List LockEvent) (v : Bytes) (until : ℕ) (s : Store)
    → HeldUntil v until s
    → All (λ e. bytes_eq v e.value ≡ false) es
    → All (λ e. e.now < until) es
    → ((lock_steps es s).0 ≡ false) × HeldUntil v until (lock_steps es s).1
unfolding lock_steps
lock_is_exclusive [] v until s h n b = (refl, h)
lock_is_exclusive (e ∷ es) v until s h n b =
    let (a, k) = lock_step-HeldUntil e e.act v until s h n.0 b.0 in
    let (f, t) = lock_is_exclusive es v until (lock_step e e.act s).1 k n.1 b.1 in
    (rw (a, f) refl, t)
