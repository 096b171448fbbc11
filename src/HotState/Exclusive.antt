-- ===== src/HotState/Exclusive.antt =====
-- internal/hotstate/redis.go: the lock that a pop gives to the references that it hands out.
use mathlib.Core.Option.{some-injective, none-ne-some}
use howk.Prelude.{
  ℕ, suc, ◌+◌, ◌≤◌, ◌<◌, ◌≡◌, ◌≢◌, refl, sym, ap, ◌∙◌, inl, inr, Bool, true, false, ◌||◌, List, [],
  ◌∷◌, Option, none, some, arith, All, Bool-cases,
}
use howk.Prelude.Int.{ℤ}
use howk.Prelude.Text.{Bytes, bytes_eq}
use howk.Redis.{Reply, replied, lost, late, wrote}
use howk.Redis.ZSet.{
  ZSet, zadd, zrem, zscore, zscore-zadd, zscore-zrem, IsZSet, zadd-IsZSet, zrem-IsZSet, up_to, has,
  has-up_to, has-take, is_due,
}
use howk.HotState.{
  Store, TtlConfig, unix, lock_all, pop_and_lock_retries, schedule_retry, ack_retry, reference,
}
use howk.HotState.Queue.{popped, zscore-lock_all, lock_all-IsZSet}

-- What the services do to the queue.
pub data QueueOp : Type 0 where
  pops : ℕ → ℕ → ℕ → Reply → QueueOp
  schedules : TtlConfig → Bytes → ℤ → ℕ → Bytes → ℕ → Reply → QueueOp
  acks : Bytes → ℕ → Reply → QueueOp

abbrev pub queue_step : QueueOp → Store → Store
queue_step (pops limit lock now r) s = (pop_and_lock_retries limit lock now r s).1
queue_step (schedules c id attempt at reason now r) s =
    (schedule_retry c id attempt at reason now r s).1
queue_step (acks ref now r) s = (ack_retry ref now r s).1

-- Whether some pop among these operations hands out the reference.
abbrev pub hands_out : Bytes → List QueueOp → Store → Bool
hands_out k [] s = false
hands_out k (pops limit lock now r ∷ ops) s =
    has k (popped limit now s) || hands_out k ops (queue_step (pops limit lock now r) s)
hands_out k (schedules c id attempt at reason now r ∷ ops) s =
    hands_out k ops (queue_step (schedules c id attempt at reason now r) s)
hands_out k (acks ref now r ∷ ops) s = hands_out k ops (queue_step (acks ref now r) s)

-- A pop before the lock ends, or anything but scheduling the reference anew.
abbrev pub IsWithin : Bytes → ℕ → QueueOp → Type 0
IsWithin k t (pops limit lock now r) = unix now < t
IsWithin k t (schedules c id attempt at reason now r) = bytes_eq (reference id attempt) k ≡ false
IsWithin k t (acks ref now r) = Unit {0}

-- The reference has the score at which its lock ends, or has been acknowledged.
record IsLocked (k : Bytes) (t : ℕ) (z : ZSet) : Type 0 where
  set : IsZSet z
  at : (x : ℕ) → zscore k z ≡ some x → x ≡ t

pop_and_lock-IsLocked :
    (k : Bytes) (t limit lock now : ℕ) (r : Reply) (s : Store)
    → IsZSet s.retries
    → (has k (popped limit now s) ≡ true → (unix (now + lock) ≡ t) × (r ≢ lost))
    → (has k (popped limit now s) ≡ false → IsLocked k t s.retries)
    → IsLocked k t (pop_and_lock_retries limit lock now r s).1.retries
unfolding pop_and_lock_retries
pop_and_lock-IsLocked k t limit lock now r s z e h =
    elim (Bool-cases (has k (popped limit now s))) [
      | inl y ↦ own r (e y).0 (e y).1 y
      | inr y ↦ other r y
    ]
  where
    after : ZSet
    after = lock_all (unix (now + lock)) (popped limit now s) s.retries

    set : IsZSet after
    set = lock_all-IsZSet (unix (now + lock)) (popped limit now s) s.retries z

    moved : unix (now + lock) ≡ t → has k (popped limit now s) ≡ true → IsLocked k t after
    moved f y = record {
      set = set;
      at = λ x g. some-injective _ _ (
          sym g
          ∙ zscore-lock_all k (unix (now + lock)) (popped limit now s) s.retries
          ∙ rw y (ap some f));
    }

    own :
        (q : Reply)
        → unix (now + lock) ≡ t
        → q ≢ lost
        → has k (popped limit now s) ≡ true
        → IsLocked k t (wrote q after s.retries)
    own replied f m y = moved f y
    own late f m y = moved f y
    own lost f m y = absurd (m refl)

    still : has k (popped limit now s) ≡ false → IsLocked k t after
    still y = record {
      set = set;
      at = λ x g. (h y).at x (
          sym (zscore-lock_all k (unix (now + lock)) (popped limit now s) s.retries ∙ rw y refl)
          ∙ g);
    }

    other :
        (q : Reply) → has k (popped limit now s) ≡ false → IsLocked k t (wrote q after s.retries)
    other replied y = still y
    other late y = still y
    other lost y = h y

-- What is locked is not due, so it is not popped.
IsLocked-popped :
    (k : Bytes) (t limit now : ℕ) (s : Store)
    → IsLocked k t s.retries
    → unix now < t
    → has k (popped limit now s) ≡ false
IsLocked-popped k t limit now s h l = elim (Bool-cases (has k (popped limit now s))) [
  | inl y ↦ absurd (
      due (zscore k s.retries) refl (
        sym (has-up_to (unix now) k s.retries h.set)
        ∙ has-take k limit (up_to (unix now) s.retries) y))
  | inr y ↦ y
]
  where
    due : (o : Option ℕ) → zscore k s.retries ≡ o → is_due (unix now) o ≡ true → ⊥
    due none e d = ground arith
    due (some x) e d = ground (arith, h.at x e)

step-IsLocked :
    (k : Bytes) (t : ℕ) (op : QueueOp) (s : Store)
    → IsWithin k t op
    → IsLocked k t s.retries
    → IsLocked k t (queue_step op s).retries
unfolding schedule_retry ack_retry
step-IsLocked k t (pops limit lock now r) s l h =
    let free = IsLocked-popped k t limit now s h l in
    pop_and_lock-IsLocked k t limit lock now r s h.set (λ y. absurd (ground arith)) (λ y. h)
step-IsLocked k t (schedules c id attempt at reason now r) s l h = go r
  where
    new : IsLocked k t (zadd (reference id attempt) (unix at) s.retries)
    new = record {
      set = zadd-IsZSet (reference id attempt) (unix at) s.retries h.set;
      at = λ x g.
          h.at x (sym (zscore-zadd k (reference id attempt) (unix at) s.retries ∙ rw l refl) ∙ g);
    }

    go : (q : Reply) → IsLocked k t (schedule_retry c id attempt at reason now q s).1.retries
    go replied = new
    go late = new
    go lost = h
step-IsLocked k t (acks ref now r) s l h = go r
  where
    new : IsLocked k t (zrem ref s.retries)
    new = record {
      set = zrem-IsZSet ref s.retries h.set;
      at = λ x g. elim (Bool-cases (bytes_eq ref k)) [
        | inl y ↦ absurd (none-ne-some _ (sym (zscore-zrem k ref s.retries ∙ rw y refl) ∙ g))
        | inr y ↦ h.at x (sym (zscore-zrem k ref s.retries ∙ rw y refl) ∙ g)
      ];
    }

    go : (q : Reply) → IsLocked k t (ack_retry ref now q s).1.retries
    go replied = new
    go late = new
    go lost = h

IsLocked-hands_out :
    (k : Bytes) (t : ℕ) (ops : List QueueOp) (s : Store)
    → All (IsWithin k t) ops
    → IsLocked k t s.retries
    → hands_out k ops s ≡ false
IsLocked-hands_out k t [] s l h = refl
IsLocked-hands_out k t (pops limit lock now r ∷ ops) s l h =
    let op : QueueOp = pops limit lock now r in
    rw (IsLocked-popped k t limit now s h l.0)
      (IsLocked-hands_out k t ops (queue_step op s) l.1 (step-IsLocked k t op s l.0 h))
IsLocked-hands_out k t (schedules c id attempt at reason now r ∷ ops) s l h =
    let op : QueueOp = schedules c id attempt at reason now r in
    IsLocked-hands_out k t ops (queue_step op s) l.1 (step-IsLocked k t op s l.0 h)
IsLocked-hands_out k t (acks ref now r ∷ ops) s l h =
    let op : QueueOp = acks ref now r in
    IsLocked-hands_out k t ops (queue_step op s) l.1 (step-IsLocked k t op s l.0 h)

-- A reference that one scheduler has popped, whether or not the scheduler got its reply, is handed
-- out by no other pop until its lock ends, however many schedulers pop in between, and whatever is
-- scheduled and acknowledged, as long as the reference itself is not scheduled anew.
pub pop_exclusive :
    (limit lock now : ℕ) (r : Reply) (s : Store) (k : Bytes) (ops : List QueueOp)
    → IsZSet s.retries
    → r ≢ lost
    → has k (popped limit now s) ≡ true
    → All (IsWithin k (unix (now + lock))) ops
    → hands_out k ops (pop_and_lock_retries limit lock now r s).1 ≡ false
pop_exclusive limit lock now r s k ops z n p l = IsLocked-hands_out k (unix (now + lock)) ops _ l (
    pop_and_lock-IsLocked k (unix (now + lock)) limit lock now r s z (λ y. (refl, n))
      (λ y. absurd (ground arith)))

-- Anything but scheduling the reference.
abbrev pub IsElsewhere : Bytes → QueueOp → Type 0
IsElsewhere k (pops limit lock now r) = Unit {0}
IsElsewhere k (schedules c id attempt at reason now r) = bytes_eq (reference id attempt) k ≡ false
IsElsewhere k (acks ref now r) = Unit {0}

-- A time that no pop comes to.
abbrev horizon : List QueueOp → ℕ
horizon [] = 0
horizon (pops limit lock now r ∷ ops) = suc (unix now) + horizon ops
horizon (schedules c id attempt at reason now r ∷ ops) = horizon ops
horizon (acks ref now r ∷ ops) = horizon ops

IsWithin-horizon :
    (k : Bytes) (t : ℕ) (ops : List QueueOp)
    → horizon ops ≤ t
    → All (IsElsewhere k) ops
    → All (IsWithin k t) ops
IsWithin-horizon k t [] h e = tt
IsWithin-horizon k t (pops limit lock now r ∷ ops) h e =
    (omega arith, IsWithin-horizon k t ops (omega arith) e.1)
IsWithin-horizon k t (schedules c id attempt at reason now r ∷ ops) h e =
    (e.0, IsWithin-horizon k t ops h e.1)
IsWithin-horizon k t (acks ref now r ∷ ops) h e = (tt, IsWithin-horizon k t ops h e.1)

-- A reference that is not in the queue is handed out by no pop until it is scheduled.
pub hands_out-absent :
    (k : Bytes) (ops : List QueueOp) (s : Store)
    → IsZSet s.retries
    → zscore k s.retries ≡ none
    → All (IsElsewhere k) ops
    → hands_out k ops s ≡ false
hands_out-absent k ops s z n e =
    IsLocked-hands_out k (horizon ops) ops s (IsWithin-horizon k (horizon ops) ops (omega arith) e)
      (record { set = z; at = λ x g. absurd (none-ne-some _ (sym n ∙ g)) })
