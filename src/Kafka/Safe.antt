-- ===== src/Kafka/Safe.antt =====
-- internal/broker/kafka.go: what the workers of a partition keep to, whatever order they work in.
use howk.Prelude.{◌<◌, ◌≡◌, refl, Bool, true, false, List, [], ◌∷◌, ◌++◌, arith, subst, All}
use howk.Prelude.Int.{ℤ, pos_part, max_int64, ◌≤ℤ◌, ◌<ℤ◌}
use howk.Prelude.Text.{Bytes}
use howk.Kafka.{OffsetTracker, receive, process_message, mark_completed, session}
use howk.Kafka.Commits.{succeeded, AreOffsets}
use howk.Kafka.Dispatch.{
  Message, Task, Phase, handling, handled, marked, Lane, Run, Processor, set_lane, set_busy,
  set_finished,
}
use howk.Kafka.Order.{at_lane}
use howk.Kafka.PerKey.{unsent}

-- No message has the largest `int64` as its offset.
abbrev pub IsSmall : Message → Type 0
IsSmall m = pos_part m.offset < max_int64

module _ {A : Type 0} (P : A → Type 0) where
  pub All-append : (xs ys : List A) → All P xs → All P ys → All P (xs ++ ys)
  All-append [] ys h k = k
  All-append (x ∷ xs) ys h k = (h.0, All-append xs ys h.1 k)

  All-split : (xs : List A) (m : A) (ys : List A) → All P (xs ++ m ∷ ys) → P m × All P (xs ++ ys)
  All-split [] m ys h = h
  All-split (x ∷ xs) m ys h = let (a, b) = All-split xs m ys h.1 in (a, (h.0, b))

  All-insert : (xs : List A) (m : A) (ys : List A) → P m → All P (xs ++ ys) → All P (xs ++ m ∷ ys)
  All-insert [] m ys a h = (a, h)
  All-insert (x ∷ xs) m ys a h = (h.0, All-insert xs m ys a h.1)

-- Handlers have succeeded at all offsets from the first one up to `c`.
abbrev pub IsCovered : ℤ → List (ℤ × Bool) → ℤ → Type 0
IsCovered initial returns c = (x : ℤ) → initial ≤ℤ x → x <ℤ c → succeeded x returns ≡ true

abbrev pub Reached : ℤ → List (ℤ × Bool) → ℤ → Phase → Type 0
Reached initial returns o handling = Unit {0}
Reached initial returns o handled = succeeded o returns ≡ true
Reached initial returns o (marked c) = IsCovered initial returns c

abbrev pub TaskOk : ℤ → List (ℤ × Bool) → Task → Type 0
TaskOk initial returns t = IsSmall t.message × Reached initial returns t.message.offset t.phase

abbrev pub LaneOk : ℤ → List (ℤ × Bool) → Lane → Type 0
LaneOk initial returns l = All IsSmall l.queue × All (TaskOk initial returns) l.busy

succeeded-later :
    (x o : ℤ) (good : Bool) (es : List (ℤ × Bool))
    → succeeded x es ≡ true
    → succeeded x ((o, good) ∷ es) ≡ true
succeeded-later x o good es h = ground arith

module _ (initial o : ℤ) (good : Bool) (es : List (ℤ × Bool)) where
  Reached-later :
      (x : ℤ) (ph : Phase) → Reached initial es x ph → Reached initial ((o, good) ∷ es) x ph
  Reached-later x handling h = h
  Reached-later x handled h = succeeded-later x o good es h
  Reached-later x (marked c) h = λ y a b. succeeded-later y o good es (h y a b)

  TasksOk-later :
      (ts : List Task) → All (TaskOk initial es) ts → All (TaskOk initial ((o, good) ∷ es)) ts
  TasksOk-later [] h = tt
  TasksOk-later (t ∷ ts) h =
      ((h.0.0, Reached-later t.message.offset t.phase h.0.1), TasksOk-later ts h.1)

  AreCovered-later :
      (cs : List ℤ) → All (IsCovered initial es) cs → All (IsCovered initial ((o, good) ∷ es)) cs
  AreCovered-later [] h = tt
  AreCovered-later (c ∷ cs) h =
      ((λ y a b. succeeded-later y o good es (h.0 y a b)), AreCovered-later cs h.1)

-- Trackers that only differ in the highest offset received.
abbrev pub SameWindow : OffsetTracker → OffsetTracker → Type 0
SameWindow a b = (a.completed ≡ b.completed) × (a.lowest_pending ≡ b.lowest_pending)

pub process_message-SameWindow :
    (a b : OffsetTracker) (o : ℤ) (good : Bool)
    → SameWindow a b
    → ((process_message a o good).0 ≡ (process_message b o good).0)
      × SameWindow (process_message a o good).1 (process_message b o good).1
unfolding process_message mark_completed
process_message-SameWindow a b o false h = (refl, h)
process_message-SameWindow a b o true h = rw (h.0, h.1) (refl, (refl, refl))

pub receive-SameWindow : (a : OffsetTracker) (o : ℤ) → SameWindow (receive a o) a
unfolding receive
receive-SameWindow a o = ground arith

pub record Safe (initial : ℤ) (p : Processor) : Type 0 where
  pub held : All IsSmall (unsent p.run)
  pub lanes : (g : Bool) (k : Bytes) → LaneOk initial p.returns (p.lanes g k)
  pub window : SameWindow p.tracker (session initial p.marks)
  pub offsets : AreOffsets p.marks
  pub true_marks : (x : ℤ) → succeeded x p.marks ≡ true → succeeded x p.returns ≡ true
  pub covered : All (IsCovered initial p.returns) p.commits

module _ {initial : ℤ} where
  pub Safe-run :
      (p : Processor) (r : Run) (c d : Bool)
      → Safe initial p
      → All IsSmall (unsent r)
      → Safe initial (record p { run = r; cancelled = c; closed = d })
  Safe-run p r c d h e = record {
    held = e;
    lanes = h.lanes;
    window = h.window;
    offsets = h.offsets;
    true_marks = h.true_marks;
    covered = h.covered;
  }

  -- A lane has changed.
  pub Safe-lane :
      (p : Processor) (g : Bool) (j : Bytes) (l : Lane)
      → Safe initial p
      → LaneOk initial p.returns l
      → Safe initial (record p { lanes = set_lane p.lanes g j l })
  Safe-lane p g j l h o = record {
    held = h.held;
    lanes = at_lane (λ i k. LaneOk initial p.returns) p.lanes g j l o (λ i k d. h.lanes i k);
    window = h.window;
    offsets = h.offsets;
    true_marks = h.true_marks;
    covered = h.covered;
  }

  -- A handler has returned.
  pub Safe-return :
      (p : Processor) (o : ℤ) (good : Bool)
      → Safe initial p
      → Safe initial (record p { returns = (o, good) ∷ p.returns })
  Safe-return p o good h = record {
    held = h.held;
    lanes = λ g k. (
      (h.lanes g k).0,
      TasksOk-later initial o good p.returns (p.lanes g k).busy (h.lanes g k).1,
    );
    window = h.window;
    offsets = h.offsets;
    true_marks = λ x e. succeeded-later x o good p.returns (h.true_marks x e);
    covered = AreCovered-later initial o good p.returns p.commits h.covered;
  }

  module _ (p : Processor) (h : Safe initial p) (g : Bool) (j : Bytes) (m : Message)
      (before after : List Task) (a : Phase)
      (e : (p.lanes g j).busy ≡ before ++ record { message = m; phase = a } ∷ after) where
    pub task :
        TaskOk initial p.returns (record { message = m; phase = a })
        × All (TaskOk initial p.returns) (before ++ after)
    task =
        All-split (TaskOk initial p.returns) before _ after
          (subst (All (TaskOk initial p.returns)) e (h.lanes g j).1)

    pub Safe-finished : Safe initial (set_finished g j m (before ++ after) p)
    Safe-finished = Safe-lane p g j _ h ((h.lanes g j).0, task.1)

    pub Safe-busy :
        (b : Phase)
        → Reached initial p.returns m.offset b
        → Safe initial (set_busy g j (before ++ record { message = m; phase = b } ∷ after) p)
    Safe-busy b r =
        Safe-lane p g j _ h (
          (h.lanes g j).0,
          All-insert (TaskOk initial p.returns) before _ after (task.0.0, r) task.1,
        )
