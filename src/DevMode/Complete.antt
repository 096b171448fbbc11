-- ===== src/DevMode/Complete.antt =====
-- internal/devmode/broker.go: what a reader of the broker has read and will read.
use howk.Prelude.{
  ℕ, zero, suc, ◌+◌, ◌≤◌, ◌≡◌, sym, ap, ◌∙◌, inl, inr, List, [], ◌∷◌, ◌++◌, arith, All, lt→ltb,
  length, length-append, Bool-cases,
}
use mathlib.Core.List.{append_assoc, append-nil}
use howk.Script.{Message}
use howk.DevMode.{
  Reader, Topic, new_topic, channel_buffer, history_limit, offer, offer_all, publish, subscribe,
  replay, read_from, read_one, read_at, Event, publishes, subscribes, replays, closes, reads, step,
  run,
}

-- What a reader has skipped, read, and has still to read, is the history, in order. `left` events are
-- still to come.
pub record IsComplete (history : List Message) (left : ℕ) (r : Reader) : Type 0 where
  pub all : ((r.skipped ++ r.read) ++ r.snapshot) ++ r.channel ≡ history
  pub room : length r.channel + left ≤ channel_buffer

offer-IsComplete :
    (m : Message) (h : List Message) (left : ℕ) (r : Reader)
    → IsComplete h (suc left) r
    → IsComplete (h ++ m ∷ []) left (offer m r)
unfolding offer
offer-IsComplete m h left r k =
    rw (lt→ltb (length r.channel) channel_buffer (omega (arith, k.room))) (record {
      all =
          sym (append_assoc ((r.skipped ++ r.read) ++ r.snapshot) r.channel (m ∷ []))
          ∙ ap (λ xs. xs ++ m ∷ []) k.all;
      room = omega (arith, k.room, length-append r.channel (m ∷ []));
    })

offer_all-IsComplete :
    (m : Message) (h : List Message) (left : ℕ) (rs : List Reader)
    → All (IsComplete h (suc left)) rs
    → All (IsComplete (h ++ m ∷ []) left) (offer_all m rs)
offer_all-IsComplete m h left [] k = tt
offer_all-IsComplete m h left (r ∷ rs) k =
    (offer-IsComplete m h left r k.0, offer_all-IsComplete m h left rs k.1)

IsComplete-later :
    (h : List Message) (left : ℕ) (rs : List Reader)
    → All (IsComplete h (suc left)) rs
    → All (IsComplete h left) rs
IsComplete-later h left [] k = tt
IsComplete-later h left (r ∷ rs) k =
    (record { all = k.0.all; room = omega (arith, k.0.room) }, IsComplete-later h left rs k.1)

shift :
    (a b : List Message) (m : Message) (ms : List Message)
    → (a ++ (b ++ m ∷ [])) ++ ms ≡ (a ++ b) ++ m ∷ ms
shift a b m ms =
    ap (λ xs. xs ++ ms) (sym (append_assoc a b (m ∷ []))) ∙ append_assoc (a ++ b) (m ∷ []) ms

read_one-IsComplete :
    (h : List Message) (left : ℕ) (r : Reader)
    → IsComplete h left r
    → IsComplete h left (read_one r)
unfolding read_one
read_one-IsComplete h left r k = go r.snapshot r.channel k.all k.room
  where
    go :
        (s c : List Message)
        → ((r.skipped ++ r.read) ++ s) ++ c ≡ h
        → length c + left ≤ channel_buffer
        → IsComplete h left (read_from s c r)
    go (m ∷ ms) c a b = record {
      all = ap (λ xs. xs ++ c) (shift r.skipped r.read m ms) ∙ a;
      room = b;
    }
    go [] [] a b = record { all = a; room = b }
    go [] (m ∷ ms) a b = record {
      all =
          ap (λ xs. xs ++ ms) (append-nil _)
          ∙ shift r.skipped r.read m ms
          ∙ ap (λ xs. xs ++ m ∷ ms) (sym (append-nil _))
          ∙ a;
      room = omega arith;
    }

read_at-IsComplete :
    (n : ℕ) (h : List Message) (left : ℕ) (rs : List Reader)
    → All (IsComplete h left) rs
    → All (IsComplete h left) (read_at n rs)
unfolding read_at
read_at-IsComplete n h left [] k = tt
read_at-IsComplete zero h left (r ∷ rs) k = (read_one-IsComplete h left r k.0, k.1)
read_at-IsComplete (suc n) h left (r ∷ rs) k = (k.0, read_at-IsComplete n h left rs k.1)

-- All readers are complete and the history has room for the events to come.
abbrev pub AreComplete : ℕ → Topic → Type 0
AreComplete left t =
    All (IsComplete t.history left) t.readers × (length t.history + left ≤ history_limit)

step-AreComplete :
    (e : Event) (left : ℕ) (t : Topic)
    → suc left ≤ channel_buffer
    → AreComplete (suc left) t
    → AreComplete left (step e t)
unfolding step publish subscribe replay
step-AreComplete (publishes m) left t b (k, h) = elim (Bool-cases t.closed) [
  | inl e ↦ rw e (IsComplete-later t.history left t.readers k, omega arith)
  | inr e ↦
      rw (e, lt→ltb (length t.history) history_limit (omega arith))
        (
          offer_all-IsComplete m t.history left t.readers k,
          omega (arith, length-append t.history (m ∷ [])),
        )
]
step-AreComplete subscribes left t b (k, h) = (
  (
    record { all = append-nil _ ∙ append-nil _ ∙ append-nil _; room = omega arith },
    IsComplete-later t.history left t.readers k,
  ),
  omega arith,
)
step-AreComplete replays left t b (k, h) = elim (Bool-cases t.closed) [
  | inl e ↦ rw e (IsComplete-later t.history left t.readers k, omega arith)
  | inr e ↦ rw e (
    (
      record { all = append-nil t.history; room = omega arith },
      IsComplete-later t.history left t.readers k,
    ),
    omega arith,
  )
]
step-AreComplete closes left t b (k, h) = (IsComplete-later t.history left t.readers k, omega arith)
step-AreComplete (reads n) left t b (k, h) = (
  read_at-IsComplete n t.history left t.readers (IsComplete-later t.history left t.readers k),
  omega arith,
)

run-AreComplete :
    (es : List Event) (t : Topic)
    → length es ≤ channel_buffer
    → AreComplete (length es) t
    → AreComplete 0 (run es t)
unfolding run
run-AreComplete [] t b k = k
run-AreComplete (e ∷ es) t b k =
    run-AreComplete es (step e t) (omega arith) (step-AreComplete e (length es) t b k)

-- However publishers and readers interleave, as long as the topic has seen no more events than a
-- channel holds messages: each reader has read, or has still to read, in order and once each, all
-- messages of the topic, with those left out that a subscriber came too late for.
pub readers_miss_nothing :
    (es : List Event)
    → length es ≤ channel_buffer
    → let t = run es new_topic in All (IsComplete t.history 0) t.readers
readers_miss_nothing es h = (run-AreComplete es new_topic h (tt, omega arith)).0
