-- ===== src/Kafka/Order.antt =====
-- internal/broker/kafka.go: the order in which the messages of a key are handled.
use howk.Prelude.{
  suc, ◌+◌, ◌≤◌, ◌<◌, ◌≡◌, refl, inl, inr, Bool, true, false, Option, none, some, List, [], ◌∷◌,
  ◌++◌, if◌then◌else◌, length, Bool-cases, arith, sym, ap, subst, ◌∙◌, length-append,
}
use mathlib.Core.List.{append_assoc, append-nil}
use howk.Prelude.Int.{ℤ}
use howk.Prelude.Text.{Bytes, bytes_eq, bytes_eq→eq, bytes_eq_refl}
use howk.Kafka.{process_message}
use howk.Kafka.Dispatch.{
  Message, Task, Phase, handling, handled, marked, Lane, Processor, channel_key, workers,
  same_channel, set_lane, take_message, find_channel, sent_on, send_message, start_message,
  set_busy, set_finished, fail_message, succeed_message, after_mark, mark_message, commit_message,
  Step, takes, finds, sends, panics, gives_up, ends, cancels, closes, starts, fails, succeeds,
  completes, marks_offset,
}

-- The messages of a channel, in order.
abbrev pub of_channel : Bytes → List Message → List Message
of_channel k [] = []
of_channel k (m ∷ ms) =
    let rest = of_channel k ms in if bytes_eq (channel_key m.key) k then m ∷ rest else rest

of_channel-append :
    (k : Bytes) (ms : List Message) (m : Message)
    → of_channel k (ms ++ m ∷ [])
      ≡ of_channel k ms ++ (if bytes_eq (channel_key m.key) k then m ∷ [] else [])
of_channel-append k [] m = ground arith
of_channel-append k (x ∷ ms) m = ground (arith, of_channel-append k ms m)

abbrev pub messages : List Task → List Message
messages [] = []
messages (t ∷ ts) = t.message ∷ messages ts

messages-append : (xs ys : List Task) → messages (xs ++ ys) ≡ messages xs ++ messages ys
messages-append [] ys = refl
messages-append (x ∷ xs) ys = ap (λ ms. x.message ∷ ms) (messages-append xs ys)

-- What a lane says of the messages that were sent to its channel.
pub record InOrder (parallelism : ℤ) (sent : List Message) (l : Lane) : Type 0 where
  pub in_turn : l.started ++ l.queue ≡ sent
  pub few : length l.busy ≤ workers parallelism
  pub one_by_one : workers parallelism ≡ 1 → l.finished ++ messages l.busy ≡ l.started

same_channel→eq : (g h : Bool) (k j : Bytes) → same_channel g k h j ≡ true → (g ≡ h) × (k ≡ j)
same_channel→eq true true k j e = (refl, bytes_eq→eq k j e)
same_channel→eq false false k j e = (refl, bytes_eq→eq k j e)
same_channel→eq true false k j e = absurd (ground arith)
same_channel→eq false true k j e = absurd (ground arith)

pub at_lane :
    (P : Bool → Bytes → Lane → Type 0) (lanes : Bool → Bytes → Lane) (g : Bool) (j : Bytes)
    (l : Lane)
    → P g j l
    → ((h : Bool) (k : Bytes) → same_channel g j h k ≡ false → P h k (lanes h k))
    → (h : Bool) (k : Bytes) → P h k (set_lane lanes g j l h k)
at_lane P lanes g j l own others h k = elim (Bool-cases (same_channel g j h k)) [
  | inl e ↦
      let (a, b) = same_channel→eq g h j k e in
      rw e (subst (λ h'. P h' k l) a (subst (λ i. P g i l) b own))
  | inr e ↦ rw e (others h k e)
]

module _ {n : ℤ} {sent : List Message} (m : Message) (l : Lane) (h : InOrder n sent l) where
  InOrder-send : InOrder n (sent ++ m ∷ []) (record l { queue = l.queue ++ m ∷ [] })
  InOrder-send = record {
    in_turn = sym (append_assoc l.started l.queue (m ∷ [])) ∙ ap (λ xs. xs ++ m ∷ []) h.in_turn;
    few = h.few;
    one_by_one = h.one_by_one;
  }

  InOrder-start :
      (rest : List Message)
      → l.queue ≡ m ∷ rest
      → length l.busy < workers n
      → InOrder n sent (record l {
        queue = rest;
        busy = l.busy ++ record { message = m; phase = handling } ∷ [];
        started = l.started ++ m ∷ [];
      })
  InOrder-start rest e f = record {
    in_turn = append_assoc l.started (m ∷ []) rest ∙ rw (← e) h.in_turn;
    few = omega (arith, length-append l.busy (record { message = m; phase = handling } ∷ []));
    one_by_one = λ o.
        ap (λ xs. l.finished ++ xs) (messages-append l.busy _)
        ∙ sym (append_assoc l.finished (messages l.busy) (m ∷ []))
        ∙ ap (λ xs. xs ++ m ∷ []) (h.one_by_one o);
  }

  -- A worker goes on with the same message.
  InOrder-go_on :
      (before after : List Task) (a b : Phase)
      → l.busy ≡ before ++ record { message = m; phase = a } ∷ after
      → InOrder n sent (record l { busy = before ++ record { message = m; phase = b } ∷ after })
  InOrder-go_on before after a b e = record {
    in_turn = h.in_turn;
    few =
        let q : length l.busy ≡ length (before ++ record { message = m; phase = b } ∷ after) =
          rw e (
            omega (
              arith,
              length-append before (record { message = m; phase = a } ∷ after),
              length-append before (record { message = m; phase = b } ∷ after),
            )) in
        omega (arith, h.few);
    one_by_one = λ o.
        ap (λ xs. l.finished ++ xs)
          (messages-append before _ ∙ sym (messages-append before _) ∙ ap messages (sym e))
        ∙ h.one_by_one o;
  }

  InOrder-finish :
      (before after : List Task) (a : Phase)
      → l.busy ≡ before ++ record { message = m; phase = a } ∷ after
      → InOrder n sent (record l { busy = before ++ after; finished = l.finished ++ m ∷ [] })
  InOrder-finish before after a e = record {
    in_turn = h.in_turn;
    few = omega (arith, size, length-append before after, h.few);
    one_by_one = λ o. alone before after e (omega (arith, size, h.few)) ∙ h.one_by_one o;
  }
    where
      size : length l.busy ≡ suc (length before + length after)
      size = rw e (omega (arith, length-append before (record { message = m; phase = a } ∷ after)))

      alone :
          (before after : List Task)
          → l.busy ≡ before ++ record { message = m; phase = a } ∷ after
          → length before + length after ≤ 0
          → (l.finished ++ m ∷ []) ++ messages (before ++ after) ≡ l.finished ++ messages l.busy
      alone [] [] e z = rw e (append-nil _)
      alone [] (x ∷ after) e z = absurd (omega arith)
      alone (x ∷ before) after e z = absurd (omega arith)

-- Each channel is in order with what was sent on it.
abbrev pub Ordered : ℤ → (Bool → List Message) → (Bool → Bytes → Lane) → Type 0
Ordered n sent lanes = (h : Bool) (k : Bytes) → InOrder n (of_channel k (sent h)) (lanes h k)

Ordered-send :
    {n : ℤ} (m : Message) (late : Bool) (sent : Bool → List Message) (lanes : Bool → Bytes → Lane)
    → Ordered n sent lanes
    → let j = channel_key m.key in
      Ordered n
        (sent_on sent late m)
        (set_lane lanes late j (record (lanes late j) { queue = (lanes late j).queue ++ m ∷ [] }))
Ordered-send {n} m late sent lanes h =
    let j = channel_key m.key in
    at_lane (λ g k. InOrder n (of_channel k (sent_on sent late m g))) lanes late j _ (own late h)
      (λ g k e. other late g k e (h g k))
  where
    own :
        (late : Bool)
        → Ordered n sent lanes
        → let j = channel_key m.key in
          InOrder n
            (of_channel j (sent_on sent late m late))
            (record (lanes late j) { queue = (lanes late j).queue ++ m ∷ [] })
    own true h =
        let j = channel_key m.key in
        subst (λ s. InOrder n s (record (lanes true j) { queue = (lanes true j).queue ++ m ∷ [] }))
          (sym (of_channel-append j (sent true) m ∙ rw (bytes_eq_refl j) refl))
          (InOrder-send m (lanes true j) (h true j))
    own false h =
        let j = channel_key m.key in
        subst
          (λ s. InOrder n s (record (lanes false j) { queue = (lanes false j).queue ++ m ∷ [] }))
          (sym (of_channel-append j (sent false) m ∙ rw (bytes_eq_refl j) refl))
          (InOrder-send m (lanes false j) (h false j))

    keeps :
        (g : Bool) (k : Bytes)
        → bytes_eq (channel_key m.key) k ≡ false
        → InOrder n (of_channel k (sent g)) (lanes g k)
        → InOrder n (of_channel k (sent g ++ m ∷ [])) (lanes g k)
    keeps g k e =
        subst (λ s. InOrder n s (lanes g k))
          (sym (of_channel-append k (sent g) m ∙ rw e (append-nil _)))

    other :
        (late g : Bool) (k : Bytes)
        → same_channel late (channel_key m.key) g k ≡ false
        → InOrder n (of_channel k (sent g)) (lanes g k)
        → InOrder n (of_channel k (sent_on sent late m g)) (lanes g k)
    other true true k e i = keeps true k e i
    other false false k e i = keeps false k e i
    other true false k e i = i
    other false true k e i = i

module _ {n : ℤ} (p : Processor) (h : Ordered n p.sent p.lanes) (g : Bool) (j : Bytes) (m : Message)
    (before after : List Task) where
  Ordered-busy :
      (a b : Phase)
      → (p.lanes g j).busy ≡ before ++ record { message = m; phase = a } ∷ after
      → Ordered n p.sent
          (set_busy g j (before ++ record { message = m; phase = b } ∷ after) p).lanes
  Ordered-busy a b e =
      at_lane (λ i k. InOrder n (of_channel k (p.sent i))) p.lanes g j _
        (InOrder-go_on m (p.lanes g j) (h g j) before after a b e) (λ i k d. h i k)

  Ordered-finished :
      (a : Phase)
      → (p.lanes g j).busy ≡ before ++ record { message = m; phase = a } ∷ after
      → Ordered n p.sent (set_finished g j m (before ++ after) p).lanes
  Ordered-finished a e =
      at_lane (λ i k. InOrder n (of_channel k (p.sent i))) p.lanes g j _
        (InOrder-finish m (p.lanes g j) (h g j) before after a e) (λ i k d. h i k)

  Ordered-mark :
      (a : Phase) (o : Option ℤ)
      → (p.lanes g j).busy ≡ before ++ record { message = m; phase = a } ∷ after
      → Ordered n (after_mark g j m before after o p).sent (after_mark g j m before after o p).lanes
  Ordered-mark a none e = Ordered-finished a e
  Ordered-mark a (some c) e = Ordered-busy a (marked c) e

pub Step-Ordered :
    {n : ℤ} {p q : Processor} → Step n p q → Ordered n p.sent p.lanes → Ordered n q.sent q.lanes
unfolding take_message find_channel send_message start_message fail_message succeed_message
    mark_message commit_message
Step-Ordered (takes m r o) h = h
Step-Ordered (finds m r) h = h
Step-Ordered {n} {p} (sends m late r c b) h = Ordered-send m late p.sent p.lanes h
Step-Ordered (panics m r c) h = h
Step-Ordered (gives_up m late r c) h = h
Step-Ordered (ends r) h = h
Step-Ordered cancels h = h
Step-Ordered (closes c d) h = h
Step-Ordered {n} {p} (starts g j m rest e f) h =
    at_lane (λ i k. InOrder n (of_channel k (p.sent i))) p.lanes g j _
      (InOrder-start m (p.lanes g j) (h g j) rest e f) (λ i k d. h i k)
Step-Ordered {n} {p} (fails g j m before after e) h =
    Ordered-finished p h g j m before after handling e
Step-Ordered {n} {p} (succeeds g j m before after e) h =
    Ordered-busy p h g j m before after handling handled e
Step-Ordered {n} {p} (completes g j m before after e) h =
    Ordered-mark
      (record p {
        tracker = (process_message p.tracker m.offset true).1;
        marks = (m.offset, true) ∷ p.marks;
      })
      h g j m before after handled (process_message p.tracker m.offset true).0 e
Step-Ordered {n} {p} (marks_offset g j m c before after e) h =
    Ordered-finished p h g j m before after (marked c) e
