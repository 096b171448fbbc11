-- ===== src/Kafka/Interleaved.antt =====
-- internal/broker/kafka.go: the commits of the workers of all keys of a partition.
use howk.Prelude.{
  ◌<◌, ◌≡◌, refl, Bool, true, false, List, [], ◌∷◌, ◌++◌, Option, none, some, arith, sym, subst,
  ◌∙◌, All, inl, inr, Bool-cases,
}
use howk.Prelude.Int.{ℤ, pos_part, max_int64, eq_ℤ, eq_ℤ_iff}
use howk.Prelude.Text.{Bytes}
use howk.Kafka.{process_message, session}
use howk.Kafka.Commits.{succeeded, commit_is_contiguous, IsInt64}
use howk.Kafka.Dispatch.{
  Message, Task, handling, handled, marked, receiving, sending, returned, panicked, Processor,
  channel_key, new_processor, take_message, find_channel, send_message, start_message, fail_message,
  succeed_message, after_mark, mark_message, commit_message, Step, takes, finds, sends, panics,
  gives_up, ends, cancels, closes, starts, fails, succeeds, completes, marks_offset, Reach, begun,
  later,
}
use howk.Kafka.PerKey.{unsent}
use howk.Kafka.Safe.{
  IsSmall, IsCovered, TaskOk, Safe, Safe-run, Safe-lane, Safe-return, All-append, task,
  Safe-finished, Safe-busy, process_message-SameWindow, receive-SameWindow,
}

module _ (initial : ℤ) (i : IsInt64 initial) where
  -- What `MarkCompleted` gives a worker to commit is covered.
  mark-IsCovered :
      (p : Processor) (o c : ℤ)
      → Safe initial p
      → pos_part o < max_int64
      → succeeded o p.returns ≡ true
      → (process_message p.tracker o true).0 ≡ some c
      → IsCovered initial p.returns c
  mark-IsCovered p o c h small good e x a b =
      let t =
        (commit_is_contiguous initial p.marks o true c x i (small, h.offsets)
          (sym (process_message-SameWindow _ _ o true h.window).0 ∙ e) a b).0 in
      elim (Bool-cases (eq_ℤ o x)) [
        | inl y ↦ subst (λ z. succeeded z p.returns ≡ true) ((eq_ℤ_iff o x).0 y) good
        | inr y ↦ h.true_marks x (ground arith)
      ]

  Safe-marked :
      (p : Processor) (o : ℤ)
      → Safe initial p
      → pos_part o < max_int64
      → succeeded o p.returns ≡ true
      → Safe initial
          (record p { tracker = (process_message p.tracker o true).1; marks = (o, true) ∷ p.marks })
  unfolding session
  Safe-marked p o h small good = record {
    held = h.held;
    lanes = h.lanes;
    window = (process_message-SameWindow p.tracker (session initial p.marks) o true h.window).1;
    offsets = (small, h.offsets);
    true_marks = λ x e. elim (Bool-cases (eq_ℤ o x)) [
      | inl y ↦ subst (λ z. succeeded z p.returns ≡ true) ((eq_ℤ_iff o x).0 y) good
      | inr y ↦ h.true_marks x (ground arith)
    ];
    covered = h.covered;
  }

  Safe-after_mark :
      (p : Processor) (g : Bool) (j : Bytes) (m : Message) (before after : List Task) (o : Option ℤ)
      → Safe initial p
      → (p.lanes g j).busy ≡ before ++ record { message = m; phase = handled } ∷ after
      → ((c : ℤ) → o ≡ some c → IsCovered initial p.returns c)
      → Safe initial (after_mark g j m before after o p)
  Safe-after_mark p g j m before after none h e c = Safe-finished p h g j m before after handled e
  Safe-after_mark p g j m before after (some x) h e c =
      Safe-busy p h g j m before after handled e (marked x) (c x refl)

  Safe-start :
      (p : Processor) (g : Bool) (j : Bytes) (m : Message) (rest : List Message)
      → Safe initial p
      → (p.lanes g j).queue ≡ m ∷ rest
      → Safe initial (start_message g j m rest p)
  unfolding start_message
  Safe-start p g j m rest h e =
      let q : All IsSmall (m ∷ rest) = subst (All IsSmall) e (h.lanes g j).0 in
      Safe-lane p g j _ h
        (q.1, All-append (TaskOk initial p.returns) _ _ (h.lanes g j).1 ((q.0, tt), tt))

  Safe-send :
      (p : Processor) (m : Message) (late : Bool)
      → Safe initial p
      → p.run ≡ sending m late
      → Safe initial (send_message m late p)
  unfolding send_message
  Safe-send p m late h r =
      let k = channel_key m.key in
      let small : All IsSmall (m ∷ []) = subst (λ x. All IsSmall (unsent x)) r h.held in
      let s = Safe-run p receiving p.cancelled p.closed h tt in
      let t =
        Safe-lane p late k (record (p.lanes late k) { queue = (p.lanes late k).queue ++ m ∷ [] }) h
          (All-append IsSmall _ _ (h.lanes late k).0 small, (h.lanes late k).1) in
      record {
        held = tt;
        lanes = t.lanes;
        window = h.window;
        offsets = h.offsets;
        true_marks = h.true_marks;
        covered = h.covered;
      }

  Safe-take :
      (p : Processor) (m : Message)
      → Safe initial p
      → pos_part m.offset < max_int64
      → Safe initial (take_message m p)
  unfolding take_message
  Safe-take p m h o = record {
    held = (o, tt);
    lanes = h.lanes;
    window = let (a, b) = receive-SameWindow p.tracker m.offset in (a ∙ h.window.0, b ∙ h.window.1);
    offsets = h.offsets;
    true_marks = h.true_marks;
    covered = h.covered;
  }

  Safe-commit :
      (p : Processor) (c : ℤ)
      → Safe initial p
      → IsCovered initial p.returns c
      → Safe initial (record p { commits = c ∷ p.commits })
  Safe-commit p c h k = record {
    held = h.held;
    lanes = h.lanes;
    window = h.window;
    offsets = h.offsets;
    true_marks = h.true_marks;
    covered = (k, h.covered);
  }

  Step-Safe : {n : ℤ} {p q : Processor} → Step n p q → Safe initial p → Safe initial q
  unfolding find_channel fail_message succeed_message mark_message commit_message
  Step-Safe {n} {p} (takes m r o) h = Safe-take p m h o
  Step-Safe {n} {p} (finds m r) h =
      Safe-run p (sending m p.closed) p.cancelled p.closed h
        (subst (λ x. All IsSmall (unsent x)) r h.held)
  Step-Safe {n} {p} (sends m late r c b) h = Safe-send p m late h r
  Step-Safe {n} {p} (panics m r c) h =
      Safe-run p (panicked m) p.cancelled p.closed h (subst (λ x. All IsSmall (unsent x)) r h.held)
  Step-Safe {n} {p} (gives_up m late r c) h =
      Safe-run p (returned (m ∷ [])) p.cancelled p.closed h
        (subst (λ x. All IsSmall (unsent x)) r h.held)
  Step-Safe {n} {p} (ends r) h = Safe-run p (returned []) true p.closed h tt
  Step-Safe {n} {p} cancels h = Safe-run p p.run true p.closed h h.held
  Step-Safe {n} {p} (closes c d) h = Safe-run p p.run p.cancelled true h h.held
  Step-Safe {n} {p} (starts g j m rest e f) h = Safe-start p g j m rest h e
  Step-Safe {n} {p} (fails g j m before after e) h =
      Safe-finished (record p { returns = (m.offset, false) ∷ p.returns })
        (Safe-return p m.offset false h) g j m before after handling e
  Step-Safe {n} {p} (succeeds g j m before after e) h =
      Safe-busy (record p { returns = (m.offset, true) ∷ p.returns })
        (Safe-return p m.offset true h) g j m before after handling e handled
        (ground (arith, eq_ℤ_iff m.offset m.offset))
  Step-Safe {n} {p} (completes g j m before after e) h =
      let ((small, good), _) = task p h g j m before after handled e in
      Safe-after_mark
        (record p {
          tracker = (process_message p.tracker m.offset true).1;
          marks = (m.offset, true) ∷ p.marks;
        })
        g j m before after (process_message p.tracker m.offset true).0
        (Safe-marked p m.offset h small good) e (λ c f. mark-IsCovered p m.offset c h small good f)
  Step-Safe {n} {p} (marks_offset g j m c before after e) h =
      let ((small, good), _) = task p h g j m before after (marked c) e in
      Safe-finished (record p { commits = c ∷ p.commits }) (Safe-commit p c h good) g j m before
        after (marked c) e

  Reach-Safe : {n : ℤ} {p : Processor} → Reach n initial p → Safe initial p
  unfolding new_processor session
  Reach-Safe begun = record {
    held = tt;
    lanes = λ g k. (tt, tt);
    window = (refl, refl);
    offsets = tt;
    true_marks = λ x e. absurd (ground arith);
    covered = tt;
  }
  Reach-Safe (later r a s) = Step-Safe s (Reach-Safe r)

-- However the goroutines of a partition interleave, before a cancellation and after it: whenever the
-- session has been told to commit up to an offset, handlers have succeeded at all offsets from the
-- session's first one up to there.
pub interleaved_commit :
    (n initial : ℤ) (p : Processor)
    → IsInt64 initial
    → Reach n initial p
    → All (IsCovered initial p.returns) p.commits
interleaved_commit n initial p i r = (Reach-Safe initial i r).covered
