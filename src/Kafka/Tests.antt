-- ===== src/Kafka/Tests.antt =====
-- internal/broker/kafka.go: runs of the offset tracker on concrete sessions.
use howk.Prelude.{
  ◌≤◌, ◌<◌, ◌≡◌, refl, Bool, true, false, List, [], ◌∷◌, some, none, arith, inl, inr, All,
}
use howk.Prelude.Int.{ℤ, pos, negsuc, ◌≤ℤ◌, ◌<ℤ◌}
use howk.Prelude.Text.{codes}
use howk.Kafka.{process_message, session}
use howk.Kafka.Commits.{succeeded, commit_when_caught_up, negative_start_never_commits}
use howk.Kafka.Dispatch.{
  Message, Processor, Reach, begun, later, takes, finds, sends, cancels, closes, starts, succeeds,
  completes, marks_offset, take_message, find_channel, send_message, start_message, succeed_message,
  mark_message, commit_message, new_processor, workers, channel_key,
}
use howk.Kafka.Safe.{IsCovered}
use howk.Kafka.Interleaved.{interleaved_commit}

-- Offsets 12, 11 and 10 completed in that order: nothing beyond the start, then all three.
abbrev later_first : List (ℤ × Bool)
later_first = (pos 11, true) ∷ (pos 12, true) ∷ []

gap_holds_back :
    (process_message (session (pos 10) ((pos 12, true) ∷ [])) (pos 11) true).0 ≡ some (pos 10)
unfolding session process_message howk.Prelude.Int.incr howk.Prelude.Int.decr
gap_holds_back = refl

gap_filled : (process_message (session (pos 10) later_first) (pos 10) true).0 ≡ some (pos 13)
unfolding session process_message howk.Prelude.Int.incr
gap_filled = refl

-- Offset 12 was early, 10 is committed, and 11 closes the gap.
abbrev gap_at_11 : List (ℤ × Bool)
gap_at_11 = (pos 10, true) ∷ (pos 12, true) ∷ []

both_done : (x : ℤ) → pos 10 ≤ℤ x → x ≤ℤ pos 11 → succeeded x ((pos 11, true) ∷ gap_at_11) ≡ true
both_done (pos n) a b = ground arith
both_done (negsuc n) a b = absurd (omega arith)

commit_when_caught_up_example :
    (c : ℤ) × ((process_message (session (pos 10) gap_at_11) (pos 11) true).0 ≡ some c)
    × (pos 11 <ℤ c)
commit_when_caught_up_example =
    commit_when_caught_up (pos 10) (pos 11) gap_at_11 (omega arith, omega arith)
      (omega arith, (omega arith, (omega arith, tt))) (omega arith) (omega arith) both_done

negative_start_never_commits_example :
    (process_message (session (negsuc 0) ((pos 0, true) ∷ [])) (pos 1) true).0 ≡ none
negative_start_never_commits_example =
    negative_start_never_commits 0 ((pos 0, true) ∷ []) (pos 1) true (omega arith)
      (omega arith, (omega arith, tt)) (refl, (refl, tt))

abbrev message : Message
message = record { key = codes "a"; value = []; offset = pos 10 }

abbrev next_message : Message
next_message = record { key = codes "a"; value = []; offset = pos 11 }

abbrev began : Processor
began = new_processor (pos 10)

-- The first message is in its channel.
abbrev sent_one : Processor
sent_one = send_message message false (find_channel message (take_message message began))

sent_one-Reach : Reach (pos 1) (pos 10) sent_one
unfolding take_message find_channel send_message new_processor channel_key
sent_one-Reach =
    later (later (later begun tt (takes message refl (omega arith))) tt (finds message refl)) tt
      (sends message false refl refl (omega arith))

-- A worker has handled it, and marked it as completed.
abbrev in_hand : Processor
in_hand = start_message false (codes "a") message [] sent_one

abbrev completed_one : Processor
completed_one =
    mark_message false (codes "a") message [] []
      (succeed_message false (codes "a") message [] [] in_hand)

in_hand-Reach : Reach (pos 1) (pos 10) in_hand
unfolding take_message find_channel send_message new_processor channel_key workers
in_hand-Reach = later sent_one-Reach tt (starts false (codes "a") message [] refl (omega arith))

abbrev committed : Processor
committed = commit_message false (codes "a") message (pos 11) [] completed_one

committed-Reach : Reach (pos 1) (pos 10) committed
unfolding take_message find_channel send_message start_message succeed_message mark_message
    new_processor channel_key workers process_message howk.Prelude.Int.incr howk.Prelude.Int.decr
    howk.Kafka.receive
committed-Reach =
    later
      (later (later in_hand-Reach tt (succeeds false (codes "a") message [] [] refl)) tt
        (completes false (codes "a") message [] [] refl))
      tt (marks_offset false (codes "a") message (pos 11) [] [] refl)

interleaved_commit_example : All (IsCovered (pos 10) committed.returns) committed.commits
interleaved_commit_example =
    interleaved_commit (pos 1) (pos 10) committed (omega arith, omega arith) committed-Reach

eleven_is_committed : committed.commits ≡ pos 11 ∷ []
unfolding take_message find_channel send_message start_message succeed_message mark_message
    commit_message new_processor process_message howk.Kafka.receive
eleven_is_committed = refl

-- The session is cancelled while the first message is handled. The second one, of the same key, is
-- taken after the channels were closed, and a second worker handles it at the same time.
abbrev after_close : Processor
after_close = record in_hand { cancelled = true; closed = true }

abbrev two_at_once : Processor
two_at_once = start_message true (codes "a") next_message [] (
    send_message next_message true
      (find_channel next_message (take_message next_message after_close)))

two_at_once-Reach : Reach (pos 1) (pos 10) two_at_once
unfolding take_message find_channel send_message start_message new_processor channel_key workers
two_at_once-Reach =
    later
      (later
        (later
          (later (later (later in_hand-Reach tt cancels) tt (closes refl refl)) tt
            (takes next_message refl (omega arith)))
          tt (finds next_message refl))
        tt (sends next_message true refl refl (omega arith)))
      tt (starts true (codes "a") next_message [] refl (omega arith))
