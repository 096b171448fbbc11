-- ===== src/Kafka.antt =====
-- internal/broker/kafka.go: the offsets of one partition. Messages of a partition are handled by
-- several goroutines, so they complete in any order; `offsetTracker` decides what may be committed.
-- An offset is an `int64`; `completed` is the set of the keys of the Go map.
pub mod Tracker
pub mod Commits
pub mod Dispatch
pub mod Order
pub mod PerKey
pub mod Safe
pub mod Interleaved
mod Tests
use howk.Prelude.{
  ℕ, zero, suc, Bool, true, false, not, List, [], ◌∷◌, Option, none, some, length, any,
  if◌then◌else◌,
}
use howk.Prelude.Int.{ℤ, pos, negsuc, incr, decr, eq_ℤ, ltb_ℤ}

pub record OffsetTracker : Type 0 where
  pub completed : List ℤ
  pub lowest_pending : ℤ
  pub highest_received : ℤ

unfoldable pub new_offset_tracker : ℤ → OffsetTracker
new_offset_tracker initial = record {
  completed = [];
  lowest_pending = initial;
  highest_received = initial;
}

abbrev pub mem : ℤ → List ℤ → Bool
mem o [] = false
mem o (x ∷ xs) = if eq_ℤ x o then true else mem o xs

-- `completed[offset] = true`.
unfoldable pub mark : ℤ → List ℤ → List ℤ
mark o xs = if mem o xs then xs else o ∷ xs

-- `delete(completed, offset)`.
unfoldable pub delete : ℤ → List ℤ → List ℤ
delete o [] = []
delete o (x ∷ xs) = let rest = delete o xs in if eq_ℤ x o then rest else x ∷ rest

pub record Window : Type 0 where
  pub mark_to : ℤ
  pub pending : ℤ
  pub left : List ℤ

-- The loop of `MarkCompleted`, on fuel: each round deletes an entry.
unfoldable pub advance : ℕ → ℤ → ℤ → List ℤ → Window
unfolding delete
advance zero mark_to lowest cs = record { mark_to = mark_to; pending = lowest; left = cs }
advance (suc fuel) mark_to lowest cs =
    let next = advance fuel lowest (incr lowest) (delete lowest cs) in
    if mem lowest cs then next else record { mark_to = mark_to; pending = lowest; left = cs }

-- The offset up to which to commit, and whether there is one.
unfoldable pub mark_completed : OffsetTracker → ℤ → (ℤ × Bool) × OffsetTracker
unfolding mark advance
mark_completed ot offset =
    let cs = mark offset ot.completed in
    let w = advance (length cs) (decr ot.lowest_pending) ot.lowest_pending cs in
    (
      (w.mark_to, not (ltb_ℤ w.mark_to (pos 0))),
      record ot { completed = w.left; lowest_pending = w.pending },
    )

-- `run`: a message has arrived from the claim.
unfoldable pub receive : OffsetTracker → ℤ → OffsetTracker
receive ot offset =
    if ltb_ℤ ot.highest_received offset then record ot { highest_received = offset } else ot

-- `processMessage` on a message whose handler succeeds or fails; the offset that it hands to
-- `session.MarkOffset`, if it does.
unfoldable pub process_message : OffsetTracker → ℤ → Bool → Option ℤ × OffsetTracker
unfolding mark_completed
process_message ot offset false = (none, ot)
process_message ot offset true =
    let ((mark_to, ready), ot') = mark_completed ot offset in
    (if ready then some (incr mark_to) else none, ot')

-- The tracker of a session that began at `initial`, after the handlers of these messages have
-- returned, the latest first.
unfoldable pub session : ℤ → List (ℤ × Bool) → OffsetTracker
unfolding process_message new_offset_tracker
session initial [] = new_offset_tracker initial
session initial ((o, good) ∷ es) = (process_message (session initial es) o good).1
