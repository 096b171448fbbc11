-- ===== src/Kafka/Commits.antt =====
-- internal/broker/kafka.go: which offsets `processMessage` commits.
use howk.Prelude.{
  ℕ, zero, suc, ◌≤◌, ◌<◌, ◌≡◌, refl, inl, inr, Bool, true, false, not, List, [], ◌∷◌, none, some,
  arith, if◌then◌else◌, Bool-cases, sym, subst, All,
}
use howk.Prelude.Int.{
  ℤ, pos, negsuc, pos_part, neg_part, incr, decr, eq_ℤ, ltb_ℤ, ◌≤ℤ◌, ◌<ℤ◌, max_int64, incr-decr,
}
use howk.Kafka.{OffsetTracker, mem, mark_completed, process_message, session}
use howk.Kafka.Tracker.{Knows, mark_completed-Knows}

-- Whether the handler of a message at this offset has succeeded.
abbrev pub succeeded : ℤ → List (ℤ × Bool) → Bool
succeeded p [] = false
succeeded p ((o, good) ∷ es) =
    if good then (if eq_ℤ o p then true else succeeded p es) else succeeded p es

abbrev pub IsInt64 : ℤ → Type 0
IsInt64 a = (pos_part a ≤ max_int64) × (neg_part a ≤ max_int64)

-- The largest `int64` is no offset of a message.
abbrev pub AreOffsets : List (ℤ × Bool) → Type 0
AreOffsets = All (λ e. pos_part e.0 < max_int64)

abbrev Good : ℤ → List (ℤ × Bool) → OffsetTracker → Type 0
Good initial es ot =
    Knows initial (λ p. succeeded p es) ot.lowest_pending ot.completed
    × (mem ot.lowest_pending ot.completed ≡ false)

process-Good :
    (initial : ℤ) (es : List (ℤ × Bool)) (ot : OffsetTracker) (o : ℤ) (good : Bool)
    → pos_part o < max_int64
    → Good initial es ot
    → Good initial ((o, good) ∷ es) (process_message ot o good).1
unfolding process_message
process-Good initial es ot o false b g = g
process-Good initial es ot o true b g =
    let (k, m, f) = mark_completed-Knows initial (λ p. succeeded p es) ot o b g.0 in (k, f)

session-Good :
    (initial : ℤ) (es : List (ℤ × Bool))
    → IsInt64 initial
    → AreOffsets es
    → Good initial es (session initial es)
unfolding session
session-Good initial [] i h = (
  record {
    started = omega arith;
    upper = i.0;
    lower = i.1;
    covered = λ o a b. absurd (omega arith);
    sound = λ o m. m;
    kept = λ o d g. d;
    bounded = λ o d. absurd (ground arith);
  },
  refl,
)
session-Good initial ((o, good) ∷ es) i h =
    process-Good initial es (session initial es) o good h.0 (session-Good initial es i h.1)

-- What a commit says of the tracker that it leaves.
commit_lowest :
    (initial : ℤ) (es : List (ℤ × Bool)) (ot : OffsetTracker) (o : ℤ) (good : Bool) (c : ℤ)
    → pos_part o < max_int64
    → Good initial es ot
    → (process_message ot o good).0 ≡ some c
    → c ≡ (process_message ot o good).1.lowest_pending
unfolding process_message
commit_lowest initial es ot o false c b g h = cc
commit_lowest initial es ot o true c b g h =
    let (k, m, f) = mark_completed-Knows initial (λ p. succeeded p es) ot o b g.0 in
    let e : incr (mark_completed ot o).0.0 ≡ (mark_completed ot o).1.lowest_pending =
      rw m (incr-decr _ k.upper) in
    ground (arith, e)

frontier :
    (initial : ℤ) (es : List (ℤ × Bool)) (ot : OffsetTracker)
    → Good initial es ot
    → succeeded ot.lowest_pending es ≡ false
frontier initial es ot (k, f) = elim (Bool-cases (succeeded ot.lowest_pending es)) [
  | inl d ↦ absurd (ground (arith, k.kept ot.lowest_pending d (omega arith)))
  | inr d ↦ d
]

-- Whatever order the handlers return in and whichever of them fail: when a message's return makes
-- the session commit up to an offset, every message from the session's first offset up to there
-- has been handled with success, and the one at that offset has not. So no failed or unfinished
-- message is ever committed, and no commit could go further.
pub commit_is_contiguous :
    (initial : ℤ) (es : List (ℤ × Bool)) (o : ℤ) (good : Bool) (c x : ℤ)
    → IsInt64 initial
    → AreOffsets ((o, good) ∷ es)
    → (process_message (session initial es) o good).0 ≡ some c
    → initial ≤ℤ x
    → x <ℤ c
    → (succeeded x ((o, good) ∷ es) ≡ true) × (succeeded c ((o, good) ∷ es) ≡ false)
commit_is_contiguous initial es o good c x i h e a b =
    let ot = session initial es in
    let g = session-Good initial es i h.1 in
    let g' = process-Good initial es ot o good h.0 g in
    let l = commit_lowest initial es ot o good c h.0 g e in
    let f = frontier initial ((o, good) ∷ es) (process_message ot o good).1 g' in
    (g'.0.covered x a (rw (← l) b), subst (λ y. succeeded y ((o, good) ∷ es) ≡ false) (sym l) f)

ready_iff : (l : ℤ) → neg_part l ≤ max_int64 → ltb_ℤ (decr l) (pos 0) ≡ not (ltb_ℤ (pos 0) l)
unfolding decr
ready_iff (pos zero) h = refl
ready_iff (pos (suc n)) h = ground arith
ready_iff (negsuc n) h = ground arith

-- A success commits exactly if the window has moved past offset 0.
commit_ready :
    (initial : ℤ) (es : List (ℤ × Bool)) (ot : OffsetTracker) (o : ℤ)
    → pos_part o < max_int64
    → Good initial es ot
    → let l = (process_message ot o true).1.lowest_pending in
      (process_message ot o true).0 ≡ (if ltb_ℤ (pos 0) l then some l else none)
unfolding process_message
commit_ready initial es ot o b g =
    let (k, m, f) = mark_completed-Knows initial (λ p. succeeded p es) ot o b g.0 in
    rw (m, ready_iff _ k.lower, incr-decr _ k.upper) (ground arith)

-- If a session began at an offset that is not negative, and with this return a handler has succeeded
-- at every offset from that one to this one, so that Kafka has left no gap between them, then the
-- return commits this one, whatever order they returned in.
pub commit_when_caught_up :
    (initial o : ℤ) (es : List (ℤ × Bool))
    → IsInt64 initial
    → AreOffsets ((o, true) ∷ es)
    → pos 0 ≤ℤ initial
    → initial ≤ℤ o
    → ((x : ℤ) → initial ≤ℤ x → x ≤ℤ o → succeeded x ((o, true) ∷ es) ≡ true)
    → (c : ℤ) × ((process_message (session initial es) o true).0 ≡ some c) × (o <ℤ c)
commit_when_caught_up initial o es i h z a every =
    let ot = session initial es in
    let g = session-Good initial es i h.1 in
    let g' = process-Good initial es ot o true h.0 g in
    let l = (process_message ot o true).1.lowest_pending in
    let f = frontier initial ((o, true) ∷ es) (process_message ot o true).1 g' in
    let past : o <ℤ l = caught l g'.0.started f in
    (l, rw (commit_ready initial es ot o h.0 g) (ground arith), past)
  where
    caught : (l : ℤ) → initial ≤ℤ l → succeeded l ((o, true) ∷ es) ≡ false → o <ℤ l
    caught l st f = elim (Bool-cases (ltb_ℤ o l)) [
      | inl y ↦ ground arith
      | inr n ↦ absurd (ground (arith, every l st (ground arith)))
    ]

negative_pending :
    (k : ℕ) (es : List (ℤ × Bool))
    → All (λ e. neg_part e.0 ≡ 0) es
    → succeeded (negsuc k) es ≡ false
negative_pending k [] h = refl
negative_pending k ((pos o, good) ∷ es) h = ground (arith, negative_pending k es h.1)
negative_pending k ((negsuc o, good) ∷ es) h = absurd (omega arith)

-- A claim whose consumer group has committed nothing yet begins at a negative offset (-1 or -2, the
-- client's marks for the newest and the oldest). The window then never moves, and no message of
-- such a session is ever committed, though all of them succeed.
pub negative_start_never_commits :
    (k : ℕ) (es : List (ℤ × Bool)) (o : ℤ) (good : Bool)
    → suc k ≤ max_int64
    → AreOffsets ((o, good) ∷ es)
    → All (λ e. neg_part e.0 ≡ 0) ((o, good) ∷ es)
    → (process_message (session (negsuc k) es) o good).0 ≡ none
negative_start_never_commits k es o false i h z = unfold process_message in refl
negative_start_never_commits k es o true i h z =
    let ot = session (negsuc k) es in
    let g = session-Good (negsuc k) es (omega arith, i) h.1 in
    let g' = process-Good (negsuc k) es ot o true h.0 g in
    let n = negative_pending k ((o, true) ∷ es) z in
    rw (commit_ready (negsuc k) es ot o h.0 g)
      (stuck (process_message ot o true).1.lowest_pending g'.0.covered n)
  where
    stuck :
        (l : ℤ)
        → ((x : ℤ) → negsuc k ≤ℤ x → x <ℤ l → succeeded x ((o, true) ∷ es) ≡ true)
        → succeeded (negsuc k) ((o, true) ∷ es) ≡ false
        → (if ltb_ℤ (pos 0) l then some l else none) ≡ none
    stuck l cov n = elim (Bool-cases (ltb_ℤ (pos 0) l)) [
      | inl y ↦ absurd (ground (arith, cov (negsuc k) (omega arith) (ground arith)))
      | inr y ↦ rw y
    ]
