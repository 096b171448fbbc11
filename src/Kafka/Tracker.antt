-- ===== src/Kafka/Tracker.antt =====
-- internal/broker/kafka.go: the sliding window of `offsetTracker`.
use howk.Prelude.{
  ℕ, zero, suc, ◌≤◌, ◌<◌, ◌≡◌, refl, inl, inr, Bool, true, false, List, [], ◌∷◌, arith, length,
  if◌then◌else◌, Bool-cases, sym, ap,
}
use howk.Prelude.Int.{
  ℤ, pos_part, neg_part, incr, decr, eq_ℤ, eq_ℤ_iff, ◌≤ℤ◌, ◌<ℤ◌, max_int64, incr_parts, parts-ne,
  parts_apart, decr-incr,
}
use howk.Kafka.{OffsetTracker, mem, mark, delete, advance, mark_completed}

pub mem-mark : (o p : ℤ) (xs : List ℤ) → mem p (mark o xs) ≡ (if eq_ℤ o p then true else mem p xs)
unfolding mark
mem-mark o p xs = elim (Bool-cases (mem o xs)) [
  | inl old ↦ rw old (elim (Bool-cases (eq_ℤ o p)) [
    | inl e ↦ rw e (rw ((eq_ℤ_iff o p).0 e) at old)
    | inr e ↦ rw e
  ])
  | inr new ↦ rw new
]

pub mem-delete :
    (o p : ℤ) (xs : List ℤ) → mem p (delete o xs) ≡ (if eq_ℤ o p then false else mem p xs)
unfolding delete
mem-delete o p [] = ground arith
mem-delete o p (x ∷ xs) =
    ground (arith, mem-delete o p xs, eq_ℤ_iff x o, eq_ℤ_iff o p, eq_ℤ_iff x p)

length-delete-le : (o : ℤ) (xs : List ℤ) → length (delete o xs) ≤ length xs
unfolding delete
length-delete-le o [] = omega arith
length-delete-le o (x ∷ xs) = ground (arith, length-delete-le o xs)

length-delete-lt : (o : ℤ) (xs : List ℤ) → mem o xs ≡ true → length (delete o xs) < length xs
unfolding delete
length-delete-lt o [] h = cc
length-delete-lt o (x ∷ xs) h = ground (arith, length-delete-le o xs, length-delete-lt o xs)

-- The fuel suffices: the loop ends at an offset that has not completed.
pub advance_ends :
    (fuel : ℕ) (m l : ℤ) (cs : List ℤ)
    → length cs ≤ fuel
    → let w = advance fuel m l cs in mem w.pending w.left ≡ false
unfolding advance
advance_ends zero m l [] h = refl
advance_ends zero m l (x ∷ cs) h = absurd (omega arith)
advance_ends (suc fuel) m l cs h = elim (Bool-cases (mem l cs)) [
  | inl e ↦
      rw e (advance_ends fuel l (incr l) (delete l cs) (omega (arith, length-delete-lt l cs e)))
  | inr e ↦ rw e e
]

-- The set of the offsets that have completed so far, as a test.
abbrev pub Done : Type 0
Done = ℤ → Bool

-- What the tracker knows of a session that began at `initial`, the offsets in `done` completed.
pub record Knows (initial : ℤ) (done : Done) (lowest : ℤ) (cs : List ℤ) : Type 0 where
  pub started : initial ≤ℤ lowest
  pub upper : pos_part lowest ≤ max_int64
  pub lower : neg_part lowest ≤ max_int64
  pub covered : (o : ℤ) → initial ≤ℤ o → o <ℤ lowest → done o ≡ true
  pub sound : (o : ℤ) → mem o cs ≡ true → done o ≡ true
  pub kept : (o : ℤ) → done o ≡ true → lowest ≤ℤ o → mem o cs ≡ true
  pub bounded : (o : ℤ) → done o ≡ true → pos_part o < max_int64

module _ (initial : ℤ) (done : Done) where
  advance_once :
      (l : ℤ) (cs : List ℤ)
      → mem l cs ≡ true
      → Knows initial done l cs
      → Knows initial done (incr l) (delete l cs)
  advance_once l cs h k =
      let step = incr_parts l (k.bounded l (k.sound l h)) in
      record {
        started = let s = k.started in omega arith;
        upper = omega (arith, k.bounded l (k.sound l h), parts_apart (incr l));
        lower = omega (arith, k.lower, parts_apart (incr l));
        covered = λ o a b. elim (Bool-cases (eq_ℤ l o)) [
          | inl e ↦ rw (← (eq_ℤ_iff l o).0 e) (k.sound l h)
          | inr e ↦ k.covered o a (omega (arith, parts-ne l o e))
        ];
        sound = λ o m. k.sound o (ground (arith, mem-delete l o cs));
        kept = λ o d g. elim (Bool-cases (eq_ℤ l o)) [
          | inl e ↦
              let e' = (eq_ℤ_iff l o).0 e in absurd (omega (arith, ap pos_part e', ap neg_part e'))
          | inr e ↦ rw (mem-delete l o cs, e) (k.kept o d (omega arith))
        ];
        bounded = k.bounded;
      }

  -- Where the loop stops, in the terms of the session.
  pub advance-Knows :
      (fuel : ℕ) (m l : ℤ) (cs : List ℤ)
      → m ≡ decr l
      → Knows initial done l cs
      → let w = advance fuel m l cs in
        Knows initial done w.pending w.left × (w.mark_to ≡ decr w.pending)
  unfolding advance
  advance-Knows zero m l cs e k = (k, e)
  advance-Knows (suc fuel) m l cs e k = elim (Bool-cases (mem l cs)) [
    | inl h ↦ rw h (
        advance-Knows fuel l (incr l) (delete l cs) (sym (decr-incr l k.lower))
          (advance_once l cs h k))
    | inr h ↦ rw h (k, e)
  ]

  pub mark-Knows :
      (o l : ℤ) (cs : List ℤ)
      → pos_part o < max_int64
      → Knows initial done l cs
      → Knows initial (λ p. if eq_ℤ o p then true else done p) l (mark o cs)
  mark-Knows o l cs b k = record {
    started = k.started;
    upper = k.upper;
    lower = k.lower;
    covered = λ p x y. ground (arith, k.covered p x y);
    sound = λ p m. ground (arith, mem-mark o p cs, k.sound p);
    kept = λ p d g. ground (arith, mem-mark o p cs, k.kept p);
    bounded = λ p d. ground (arith, eq_ℤ_iff o p, k.bounded p);
  }

-- What `MarkCompleted` leaves: the window starts at the first offset that has not completed, and
-- all below it may be committed.
pub mark_completed-Knows :
    (initial : ℤ) (done : Done) (ot : OffsetTracker) (o : ℤ)
    → pos_part o < max_int64
    → Knows initial done ot.lowest_pending ot.completed
    → let (r, ot') = mark_completed ot o in
      Knows initial (λ p. if eq_ℤ o p then true else done p) ot'.lowest_pending ot'.completed
      × (r.0 ≡ decr ot'.lowest_pending)
      × (mem ot'.lowest_pending ot'.completed ≡ false)
unfolding mark_completed
mark_completed-Knows initial done ot o b k =
    let cs = mark o ot.completed in
    let (k', m) =
      advance-Knows initial (λ p. if eq_ℤ o p then true else done p) (length cs)
        (decr ot.lowest_pending) ot.lowest_pending cs refl
        (mark-Knows initial done o ot.lowest_pending ot.completed b k) in
    (k', m, advance_ends (length cs) _ _ cs (omega arith))
