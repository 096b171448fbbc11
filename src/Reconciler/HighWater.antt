-- ===== src/Reconciler/HighWater.antt =====
-- internal/reconciler/reconciler.go: when `consumePartition`, and so `Run`, comes to an end.
use howk.Prelude.{
  ℕ, suc, ◌+◌, ◌-◌, ◌<◌, ◌≡◌, refl, ◌⊎◌, inl, inr, Bool, true, false, List, [], ◌∷◌, Option, none,
  some, arith, All, leb, ◌==◌,
}
use howk.Prelude.Text.{Bytes}
use howk.Redis.{replied}
use howk.HotState.{TtlConfig}
use howk.HotState.Recovery.{flush_for_rebuild}
use howk.Effects.{M, Env, World, pure, ◌>>=◌}
use howk.Reconciler.{
  StateValue, tombstone, unparsed, snapshot, StateMessage, Partition, restore_state, Scan, reached,
  waits, after_restore, scan_value, scan, consume_partition, after_scan, consume_partitions, flush,
  never_returns, mark_complete, rebuild, reconcile,
}

-- The message does not let the loop end: it lies below the mark, or it holds no snapshot.
abbrev pub PassesOver : ℕ → StateMessage → Type 0
PassesOver mark m = (m.offset + 1 < mark) ⊎ (m.value ≡ tombstone) ⊎ (m.value ≡ unparsed)

-- That the loop waits for ever.
abbrev pub Waits : Scan → Type 0
Waits (reached n) = ⊥
Waits (waits n) = Unit

after_restore-Waits :
    (mark offset : ℕ) (rest : ℕ → M Scan) (n : ℕ) (ok : Bool) (env : Env) (w : World)
    → offset + 1 < mark
    → ((k : ℕ) (w' : World) → Waits (rest k env w').0)
    → Waits (after_restore mark offset rest n ok env w).0
unfolding after_restore
after_restore-Waits mark offset rest n false env w b h = h n w
after_restore-Waits mark offset rest n true env w b h =
    let e : leb (mark - 1) offset ≡ false = ground arith in rw e (h (suc n) w)

scan_value-Waits :
    (c : TtlConfig) (mark : ℕ) (m : StateMessage) (rest : ℕ → M Scan) (n : ℕ) (v : StateValue)
    (env : Env) (w : World)
    → m.value ≡ v
    → PassesOver mark m
    → ((k : ℕ) (w' : World) → Waits (rest k env w').0)
    → Waits (scan_value c mark m.offset rest n v env w).0
unfolding scan_value ◌>>=◌
scan_value-Waits c mark m rest n tombstone env w e p h = h n w
scan_value-Waits c mark m rest n unparsed env w e p h = h n w
scan_value-Waits c mark m rest n (snapshot s) env w e (inl b) h =
    let (ok, w') = restore_state c s env w in after_restore-Waits mark m.offset rest n ok env w' b h
scan_value-Waits c mark m rest n (snapshot s) env w e (inr (inl t)) h = absurd (ground arith)
scan_value-Waits c mark m rest n (snapshot s) env w e (inr (inr t)) h = absurd (ground arith)

scan-Waits :
    (c : TtlConfig) (mark : ℕ) (ms : List StateMessage) (n : ℕ) (env : Env) (w : World)
    → All (PassesOver mark) ms
    → Waits (scan c mark ms n env w).0
unfolding scan pure
scan-Waits c mark [] n env w h = tt
scan-Waits c mark (m ∷ ms) n env w h =
    scan_value-Waits c mark m (scan c mark ms) n m.value env w refl h.0
      (λ k w'. scan-Waits c mark ms k env w' h.1)

after_scan-stuck :
    (rest : ℕ → M (Option ℕ)) (r : Scan) (env : Env) (w : World)
    → Waits r
    → (after_scan rest r env w).0 ≡ none
unfolding after_scan pure
after_scan-stuck rest (reached k) env w h = absurd h
after_scan-stuck rest (waits k) env w h = refl

consume_partitions-stuck :
    (c : TtlConfig) (p : Partition) (ps : List (Option Partition)) (n : ℕ) (env : Env) (w : World)
    → 0 < p.high_water_mark
    → All (PassesOver p.high_water_mark) p.messages
    → (consume_partitions c (some p ∷ ps) n env w).0 ≡ none
unfolding consume_partitions consume_partition ◌>>=◌
consume_partitions-stuck c p ps n env w z h =
    let e : (p.high_water_mark == 0) ≡ false = ground arith in
    let (r, w') = scan c p.high_water_mark p.messages n env w in
    rw e (
      after_scan-stuck (consume_partitions c ps) r env w'
        (scan-Waits c p.high_water_mark p.messages n env w h))

mark_complete-stuck :
    (host : Bytes) (o : Option ℕ) (env : Env) (w : World)
    → o ≡ none
    → (mark_complete host o env w).0 ≡ never_returns
unfolding mark_complete pure
mark_complete-stuck host none env w e = refl
mark_complete-stuck host (some n) env w e = absurd (ground arith)

pub flush-replied :
    (env : Env) (w : World) → ((n : ℕ) → env.reply n ≡ replied) → (flush env w).0 ≡ true
unfolding flush flush_for_rebuild
flush-replied env w r =
    rw
      (
        r (w.calls + 0),
        r (w.calls + 1),
        r (w.calls + 2),
        r (w.calls + 3),
        r (w.calls + 4),
        r (w.calls + 5),
        r (w.calls + 6),
        r (w.calls + 7),
        r (w.calls + 8),
        r (w.calls + 9),
        r (w.calls + 10),
      )
      refl

-- The high water mark is looked at only after a snapshot was restored. So if the mark of the first
-- partition is not zero, and no message of it at or beyond the mark holds a snapshot, as when the
-- last one is a tombstone, then the run never returns, whatever was restored, until another message
-- arrives, also if Redis answers every call.
pub tombstone_blocks_recovery :
    (c : TtlConfig) (host : Bytes) (p : Partition) (ps : List (Option Partition)) (env : Env)
    (w : World)
    → 0 < p.high_water_mark
    → All (PassesOver p.high_water_mark) p.messages
    → ((n : ℕ) → env.reply n ≡ replied)
    → (reconcile c host (some p ∷ ps) env w).0 ≡ never_returns
unfolding reconcile ◌>>=◌ rebuild
tombstone_blocks_recovery c host p ps env w z h r =
    let (ok, w') = flush env w in
    let (n, w'') = consume_partitions c (some p ∷ ps) 0 env w' in
    rw (flush-replied env w r)
      (mark_complete-stuck host n env w'' (consume_partitions-stuck c p ps 0 env w' z h))
