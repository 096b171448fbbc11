-- ===== src/Reconciler/Completion.antt =====
-- internal/reconciler/reconciler.go: a run over partitions that end in a snapshot.
use howk.Prelude.{
  ℕ, suc, ◌+◌, ◌-◌, ◌≤◌, ◌≡◌, refl, ◌⊎◌, inl, inr, Bool, true, false, List, [], ◌∷◌, Option, none,
  some, arith, All, leb, Bool-cases, ◌==◌,
}
use howk.Prelude.Text.{Bytes, codes}
use howk.Domain.{Webhook, WebhookStateSnapshot}
use howk.Redis.{Reply, replied}
use howk.HotState.{TtlConfig, Store, set_status, ensure_retry_data}
use howk.HotState.Recovery.{set_canary, set_epoch}
use howk.Effects.{M, Env, World, pure, ◌>>=◌, redis, redis₂, time_now}
use howk.Reconciler.{
  StateValue, tombstone, unparsed, snapshot, StateMessage, Partition, restored_status,
  restored_webhook, schedule_restored, retry_due, restore_retry, after_status, restore_state, Scan,
  reached, waits, after_restore, scan_value, scan, consume_partition, after_scan,
  consume_partitions, flush, completed, mark_complete, rebuild, reconcile,
}
use howk.Reconciler.Restore.{set_status-replied, schedule-stores}
use howk.Reconciler.HighWater.{flush-replied}

ensure-replied :
    (ttl : ℕ) (h : Webhook) (now : ℕ) (r q : Reply) (s : Store)
    → r ≡ replied
    → q ≡ replied
    → (ensure_retry_data ttl h now r q s).0 ≡ some tt
unfolding ensure_retry_data
ensure-replied ttl h now r q s a b = ground arith

schedule_restored-replied :
    (c : TtlConfig) (h : Webhook) (at : ℕ) (o : Option (Unit {0})) (env : Env) (w : World)
    → o ≡ some tt
    → env.reply w.calls ≡ replied
    → (schedule_restored c h at o env w).0 ≡ true
unfolding schedule_restored ◌>>=◌ redis pure
schedule_restored-replied c h at none env w e r = absurd (ground arith)
schedule_restored-replied c h at (some u) env w e r =
    rw
      (schedule-stores c h at (codes "reconciled") (env.clock w.calls) (env.reply w.calls) w.store
        r).0
      refl

restore_retry-replied :
    (c : TtlConfig) (snap : WebhookStateSnapshot) (due : Option ℕ) (env : Env) (w : World)
    → ((n : ℕ) → env.reply n ≡ replied)
    → (restore_retry c snap due env w).0 ≡ true
unfolding restore_retry ◌>>=◌ redis₂ pure
restore_retry-replied c snap none env w r = refl
restore_retry-replied c snap (some at) env w r =
    let h = restored_webhook snap at in
    schedule_restored-replied c h at _ env _
      (ensure-replied c.retry_data_ttl h (env.clock w.calls) _ _ w.store (r w.calls)
        (r (w.calls + 1)))
      (r _)

restore_state-replied :
    (c : TtlConfig) (snap : WebhookStateSnapshot) (env : Env) (w : World)
    → ((n : ℕ) → env.reply n ≡ replied)
    → (restore_state c snap env w).0 ≡ true
unfolding restore_state ◌>>=◌ time_now redis after_status
restore_state-replied c snap env w r =
    let st = restored_status snap (env.clock w.calls) in
    let (o, w') = redis (set_status c st) env w in
    rw (set_status-replied c st (env.clock w.calls) (env.reply w.calls) w.store (r w.calls)).0
      (restore_retry-replied c snap (retry_due snap.state snap.next_retry_at) env w' r)

-- A snapshot at or beyond the mark.
abbrev pub EndsAt : ℕ → StateMessage → Type 0
EndsAt mark m = (mark ≤ m.offset + 1) × ((s : WebhookStateSnapshot) × (m.value ≡ snapshot s))

abbrev pub HasEnd : ℕ → List StateMessage → Type 0
HasEnd mark [] = ⊥
HasEnd mark (m ∷ ms) = EndsAt mark m ⊎ HasEnd mark ms

abbrev pub Reaches : Scan → Type 0
Reaches (reached n) = Unit
Reaches (waits n) = ⊥

after_restore-Reaches :
    (mark offset : ℕ) (rest : ℕ → M Scan) (n : ℕ) (ok : Bool) (env : Env) (w : World)
    → ok ≡ true
    → (mark ≤ offset + 1) ⊎ ((k : ℕ) (w' : World) → Reaches (rest k env w').0)
    → Reaches (after_restore mark offset rest n ok env w).0
unfolding after_restore pure
after_restore-Reaches mark offset rest n false env w e h = absurd (ground arith)
after_restore-Reaches mark offset rest n true env w e (inl b) =
    let f : leb (mark - 1) offset ≡ true = ground arith in rw f tt
after_restore-Reaches mark offset rest n true env w e (inr h) =
    elim (Bool-cases (leb (mark - 1) offset)) [ inl f ↦ rw f tt | inr f ↦ rw f (h (suc n) w) ]

scan_value-Reaches :
    (c : TtlConfig) (mark : ℕ) (m : StateMessage) (rest : ℕ → M Scan) (n : ℕ) (v : StateValue)
    (env : Env) (w : World)
    → m.value ≡ v
    → ((n : ℕ) → env.reply n ≡ replied)
    → EndsAt mark m ⊎ ((k : ℕ) (w' : World) → Reaches (rest k env w').0)
    → Reaches (scan_value c mark m.offset rest n v env w).0
unfolding scan_value ◌>>=◌
scan_value-Reaches c mark m rest n tombstone env w e r (inl (b, (s, f))) = absurd (ground arith)
scan_value-Reaches c mark m rest n unparsed env w e r (inl (b, (s, f))) = absurd (ground arith)
scan_value-Reaches c mark m rest n tombstone env w e r (inr h) = h n w
scan_value-Reaches c mark m rest n unparsed env w e r (inr h) = h n w
scan_value-Reaches c mark m rest n (snapshot s) env w e r (inl p) =
    let (ok, w') = restore_state c s env w in
    after_restore-Reaches mark m.offset rest n ok env w' (restore_state-replied c s env w r)
      (inl p.0)
scan_value-Reaches c mark m rest n (snapshot s) env w e r (inr h) =
    let (ok, w') = restore_state c s env w in
    after_restore-Reaches mark m.offset rest n ok env w' (restore_state-replied c s env w r) (inr h)

scan-Reaches :
    (c : TtlConfig) (mark : ℕ) (ms : List StateMessage) (n : ℕ) (env : Env) (w : World)
    → ((n : ℕ) → env.reply n ≡ replied)
    → HasEnd mark ms
    → Reaches (scan c mark ms n env w).0
unfolding scan
scan-Reaches c mark [] n env w r h = absurd h
scan-Reaches c mark (m ∷ ms) n env w r (inl p) =
    scan_value-Reaches c mark m (scan c mark ms) n m.value env w refl r (inl p)
scan-Reaches c mark (m ∷ ms) n env w r (inr h) =
    scan_value-Reaches c mark m (scan c mark ms) n m.value env w refl r
      (inr (λ k w'. scan-Reaches c mark ms k env w' r h))

-- The partition cannot be opened, is empty, or has a snapshot at its end.
abbrev pub Readable : Option Partition → Type 0
Readable none = Unit
Readable (some p) = (p.high_water_mark ≡ 0) ⊎ HasEnd p.high_water_mark p.messages

abbrev IsSome : Option ℕ → Type 0
IsSome none = ⊥
IsSome (some n) = Unit

after_scan-IsSome :
    (rest : ℕ → M (Option ℕ)) (r : Scan) (env : Env) (w : World)
    → Reaches r
    → ((k : ℕ) (w' : World) → IsSome (rest k env w').0)
    → IsSome (after_scan rest r env w).0
unfolding after_scan
after_scan-IsSome rest (reached k) env w h t = t k w
after_scan-IsSome rest (waits k) env w h t = absurd h

consume_partition-Reaches :
    (c : TtlConfig) (p : Partition) (n : ℕ) (env : Env) (w : World)
    → ((n : ℕ) → env.reply n ≡ replied)
    → Readable (some p)
    → Reaches (consume_partition c p n env w).0
unfolding consume_partition pure
consume_partition-Reaches c p n env w r (inl z) = rw z tt
consume_partition-Reaches c p n env w r (inr h) = elim (Bool-cases (p.high_water_mark == 0)) [
  | inl e ↦ rw e tt
  | inr e ↦ rw e (scan-Reaches c p.high_water_mark p.messages n env w r h)
]

consume_partitions-IsSome :
    (c : TtlConfig) (ps : List (Option Partition)) (n : ℕ) (env : Env) (w : World)
    → ((n : ℕ) → env.reply n ≡ replied)
    → All Readable ps
    → IsSome (consume_partitions c ps n env w).0
unfolding consume_partitions ◌>>=◌ pure
consume_partitions-IsSome c [] n env w r h = tt
consume_partitions-IsSome c (none ∷ ps) n env w r h = consume_partitions-IsSome c ps n env w r h.1
consume_partitions-IsSome c (some p ∷ ps) n env w r h =
    let (s, w') = consume_partition c p n env w in
    after_scan-IsSome (consume_partitions c ps) s env w'
      (consume_partition-Reaches c p n env w r h.0)
      (λ k w''. consume_partitions-IsSome c ps k env w'' r h.1)

mark_complete-completed :
    (host : Bytes) (o : Option ℕ) (env : Env) (w : World)
    → ((n : ℕ) → env.reply n ≡ replied)
    → IsSome o
    → let (result, w') = mark_complete host o env w in
      (result ≡ completed) × (w'.store.canary ≡ true)
unfolding mark_complete ◌>>=◌ redis set_canary set_epoch time_now pure
mark_complete-completed host none env w r h = absurd h
mark_complete-completed host (some n) env w r h = rw (r w.calls) (refl, refl)

-- A run over partitions each of which ends in a snapshot, is empty or cannot be opened, comes to
-- its end and leaves the canary set, as long as Redis answers.
pub recovery_completes :
    (c : TtlConfig) (host : Bytes) (p : Option Partition) (ps : List (Option Partition)) (env : Env)
    (w : World)
    → All Readable (p ∷ ps)
    → ((n : ℕ) → env.reply n ≡ replied)
    → let (result, w') = reconcile c host (p ∷ ps) env w in
      (result ≡ completed) × (w'.store.canary ≡ true)
unfolding reconcile ◌>>=◌ rebuild
recovery_completes c host p ps env w h r =
    let (ok, w') = flush env w in
    let (n, w'') = consume_partitions c (p ∷ ps) 0 env w' in
    rw (flush-replied env w r)
      (mark_complete-completed host n env w'' r (consume_partitions-IsSome c (p ∷ ps) 0 env w' r h))
