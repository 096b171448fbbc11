-- ===== src/Limiter/Bound.antt =====
-- internal/delivery/limiter.go: the counts of slots under any sequence of uses.
use howk.Prelude.{ℕ, ◌+◌, ◌≤◌, ◌≡◌, List, [], ◌∷◌, arith, ltb, ◌&&◌, if◌then◌else◌}
use howk.Prelude.Text.{Bytes, bytes_eq}
use howk.Redis.{replied}
use howk.Redis.ZSet.{bytes_eq_iff}
use howk.HotState.{Store, count_of}
use howk.Limiter.{LimiterConfig, max_for, try_acquire, release}

-- A worker asks for a slot of a domain, or gives one back.
pub data Use : Type 0 where
  acquires releases : Bytes → Use

unfoldable pub use_slot : LimiterConfig → Use → Store → Store
unfolding try_acquire release
use_slot c (acquires d) s = (try_acquire c d 0 replied replied s).1
use_slot c (releases d) s = (release d 0 replied s).1

unfoldable pub use_slots : LimiterConfig → List Use → Store → Store
unfolding use_slot
use_slots c [] s = s
use_slots c (u ∷ us) s = use_slots c us (use_slot c u s)

-- A slot is granted exactly below the cap of its domain; then its count is one more, and every
-- other count, and all counts after a refusal, are as they were.
pub acquire_counts :
    (c : LimiterConfig) (d k : Bytes) (now : ℕ) (s : Store)
    → let n = count_of (s.domain_inflight k) in
      let (granted, s') = try_acquire c d now replied replied s in
      (granted ≡ ltb (count_of (s.domain_inflight d)) (max_for c d))
      × (count_of (s'.domain_inflight k) ≡ (if granted && bytes_eq d k then n + 1 else n))
unfolding try_acquire
acquire_counts c d k now s = (ground arith, ground (arith, bytes_eq_iff d k))

use_slot-bounded :
    (c : LimiterConfig) (u : Use) (s : Store) (k : Bytes)
    → count_of (s.domain_inflight k) ≤ max_for c k
    → count_of ((use_slot c u s).domain_inflight k) ≤ max_for c k
unfolding use_slot release
use_slot-bounded c (acquires d) s k h = grind (arith, bytes_eq_iff d k, acquire_counts c d k 0 s)
use_slot-bounded c (releases d) s k h = ground (arith, bytes_eq_iff d k)

-- Whatever slots workers take and give back, in whatever order, no domain ever has more requests
-- in flight than its cap.
in_flight_bounded :
    (c : LimiterConfig) (us : List Use) (s : Store) (k : Bytes)
    → count_of (s.domain_inflight k) ≤ max_for c k
    → count_of ((use_slots c us s).domain_inflight k) ≤ max_for c k
unfolding use_slots
in_flight_bounded c [] s k h = h
in_flight_bounded c (u ∷ us) s k h =
    in_flight_bounded c us (use_slot c u s) k (use_slot-bounded c u s k h)
