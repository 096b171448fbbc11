-- ===== src/HotState/Stats.antt =====
-- internal/hotstate/redis.go: `GetStats`, which adds up the hourly counters. `name` is
-- `Format("2006010215")` in the local time zone. `estimate` is what `PFCOUNT` gives for the values
-- of some sketches.
use howk.Prelude.{ℕ, zero, suc, ◌+◌, ◌*◌, ◌/◌, List, [], ◌∷◌, ◌++◌, ltb, if◌then◌else◌}
use howk.Prelude.Text.{Bytes, codes}
use howk.Redis.{Reply, Map, Entry, live, arrived}
use howk.HotState.{Op, count_of, values_of}

abbrev pub hour : ℕ
hour = 3600000000000

pub record Stats : Type 0 where
  pub enqueued : ℕ
  pub delivered : ℕ
  pub failed : ℕ
  pub exhausted : ℕ
  pub unique_endpoints : ℕ

-- The loop that makes the buckets, on fuel: `current` begins at a full hour.
unfoldable pub hours : ℕ → ℕ → ℕ → List ℕ
hours zero current to = []
hours (suc fuel) current to =
    let rest = hours fuel (current + hour) to in if ltb to current then [] else current ∷ rest

-- Fuel for the hours of a time range.
abbrev pub fuel_for : ℕ → ℕ
fuel_for to = suc (to / hour)

abbrev pub stat_key : (ℕ → Bytes) → Bytes → ℕ → Bytes
stat_key name stat at = stat ++ b':' ∷ name at

-- A counter that is not there adds nothing.
unfoldable pub sum_counters : (ℕ → Bytes) → Bytes → ℕ → Map (Entry ℕ) → List ℕ → ℕ
sum_counters name stat now counters [] = 0
sum_counters name stat now counters (at ∷ hs) =
    count_of (live now (counters (stat_key name stat at))) + sum_counters name stat now counters hs

unfoldable pub merged_sketches : (ℕ → Bytes) → ℕ → Map (Entry (List Bytes)) → List ℕ → List Bytes
merged_sketches name now sketches [] = []
merged_sketches name now sketches (at ∷ hs) =
    values_of (live now (sketches (codes "endpoints:" ++ name at)))
    ++ merged_sketches name now sketches hs

-- `from.Truncate(time.Hour)`.
abbrev pub full_hour : ℕ → ℕ
full_hour t = t / hour * hour

-- Commands of a pipeline that failed add nothing, and the error of `PFCOUNT` is a count of zero.
unfoldable pub get_stats : (List Bytes → ℕ) → (ℕ → Bytes) → ℕ → ℕ → ℕ → Reply → Reply → Op Stats
unfolding hours sum_counters merged_sketches
get_stats estimate name from to now r₁ r₂ s =
    let hs = hours (fuel_for to) (full_hour from) to in
    let total : Bytes → ℕ =
      λ stat. if arrived r₁ then sum_counters name stat now s.counters hs else 0 in
    (
      record {
        enqueued = total (codes "enqueued");
        delivered = total (codes "delivered");
        failed = total (codes "failed");
        exhausted = total (codes "exhausted");
        unique_endpoints =
            if arrived r₂ then estimate (merged_sketches name now s.sketches hs) else 0;
      },
      s,
    )
