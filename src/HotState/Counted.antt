-- ===== src/HotState/Counted.antt =====
-- internal/hotstate/redis.go: the loop of `GetStats` over the hours, and which counters it finds.
use howk.Prelude.{
  ℕ, zero, suc, ◌+◌, ◌-◌, ◌*◌, ◌/◌, ◌≤◌, ◌<◌, ◌≡◌, refl, ap, subst, ◌∙◌, inl, inr, true, false,
  ◌&&◌, List, [], ◌∷◌, ◌++◌, some, arith, ltb, leb, ◌==◌, if◌then◌else◌, Bool-cases,
}
use howk.Prelude.Text.{Bytes, codes, bytes_eq, bytes_eq→eq}
use howk.Redis.{Reply, replied, Map, Entry, put, live}
use howk.HotState.{Store, count_of, incr_stats}
use howk.HotState.Stats.{hour, hours, fuel_for, stat_key, sum_counters, full_hour, get_stats}

-- Fuel for one hour more than the range holds is enough: the loop then ends by its test, and gives
-- the same hours with any two such amounts of fuel.
hours_enough :
    (f g current to : ℕ)
    → to < current + f * hour
    → to < current + g * hour
    → hours f current to ≡ hours g current to
unfolding hours
hours_enough zero zero current to h k = refl
hours_enough zero (suc g) current to h k = ground arith
hours_enough (suc f) zero current to h k = ground arith
hours_enough (suc f) (suc g) current to h k =
    ground (arith, hours_enough f g (current + hour) to (omega arith) (omega arith))

-- The starts of that many hours, beginning with hour `n`.
abbrev pub full_hours : ℕ → ℕ → List ℕ
full_hours n zero = []
full_hours n (suc k) = n * hour ∷ full_hours (n + 1) k

hours-full_hours :
    (f n to : ℕ)
    → to < n * hour + f * hour
    → hours f (n * hour) to ≡ full_hours n (to / hour + 1 - n)
unfolding hours
hours-full_hours zero n to h = count (to / hour + 1 - n) (omega arith)
  where
    count : (k : ℕ) → k ≡ 0 → [] ≡ full_hours n k
    count zero e = refl
    count (suc k) e = absurd (omega arith)
hours-full_hours (suc f) n to h = elim (Bool-cases (ltb to (n * hour))) [
  | inl e ↦ rw e (none_left (to / hour + 1 - n) (ground arith))
  | inr e ↦
      let next : hours f (n * hour + hour) to ≡ hours f ((n + 1) * hour) to =
        ap (λ c. hours f c to) (omega arith) in
      let d : to / hour + 1 - n ≡ suc (to / hour + 1 - (n + 1)) = ground arith in
      rw (e, d) (ap (λ hs. n * hour ∷ hs) (next ∙ hours-full_hours f (n + 1) to (omega arith)))
]
  where
    none_left : (k : ℕ) → k ≡ 0 → [] ≡ full_hours n k
    none_left zero e = refl
    none_left (suc k) e = absurd (omega arith)

-- The loop over the hours of a time range ends by its own test within the fuel that it is given, or
-- any more, and gives the start of each hour from that of the range's first moment to that of its
-- last one, both included, once and in order.
pub hours_end :
    (from to more : ℕ)
    → from ≤ to
    → hours (fuel_for to + more) (full_hour from) to
      ≡ full_hours (from / hour) (to / hour + 1 - from / hour)
hours_end from to more h = hours-full_hours (fuel_for to + more) (from / hour) to (omega arith)

bytes_eq-append : (s a b : Bytes) → bytes_eq (s ++ a) (s ++ b) ≡ bytes_eq a b
bytes_eq-append [] a b = refl
bytes_eq-append (c ∷ s) a b = ground (arith, bytes_eq-append s a b)

-- In this range each hour has a name of its own, and `t` has the name of its hour: so it is where
-- the zone is whole hours from UTC and the clock is not changed.
abbrev pub AreNamed : (ℕ → Bytes) → ℕ → ℕ → ℕ → Type 0
AreNamed name from to t =
    (n : ℕ)
    → from / hour ≤ n
    → n * hour ≤ to
    → bytes_eq (name t) (name (n * hour)) ≡ (t / hour == n)

module _ (name : ℕ → Bytes) (stat : Bytes) (counters : Map (Entry ℕ)) (from to t : ℕ)
    (now later delta ttl : ℕ) where
  abbrev counted : Map (Entry ℕ)
  counted = put counters (stat_key name stat t) (record {
    value = count_of (live now (counters (stat_key name stat t))) + delta;
    expires = some (now + ttl);
  })

  counted-at :
      (k : Bytes)
      → live later (counters (stat_key name stat t)) ≡ live now (counters (stat_key name stat t))
      → later < now + ttl
      → count_of (live later (counted k))
        ≡ count_of (live later (counters k))
          + (if bytes_eq (stat_key name stat t) k then delta else 0)
  counted-at k i x = elim (Bool-cases (bytes_eq (stat_key name stat t) k)) [
    | inl q ↦ rw q (
        subst
          (λ j.
            count_of (
              live later (
                some (record {
                  value = count_of (live now (counters (stat_key name stat t))) + delta;
                  expires = some (now + ttl);
                })))
            ≡ count_of (live later (counters j)) + delta)
          (bytes_eq→eq (stat_key name stat t) k q) (rw i (ground arith)))
    | inr q ↦ rw q (ground arith)
  ]

  -- The counter of the hour of `t` is found if the loop comes to that hour.
  sum-hours :
      (fuel n : ℕ)
      → AreNamed name from to t
      → live later (counters (stat_key name stat t)) ≡ live now (counters (stat_key name stat t))
      → later < now + ttl
      → from / hour ≤ n
      → to < n * hour + fuel * hour
      → sum_counters name stat later counted (hours fuel (n * hour) to)
        ≡ sum_counters name stat later counters (hours fuel (n * hour) to)
          + (if leb n (t / hour) && leb (t / hour * hour) to then delta else 0)
  unfolding hours sum_counters
  sum-hours zero n d i x y h = ground arith
  sum-hours (suc fuel) n d i x y h = elim (Bool-cases (ltb to (n * hour))) [
    | inl e ↦ rw e (ground arith)
    | inr e ↦
        let next : hours fuel (n * hour + hour) to ≡ hours fuel ((n + 1) * hour) to =
          ap (λ c. hours fuel c to) (omega arith) in
        let rest = sum-hours fuel (n + 1) d i x (omega arith) (omega arith) in
        let same : bytes_eq (stat_key name stat t) (stat_key name stat (n * hour))
            ≡ (t / hour == n) =
          bytes_eq-append stat _ _ ∙ ground (arith, d n y (ground arith)) in
        rw (e, next) (ground (arith, rest, same, counted-at (stat_key name stat (n * hour)) i x))
  ]

sum-other :
    (name : ℕ → Bytes) (stat key : Bytes) (now : ℕ) (counters : Map (Entry ℕ)) (v : Entry ℕ)
    (hs : List ℕ)
    → ((u : ℕ) → bytes_eq key (stat_key name stat u) ≡ false)
    → sum_counters name stat now (put counters key v) hs ≡ sum_counters name stat now counters hs
unfolding sum_counters
sum-other name stat key now counters v [] h = refl
sum-other name stat key now counters v (u ∷ hs) h =
    rw (h u, sum-other name stat key now counters v hs h) refl

hour_le : (a b : ℕ) → a ≤ b → a / hour ≤ b / hour
hour_le a b h = omega arith

start_le : (t : ℕ) → t / hour * hour ≤ t
start_le t = omega arith

-- Where each hour of a time range has a name of its own, a delivery that is counted at a time in it
-- shows up in the statistics of the range for as long as the counters are kept, if Redis answers and
-- the count of that hour has not run out in between: deliveries are as many more as were counted,
-- and the other counters are as before.
pub delivery_is_counted :
    (estimate : List Bytes → ℕ) (name : ℕ → Bytes) (from to t now later delta : ℕ) (r : Reply)
    (s : Store)
    → AreNamed name from to t
    → from ≤ t
    → t ≤ to
    → later < now + s.stats_ttl
    → live later (s.counters (stat_key name (codes "delivered") t))
      ≡ live now (s.counters (stat_key name (codes "delivered") t))
    → let s' = (incr_stats (stat_key name (codes "delivered") t) delta now replied s).1 in
      let old = (get_stats estimate name from to later replied r s).0 in
      get_stats estimate name from to later replied r s'
      ≡ (record old { delivered = old.delivered + delta }, s')
unfolding get_stats incr_stats
delivery_is_counted estimate name from to t now later delta r s d a b x i =
    let key = stat_key name (codes "delivered") t in
    let hs = hours (fuel_for to) (full_hour from) to in
    let v : Entry ℕ = record {
      value = count_of (live now (s.counters key)) + delta;
      expires = some (now + s.stats_ttl);
    } in
    let inside : (leb (from / hour) (t / hour) && leb (t / hour * hour) to) ≡ true =
      ground (arith, hour_le from t a, start_le t) in
    rw
      (
        sum-hours name (codes "delivered") s.counters from to t now later delta s.stats_ttl
            (fuel_for to) (from / hour) d i x (omega arith) (omega arith),
        sum-other name (codes "enqueued") key later s.counters v hs (λ u. refl),
        sum-other name (codes "failed") key later s.counters v hs (λ u. refl),
        sum-other name (codes "exhausted") key later s.counters v hs (λ u. refl),
        inside,
      )
      refl
