-- ===== src/Redis/ZSet.antt =====
-- The sorted set of Redis: members with scores, by score and then by member.
use howk.Prelude.{
  ℕ, zero, suc, ◌≡◌, refl, ◌↔◌, inl, inr, Bool, true, false, ◌&&◌, ◌||◌, List, [], ◌∷◌, Option,
  none, some, arith, ltb, leb, ◌==◌, if◌then◌else◌, Bool-cases, take,
}
use howk.Prelude.Text.{Bytes, bytes_eq, bytes_eq→eq, bytes_eq_refl}

abbrev pub ZSet : Type 0
ZSet = List (Bytes × ℕ)

-- Bytewise order.
unfoldable pub bytes_lt : Bytes → Bytes → Bool
bytes_lt [] [] = false
bytes_lt [] (y ∷ ys) = true
bytes_lt (x ∷ xs) [] = false
bytes_lt (x ∷ xs) (y ∷ ys) = ltb x y || ((x == y) && bytes_lt xs ys)

unfoldable pub precedes : Bytes × ℕ → Bytes × ℕ → Bool
unfolding bytes_lt
precedes (m, s) (n, t) = ltb s t || ((s == t) && bytes_lt m n)

unfoldable pub zscore : Bytes → ZSet → Option ℕ
zscore k [] = none
zscore k ((m, s) ∷ z) = if bytes_eq m k then some s else zscore k z

unfoldable pub zrem : Bytes → ZSet → ZSet
zrem k [] = []
zrem k ((m, s) ∷ z) = let rest = zrem k z in if bytes_eq m k then rest else (m, s) ∷ rest

unfoldable pub zinsert : Bytes → ℕ → ZSet → ZSet
unfolding precedes
zinsert k t [] = (k, t) ∷ []
zinsert k t ((m, s) ∷ z) =
    let rest = zinsert k t z in
    if precedes (k, t) (m, s) then (k, t) ∷ (m, s) ∷ z else (m, s) ∷ rest

unfoldable pub zadd : Bytes → ℕ → ZSet → ZSet
unfolding zrem zinsert
zadd k t z = zinsert k t (zrem k z)

-- `ZRANGEBYSCORE -inf now`.
unfoldable pub up_to : ℕ → ZSet → List Bytes
up_to now [] = []
up_to now ((m, s) ∷ z) = let rest = up_to now z in if leb s now then m ∷ rest else rest

abbrev pub has : Bytes → List Bytes → Bool
has k [] = false
has k (m ∷ ms) = if bytes_eq m k then true else has k ms

abbrev pub bytes_eq_iff : (xs ys : Bytes) → (bytes_eq xs ys ≡ true) ↔ (xs ≡ ys)
bytes_eq_iff xs ys = (bytes_eq→eq xs ys, λ e. rw e (bytes_eq_refl ys))

pub zscore-zrem :
    (k m : Bytes) (z : ZSet) → zscore k (zrem m z) ≡ (if bytes_eq m k then none else zscore k z)
unfolding zscore zrem
zscore-zrem k m [] = ground arith
zscore-zrem k m ((n, s) ∷ z) =
    ground (arith, zscore-zrem k m z, bytes_eq_iff n m, bytes_eq_iff n k, bytes_eq_iff m k)

zscore-zinsert :
    (k m : Bytes) (t : ℕ) (z : ZSet)
    → zscore m z ≡ none
    → zscore k (zinsert m t z) ≡ (if bytes_eq m k then some t else zscore k z)
unfolding zscore zinsert
zscore-zinsert k m t [] h = refl
zscore-zinsert k m t ((n, s) ∷ z) h =
    ground (arith, zscore-zinsert k m t z, bytes_eq_iff n m, bytes_eq_iff n k, bytes_eq_iff m k)

pub zscore-zrem_self : (m : Bytes) (z : ZSet) → zscore m (zrem m z) ≡ none
zscore-zrem_self m z = rw (zscore-zrem m m z, bytes_eq_refl m)

pub zscore-zadd :
    (k m : Bytes) (t : ℕ) (z : ZSet)
    → zscore k (zadd m t z) ≡ (if bytes_eq m k then some t else zscore k z)
unfolding zadd
zscore-zadd k m t z =
    ground (arith, zscore-zinsert k m t (zrem m z) (zscore-zrem_self m z), zscore-zrem k m z)

-- No member stands twice.
abbrev pub IsZSet : ZSet → Type 0
IsZSet [] = Unit
IsZSet ((m, s) ∷ z) = (zscore m z ≡ none) × IsZSet z

pub zrem-IsZSet : (k : Bytes) (z : ZSet) → IsZSet z → IsZSet (zrem k z)
unfolding zrem
zrem-IsZSet k [] h = tt
zrem-IsZSet k ((m, s) ∷ z) h = elim (Bool-cases (bytes_eq m k)) [
  | inl e ↦ rw e (zrem-IsZSet k z h.1)
  | inr e ↦ rw e (ground (arith, zscore-zrem m k z), zrem-IsZSet k z h.1)
]

zinsert-IsZSet :
    (k : Bytes) (t : ℕ) (z : ZSet) → zscore k z ≡ none → IsZSet z → IsZSet (zinsert k t z)
unfolding zinsert zscore
zinsert-IsZSet k t [] n h = (refl, tt)
zinsert-IsZSet k t ((m, s) ∷ z) n h = elim (Bool-cases (precedes (k, t) (m, s))) [
  | inl e ↦ rw e (n, h)
  | inr e ↦ rw e (
    ground (arith, zscore-zinsert m k t z, bytes_eq_iff m k, bytes_eq_iff k m),
    zinsert-IsZSet k t z (ground arith) h.1,
  )
]

pub zadd-IsZSet : (k : Bytes) (t : ℕ) (z : ZSet) → IsZSet z → IsZSet (zadd k t z)
unfolding zadd
zadd-IsZSet k t z h = zinsert-IsZSet k t (zrem k z) (zscore-zrem_self k z) (zrem-IsZSet k z h)

abbrev pub is_due : ℕ → Option ℕ → Bool
is_due now none = false
is_due now (some s) = leb s now

-- The members up to a score are those whose score is at most that.
pub has-up_to :
    (now : ℕ) (k : Bytes) (z : ZSet) → IsZSet z → has k (up_to now z) ≡ is_due now (zscore k z)
unfolding up_to zscore
has-up_to now k [] h = refl
has-up_to now k ((m, s) ∷ z) h = ground (arith, has-up_to now k z h.1, bytes_eq_iff m k)

pub has-take : (k : Bytes) (n : ℕ) (ms : List Bytes) → has k (take n ms) ≡ true → has k ms ≡ true
has-take k zero ms h = cc
has-take k (suc n) [] h = cc
has-take k (suc n) (m ∷ ms) h = ground (arith, has-take k n ms)
