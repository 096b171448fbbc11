-- ===== src/Retry/Delay.antt =====
-- internal/retry/strategy.go: how long a retry waits.
use native.Mathlib.Nat.{
  mul-le-mul_left, mul-le-mul_right, le_of_mul-le-mul_right, lt_of_mul-lt-mul_right, mul-sub,
  mul-add, mul_assoc, mul-pos, pow-le-pow_right,
}
use Prim.Native.Nat.{min}
use howk.Prelude.{ap, ◌==◌, ℕ, ◌+◌, ◌-◌, ◌*◌, ◌/◌, ◌≤◌, ◌<◌, ◌≡◌, refl, arith, Bool-cases, inl, inr}
use howk.Prelude.Int.{ℤ, pos}
use howk.Domain.{CircuitState, closed}
use howk.Retry.{RetryConfig, Fraction, backoff, base_delay_for, cap_delay, add_jitter, next_delay}

pub record IsProper (f : Fraction) : Type 0 where
  pub at_most_one : f.num ≤ f.den
  pub den_pos : 0 < f.den

-- The bounds of the division by which the jittered delay is truncated.
scaled_div :
    (x q lo hi r : ℕ) → 0 < q → lo ≤ x → x ≤ hi → x / q ≡ r → (lo < (r + 1) * q) × (r * q ≤ hi)
scaled_div x q lo hi r p a b e = (grind arith, grind arith)

-- The jitter's numerator between its extremes, for u = d · jd and v = d · jn.
numerator_bounds :
    (u v rn rd : ℕ)
    → v ≤ u
    → rn ≤ rd
    → ((u - v) * rd ≤ u * rd + 2 * (v * rn) - v * rd)
      × (u * rd + 2 * (v * rn) - v * rd ≤ (u + v) * rd)
numerator_bounds u v rn rd h k =
    let a : v * rd ≤ u * rd = mul-le-mul_right rd h in
    let b : v * rn ≤ v * rd = mul-le-mul_left v k in
    (omega (arith, mul-sub rd u v, a, b), omega (arith, a, b))

-- The jittered value lies between d (1 - j) and d (1 + j), up to the truncation.
jitter_bounds :
    (d jn jd rn rd : ℕ)
    → 0 < jd
    → 0 < rd
    → jn ≤ jd
    → rn ≤ rd
    → let r = (d * jd * rd + 2 * (d * jn * rn) - d * jn * rd) / (jd * rd) in
      (d * (jd - jn) < (r + 1) * jd) × (r * jd ≤ d * (jd + jn))
jitter_bounds d jn jd rn rd a b c e =
    let (lo, hi) = numerator_bounds (d * jd) (d * jn) rn rd (mul-le-mul_left d c) e in
    let (x, y) = scaled_div _ (jd * rd) _ _ _ (mul-pos a b) lo hi refl in
    (
      rw (mul-sub d jd jn) (lt_of_mul-lt-mul_right rd (rw mul_assoc x)),
      rw (mul-add d jd jn) (le_of_mul-le-mul_right {k = rd} (rw mul_assoc y) b),
    )

jitter_zero : (d jd : ℕ) → 0 < jd → (d * (jd - 0) < (d + 1) * jd) × (d * jd ≤ d * (jd + 0))
jitter_zero d jd h = (grind arith, grind arith)

add_jitter_bounds :
    (c : RetryConfig) (r : Fraction) (d : ℕ)
    → IsProper c.jitter
    → IsProper r
    → (d * (c.jitter.den - c.jitter.num) < (add_jitter c r d + 1) * c.jitter.den)
      × (add_jitter c r d * c.jitter.den ≤ d * (c.jitter.den + c.jitter.num))
unfolding add_jitter
add_jitter_bounds c r d p q = elim (Bool-cases (c.jitter.num == 0)) [
  | inl z ↦ rw z (go c.jitter.num (ground arith))
  | inr n ↦ rw n (
      jitter_bounds d c.jitter.num c.jitter.den r.num r.den p.den_pos q.den_pos p.at_most_one
        q.at_most_one)
]
  where
    go :
        (k : ℕ)
        → k ≡ 0
        → (d * (c.jitter.den - k) < (d + 1) * c.jitter.den)
          × (d * c.jitter.den ≤ d * (c.jitter.den + k))
    go k e = rw e (jitter_zero d c.jitter.den p.den_pos)

-- Without jitter no delay exceeds `MaxDelay`; with a jitter of at most 1 the delay is at most that
-- share above, and at most that share below, the capped delay of the circuit's state.
pub next_delay_bounds :
    (c : RetryConfig) (r : Fraction) (attempt : ℤ) (state : CircuitState)
    → IsProper c.jitter
    → IsProper r
    → let d = cap_delay c (base_delay_for c attempt state) in
      let delay = next_delay c r attempt state in
      (d ≤ c.max_delay)
      × (d * (c.jitter.den - c.jitter.num) < (delay + 1) * c.jitter.den)
      × (delay * c.jitter.den ≤ d * (c.jitter.den + c.jitter.num))
unfolding next_delay
next_delay_bounds c r attempt state p q =
    let d = cap_delay c (base_delay_for c attempt state) in
    let (lo, hi) = add_jitter_bounds c r d p q in (unfold cap_delay in ground arith, lo, hi)

cap_delay_mono : (c : RetryConfig) (a b : ℕ) → a ≤ b → cap_delay c a ≤ cap_delay c b
unfolding cap_delay
cap_delay_mono c a b h = ground arith

backoff_mono : (base m n : ℕ) → m ≤ n → backoff base (pos m) ≤ backoff base (pos n)
unfolding backoff
backoff_mono base m n h =
    mul-le-mul_left base (pow-le-pow_right {n = 2} (omega arith) {i = min m 10} (omega arith))

backoff_flat : (base m : ℕ) → backoff base (pos (10 + m)) ≡ backoff base (pos 10)
unfolding backoff
backoff_flat base m = let e : min (10 + m) 10 ≡ 10 = omega arith in rw e

-- While the circuit is closed the delay before jitter never falls from one attempt to the next,
-- and from the tenth attempt on it stays the same.
closed_delay_mono :
    (c : RetryConfig) (m n : ℕ)
    → m ≤ n
    → let delay = λ (k : ℕ). cap_delay c (base_delay_for c (pos k) closed) in
      (delay m ≤ delay n) × (delay (10 + m) ≡ delay 10)
unfolding base_delay_for
closed_delay_mono c m n h = (
  cap_delay_mono c _ _ (backoff_mono c.base_delay m n h),
  ap (cap_delay c) (backoff_flat c.base_delay m),
)
