-- ===== src/Prelude/Decimal.antt =====
-- Decimal numbers in text: `strconv.Itoa`, `fmt.Sprintf("%d", …)` and `strconv.Atoi` of Go, with
-- the range of an `int`.
use howk.Prelude.Tests.{ltb, leb, ◌==◌, if◌then◌else◌, Bool-cases}
use howk.Prelude.Int.{ℤ, pos, negsuc, max_int64, pos_part, neg_part}
use howk.Prelude.Text.{Bytes}
use Prim.Native.Nat.{ℕ, zero, suc, ◌+◌, ◌-◌, ◌*◌, ◌/◌, ◌%◌, ◌≤◌, ◌<◌}
use mathlib.Core.Path.{◌≡◌, refl, ap, ◌∙◌}
use mathlib.Core.Logic.{◌≢◌, inl, inr}
use mathlib.Core.Bool.{Bool, true, false, ◌&&◌}
use mathlib.Core.Option.{Option, none, some}
use mathlib.Core.List.{List, [], ◌∷◌, ◌++◌}
use native.Mathlib.Omega.{arith}

-- The digits of a number, with more fuel than it has digits.
unfoldable digits_of : ℕ → ℕ → Bytes
digits_of zero n = []
digits_of (suc fuel) n =
    let rest = digits_of fuel (n / 10) in
    if ltb n 10 then (b'0' + n) ∷ [] else rest ++ (b'0' + n % 10) ∷ []

-- `Itoa`.
unfoldable pub itoa : ℤ → Bytes
unfolding digits_of
itoa (pos n) = digits_of (suc n) n
itoa (negsuc n) = b'-' ∷ digits_of (suc (suc n)) (suc n)

abbrev pub is_digit : ℕ → Bool
is_digit c = leb b'0' c && leb c b'9'

-- The value of the digits after those that make `acc`.
unfoldable value_of : ℕ → Bytes → Option ℕ
value_of acc [] = some acc
value_of acc (c ∷ cs) =
    let rest = value_of (acc * 10 + (c - b'0')) cs in if is_digit c then rest else none

-- At least one digit.
unfoldable number_of : Bytes → Option ℕ
unfolding value_of
number_of [] = none
number_of (c ∷ cs) = value_of 0 (c ∷ cs)

abbrev in_range : Bool → Option ℕ → Option ℤ
in_range negative none = none
in_range false (some n) = if leb n max_int64 then some (pos n) else none
in_range true (some zero) = some (pos 0)
in_range true (some (suc n)) = if leb n max_int64 then some (negsuc n) else none

-- `Atoi`: an optional sign and decimal digits; `none` is its error.
unfoldable pub atoi : Bytes → Option ℤ
unfolding number_of
atoi [] = none
atoi (c ∷ cs) =
    if c == b'-'
    then in_range true (number_of cs)
    else if c == b'+'
    then in_range false (number_of cs)
    else in_range false (number_of (c ∷ cs))

value_of-append :
    (acc n : ℕ) (xs ys : Bytes) → value_of acc xs ≡ some n → value_of acc (xs ++ ys) ≡ value_of n ys
unfolding value_of
value_of-append acc n [] ys h = ground arith
value_of-append acc n (c ∷ cs) ys h =
    ground (arith, value_of-append (acc * 10 + (c - b'0')) n cs ys)

value_of-digits_of : (fuel n : ℕ) → n < fuel → value_of 0 (digits_of fuel n) ≡ some n
unfolding digits_of
value_of-digits_of zero n h = absurd (omega arith)
value_of-digits_of (suc f) n h = elim (Bool-cases (ltb n 10)) [
  | inl e ↦ rw e (last n (ground arith))
  | inr e ↦ rw e (
      value_of-append 0 (n / 10) (digits_of f (n / 10)) _
        (value_of-digits_of f (n / 10) (ground arith))
      ∙ next n)
]
  where
    last : (m : ℕ) → m < 10 → value_of 0 ((b'0' + m) ∷ []) ≡ some m
    last m b = unfold value_of in ground arith

    next : (m : ℕ) → value_of (m / 10) ((b'0' + m % 10) ∷ []) ≡ some m
    next m = unfold value_of in ground arith

-- What `itoa` writes is a sign at most and digits.
abbrev pub AreDigits : Bytes → Type 0
AreDigits [] = Unit {0}
AreDigits (c ∷ cs) = (is_digit c ≡ true) × AreDigits cs

AreDigits-append : (xs ys : Bytes) → AreDigits xs → AreDigits ys → AreDigits (xs ++ ys)
AreDigits-append [] ys h k = k
AreDigits-append (x ∷ xs) ys h k = (h.0, AreDigits-append xs ys h.1 k)

digits_of-AreDigits : (fuel n : ℕ) → AreDigits (digits_of fuel n)
unfolding digits_of
digits_of-AreDigits zero n = tt
digits_of-AreDigits (suc f) n = elim (Bool-cases (ltb n 10)) [
  | inl e ↦ rw e (ground arith, tt)
  | inr e ↦ rw e (
      AreDigits-append (digits_of f (n / 10)) _ (digits_of-AreDigits f (n / 10)) (ground arith, tt))
]

-- Text that `number_of` reads begins with a digit.
atoi_digits :
    (s : Bytes) (n : ℕ)
    → AreDigits s
    → value_of 0 s ≡ some n
    → s ≢ []
    → n ≤ max_int64
    → atoi s ≡ some (pos n)
unfolding atoi
atoi_digits [] n d v e b = absurd (e refl)
atoi_digits (c ∷ cs) n d v e b = ground arith

digits_of-ne : (fuel n : ℕ) → digits_of (suc fuel) n ≢ []
unfolding digits_of
digits_of-ne fuel n h = elim (Bool-cases (ltb n 10)) [
  | inl e ↦ ground arith
  | inr e ↦ go (digits_of fuel (n / 10)) (rw e at h)
]
  where
    go : (xs : Bytes) → xs ++ (b'0' + n % 10) ∷ [] ≡ [] → ⊥
    go [] e = cc
    go (x ∷ xs) e = cc

number_of_digits : (s : Bytes) (n : ℕ) → value_of 0 s ≡ some n → s ≢ [] → number_of s ≡ some n
unfolding number_of
number_of_digits [] n v e = absurd (e refl)
number_of_digits (c ∷ cs) n v e = v

-- `Atoi` reads back what `Itoa` writes, for each `int`.
pub atoi-itoa :
    (a : ℤ) → pos_part a ≤ max_int64 → neg_part a ≤ max_int64 + 1 → atoi (itoa a) ≡ some a
unfolding itoa
atoi-itoa (pos n) h k =
    atoi_digits (digits_of (suc n) n) n (digits_of-AreDigits (suc n) n)
      (value_of-digits_of (suc n) n (omega arith)) (digits_of-ne n n) h
atoi-itoa (negsuc n) h k =
    unfold atoi in
    rw
      (number_of_digits (digits_of (suc (suc n)) (suc n)) (suc n)
        (value_of-digits_of (suc (suc n)) (suc n) (omega arith)) (digits_of-ne (suc n) (suc n)))
      (ground arith)

-- No colon stands in the text.
abbrev pub NoColon : Bytes → Type 0
NoColon [] = Unit {0}
NoColon (c ∷ cs) = (c ≢ b':') × NoColon cs

digits-NoColon : (s : Bytes) → AreDigits s → NoColon s
digits-NoColon [] d = tt
digits-NoColon (c ∷ cs) d = (ground arith, digits-NoColon cs d.1)

pub itoa-NoColon : (a : ℤ) → NoColon (itoa a)
unfolding itoa
itoa-NoColon (pos n) = digits-NoColon _ (digits_of-AreDigits (suc n) n)
itoa-NoColon (negsuc n) =
    (omega arith, digits-NoColon _ (digits_of-AreDigits (suc (suc n)) (suc n)))

-- A byte before the first part.
abbrev onto : ℕ → List Bytes → List Bytes
onto c [] = (c ∷ []) ∷ []
onto c (p ∷ ps) = (c ∷ p) ∷ ps

-- `strings.Split(s, ":")`.
unfoldable pub split_colon : Bytes → List Bytes
split_colon [] = [] ∷ []
split_colon (c ∷ s) = if c == b':' then [] ∷ split_colon s else onto c (split_colon s)

pub split_colon_none : (s : Bytes) → NoColon s → split_colon s ≡ s ∷ []
unfolding split_colon
split_colon_none [] h = refl
split_colon_none (c ∷ s) h = ground (arith, split_colon_none s h.1)

pub split_colon_once :
    (s t : Bytes) → NoColon s → NoColon t → split_colon (s ++ b':' ∷ t) ≡ s ∷ t ∷ []
unfolding split_colon
split_colon_once [] t h k = ap (◌∷◌ []) (split_colon_none t k)
split_colon_once (c ∷ s) t h k = ground (arith, split_colon_once s t h.1 k)
