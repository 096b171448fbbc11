-- ===== src/Domain/Matching.antt =====
-- internal/domain/types.go: `MatchesDomain`, the rule of the HTTP module's allowlist and of the
-- transformers' domain lists. Host names and patterns are ASCII.
use howk.Prelude.{
  ◌≡◌, refl, sym, ap, ◌∙◌, ◌↔◌, ◌⊎◌, any, List, Bool, true, ◌&&◌, ◌||◌, [], ◌∷◌, ◌++◌, Option, none,
  some, arith, ◌==◌, if◌then◌else◌, Bool-cases, inl, inr,
}
use howk.Prelude.Text.{
  Bytes, codes, lower, to_lower, equal_fold, bytes_eq, bytes_eq→eq, bytes_eq_refl, has_suffix,
  has_suffix→split, has_suffix-append,
}

-- What follows a leading "*.", if the pattern has one.
unfoldable pub after_wildcard : Bytes → Option Bytes
after_wildcard [] = none
after_wildcard (a ∷ []) = none
after_wildcard (a ∷ b ∷ d) = if (a == b'*') && (b == b'.') then some d else none

unfoldable pub matches_domain : Bytes → Bytes → Bool
matches_domain host pattern =
    if bytes_eq pattern (codes "*") then true else elim (after_wildcard pattern) [
      | some d ↦ equal_fold host d || has_suffix (to_lower host) (to_lower (b'.' ∷ d))
      | none ↦ equal_fold host pattern
    ]

-- The host is the domain or lies below it, up to the case of the letters.
abbrev pub IsUnder : Bytes → Bytes → Type 0
IsUnder host d =
    (to_lower host ≡ to_lower d) ⊎ ((r : Bytes) × (to_lower host ≡ r ++ b'.' ∷ to_lower d))

abbrev pub Matches : Bytes → Bytes → Type 0
Matches host pattern =
    (pattern ≡ codes "*")
    ⊎ (to_lower host ≡ to_lower pattern)
    ⊎ ((d : Bytes) × (pattern ≡ b'*' ∷ b'.' ∷ d) × IsUnder host d)

after_wildcard→eq : (p d : Bytes) → after_wildcard p ≡ some d → p ≡ b'*' ∷ b'.' ∷ d
unfolding after_wildcard
after_wildcard→eq [] d h = ground arith
after_wildcard→eq (a ∷ []) d h = ground arith
after_wildcard→eq (a ∷ b ∷ r) d h = ground arith

eq_of_fold : (s t : Bytes) → to_lower s ≡ to_lower t → equal_fold s t ≡ true
eq_of_fold s t e = rw e (bytes_eq_refl (to_lower t))

suffix_of_split : (s r t : Bytes) → s ≡ r ++ t → has_suffix s t ≡ true
suffix_of_split s r t e = rw e (has_suffix-append r t)

lower_dot : (d : Bytes) → to_lower (b'.' ∷ d) ≡ b'.' ∷ to_lower d
unfolding lower
lower_dot d = refl

lower_star : (d : Bytes) → to_lower (b'*' ∷ b'.' ∷ d) ≡ (b'*' ∷ []) ++ to_lower (b'.' ∷ d)
unfolding lower
lower_star d = refl

IsUnder-sound :
    (host d : Bytes)
    → (equal_fold host d || has_suffix (to_lower host) (to_lower (b'.' ∷ d))) ≡ true
    → IsUnder host d
IsUnder-sound host d h = elim (Bool-cases (equal_fold host d)) [
  | inl e ↦ inl (bytes_eq→eq (to_lower host) (to_lower d) e)
  | inr e ↦
      let (r, p) = has_suffix→split (to_lower host) (to_lower (b'.' ∷ d)) (ground arith) in
      inr (r, p ∙ ap (◌++◌ r) (lower_dot d))
]

IsUnder-complete :
    (host d : Bytes)
    → IsUnder host d
    → (equal_fold host d || has_suffix (to_lower host) (to_lower (b'.' ∷ d))) ≡ true
IsUnder-complete host d (inl e) = ground (arith, eq_of_fold host d e)
IsUnder-complete host d (inr (r, e)) = ground (
  arith,
  suffix_of_split (to_lower host) r (to_lower (b'.' ∷ d)) (e ∙ ap (◌++◌ r) (sym (lower_dot d))),
)

Matches-sound : (host p : Bytes) → matches_domain host p ≡ true → Matches host p
unfolding matches_domain
Matches-sound host p h = elim (Bool-cases (bytes_eq p (codes "*"))) [
  | inl e ↦ inl (bytes_eq→eq p (codes "*") e)
  | inr e ↦ go (after_wildcard p) refl (rw e at h)
]
  where
    go :
        (o : Option Bytes)
        → after_wildcard p ≡ o
        → elim (after_wildcard p) [
          | some d ↦ equal_fold host d || has_suffix (to_lower host) (to_lower (b'.' ∷ d))
          | none ↦ equal_fold host p
        ]
          ≡ true
        → Matches host p
    go none e q = inr (inl (bytes_eq→eq (to_lower host) (to_lower p) (rw e at q)))
    go (some d) e q = inr (inr (d, after_wildcard→eq p d e, IsUnder-sound host d (rw e at q)))

Matches-complete : (host p : Bytes) → Matches host p → matches_domain host p ≡ true
unfolding matches_domain after_wildcard
Matches-complete host p (inl e) = rw (e, bytes_eq_refl (codes "*"))
Matches-complete host p (inr (inl e)) = elim (Bool-cases (bytes_eq p (codes "*"))) [
  | inl star ↦ rw star
  | inr other ↦ rw other (go (after_wildcard p) refl)
]
  where
    go :
        (o : Option Bytes)
        → after_wildcard p ≡ o
        → elim o [
          | some d ↦ equal_fold host d || has_suffix (to_lower host) (to_lower (b'.' ∷ d))
          | none ↦ equal_fold host p
        ]
          ≡ true
    go none q = eq_of_fold host p e
    go (some d) q = ground (
      arith,
      suffix_of_split (to_lower host) (b'*' ∷ []) (to_lower (b'.' ∷ d))
          (e ∙ ap to_lower (after_wildcard→eq p d q) ∙ lower_star d),
    )
Matches-complete host p (inr (inr (d, e, u))) = rw e (IsUnder-complete host d u)

-- A host passes exactly if the pattern is "*", or it is the pattern up to the case of its letters,
-- or the pattern is "*." and a domain, and the host is that domain or ends in a dot and it.
pub matches_domain_iff : (host p : Bytes) → (matches_domain host p ≡ true) ↔ Matches host p
matches_domain_iff host p = (Matches-sound host p, Matches-complete host p)

-- Some pattern of the list lets the host pass.
abbrev pub HasMatch : Bytes → List Bytes → Type 0
HasMatch host [] = ⊥
HasMatch host (p ∷ ps) = Matches host p ⊎ HasMatch host ps

pub any-HasMatch :
    (host : Bytes) (ps : List Bytes) → any (matches_domain host) ps ≡ true → HasMatch host ps
any-HasMatch host [] h = ground arith
any-HasMatch host (p ∷ ps) h = elim (Bool-cases (matches_domain host p)) [
  | inl e ↦ inl ((matches_domain_iff host p).0 e)
  | inr e ↦ inr (any-HasMatch host ps (ground arith))
]
