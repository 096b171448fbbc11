-- ===== src/Delivery/Expand.antt =====
-- `os.Expand` of Go, as internal/delivery/overrides.go and internal/transformer/engine.go use it.
use howk.Prelude.{
  ℕ, zero, suc, ◌≡◌, ◌≢◌, refl, Bool, ◌&&◌, ◌||◌, [], ◌∷◌, ◌++◌, Option, none, some, arith, leb,
  ◌==◌, if◌then◌else◌, ap, ◌∙◌, length,
}
use howk.Prelude.Text.{Bytes}

-- The parameters of one character: `*#$@!?-` and the digits.
abbrev is_special : ℕ → Bool
is_special c =
    (c == b'*')
    || (c == b'#')
    || (c == b'$')
    || (c == b'@')
    || (c == b'!')
    || (c == b'?')
    || (c == b'-')
    || (leb b'0' c && leb c b'9')

abbrev is_name_byte : ℕ → Bool
is_name_byte c =
    (c == b'_')
    || (leb b'0' c && leb c b'9')
    || (leb b'a' c && leb c b'z')
    || (leb b'A' c && leb c b'Z')

-- What stands before the first closing brace, if there is one.
abbrev before_brace : Bytes → Option Bytes
before_brace [] = none
before_brace (c ∷ s) =
    let rest = before_brace s in
    if c == b'}' then some [] else elim rest [ none ↦ none | some r ↦ some (c ∷ r) ]

abbrev name_prefix : Bytes → Bytes
name_prefix [] = []
name_prefix (c ∷ s) = let rest = name_prefix s in if is_name_byte c then c ∷ rest else []

-- After an opening brace: the name, and how many bytes it takes with the braces.
abbrev braced : Option Bytes → Bytes × ℕ
braced none = ([], 1)
braced (some []) = ([], 2)
braced (some (c ∷ name)) = (c ∷ name, suc (suc (suc (length name))))

-- The name at the start of what follows a dollar sign, and how many bytes it takes.
unfoldable shell_name : Bytes → Bytes × ℕ
shell_name [] = ([], 0)
shell_name (c ∷ s) =
    if c == b'{'
    then braced (before_brace s)
    else if is_special c
    then (c ∷ [], 1)
    else (name_prefix (c ∷ s), length (name_prefix (c ∷ s)))

-- What a reference becomes; a dollar sign with no name stays, and bad braces go.
abbrev piece : (Bytes → Bytes) → Bytes → ℕ → Bytes
piece env [] zero = b'$' ∷ []
piece env [] (suc w) = []
piece env (c ∷ name) w = env (c ∷ name)

-- The loop, which has that many bytes of a reference left to skip.
unfoldable expand_from : (Bytes → Bytes) → ℕ → Bytes → Bytes
unfolding shell_name
expand_from env n [] = []
expand_from env (suc n) (c ∷ s) = expand_from env n s
expand_from env zero (c ∷ []) = c ∷ []
expand_from env zero (c ∷ d ∷ s) =
    let rest = expand_from env zero (d ∷ s) in
    let (name, w) = shell_name (d ∷ s) in
    let skipped = expand_from env w (d ∷ s) in
    if c == b'$' then piece env name w ++ skipped else c ∷ rest

unfoldable pub expand : (Bytes → Bytes) → Bytes → Bytes
unfolding expand_from
expand env s = expand_from env zero s

-- Neither byte stands in the text.
abbrev pub Lacks : ℕ → Bytes → Type 0
Lacks b [] = Unit {0}
Lacks b (c ∷ s) = (c ≢ b) × Lacks b s

-- Text without a dollar sign is its own expansion, before whatever follows it.
expand-plain :
    (env : Bytes → Bytes) (s t : Bytes)
    → Lacks b'$' s
    → expand_from env zero (s ++ t) ≡ s ++ expand_from env zero t
unfolding expand_from
expand-plain env [] t h = refl
expand-plain env (c ∷ []) [] h = refl
expand-plain env (c ∷ []) (d ∷ t) h = ground (arith, h.0)
expand-plain env (c ∷ d ∷ s) t h = ground (arith, h.0, expand-plain env (d ∷ s) t h.1)

expand-skip :
    (env : Bytes → Bytes) (s t : Bytes)
    → expand_from env (length s) (s ++ t) ≡ expand_from env zero t
unfolding expand_from
expand-skip env [] t = refl
expand-skip env (c ∷ s) t = expand-skip env s t

before_brace-append :
    (name t : Bytes) → Lacks b'}' name → before_brace (name ++ (b'}' ∷ t)) ≡ some name
before_brace-append [] t h = refl
before_brace-append (c ∷ name) t h = ground (arith, h.0, before_brace-append name t h.1)

expand-reference :
    (env : Bytes → Bytes) (c : ℕ) (name t : Bytes)
    → Lacks b'}' (c ∷ name)
    → expand_from env zero (b'$' ∷ b'{' ∷ ((c ∷ name) ++ (b'}' ∷ t)))
      ≡ env (c ∷ name) ++ expand_from env zero t
unfolding expand_from shell_name
expand-reference env c name t h =
    rw (before_brace-append (c ∷ name) t h) (ap (λ r. env (c ∷ name) ++ r) (skip name t))
  where
    skip :
        (s t : Bytes) → expand_from env (suc (length s)) (s ++ (b'}' ∷ t)) ≡ expand_from env zero t
    skip [] t = refl
    skip (d ∷ s) t = skip s t

-- The expansion of a template puts the variable's value in place of a reference `${NAME}`, wherever
-- the reference stands after text without a dollar sign, and expands what follows it.
expand_template :
    (env : Bytes → Bytes) (s : Bytes) (c : ℕ) (name t : Bytes)
    → Lacks b'$' s
    → Lacks b'}' (c ∷ name)
    → expand env (s ++ (b'$' ∷ b'{' ∷ ((c ∷ name) ++ (b'}' ∷ t))))
      ≡ s ++ (env (c ∷ name) ++ expand env t)
unfolding expand
expand_template env s c name t h k =
    expand-plain env s _ h ∙ ap (λ r. s ++ r) (expand-reference env c name t k)
