-- ===== src/Transformer/Auth.antt =====
-- internal/transformer/auth.go: the passwd file of a transformer script, and the check of credentials.
-- `bcrypt password hash` is `bcrypt.CompareHashAndPassword`. The files are ASCII.
use howk.Prelude.{ℕ, Bool, false, ◌||◌, List, [], ◌∷◌, Option, none, some, ◌==◌, if◌then◌else◌}
use howk.Prelude.Text.{Bytes, codes, bytes_eq, trim_space, has_prefix}
use howk.Domain.Headers.{get}
use howk.Domain.Entries.{set_entry}

pub record AuthConfig : Type 0 where
  pub credentials : List (Bytes × Bytes)

abbrev onto_first : ℕ → List Bytes → List Bytes
onto_first c [] = (c ∷ []) ∷ []
onto_first c (l ∷ ls) = (c ∷ l) ∷ ls

-- `strings.Split(s, "\n")`.
unfoldable pub split_lines : Bytes → List Bytes
split_lines [] = [] ∷ []
split_lines (c ∷ s) = if c == 10 then [] ∷ split_lines s else onto_first c (split_lines s)

-- `strings.SplitN(line, ":", 2)`, if it has two parts.
unfoldable pub split_once : Bytes → Option (Bytes × Bytes)
split_once [] = none
split_once (c ∷ s) =
    let rest = split_once s in
    if c == b':' then some ([], s) else elim rest [ none ↦ none | some p ↦ some (c ∷ p.0, p.1) ]

pub data Line : Type 0 where
  skipped : Line
  malformed : Line
  credential : Bytes → Bytes → Line

-- A line after its white space has been trimmed.
unfoldable pub parse_line : Bytes → Line
unfolding split_once
parse_line [] = skipped
parse_line (c ∷ s) = if c == b'#' then skipped else elim (split_once (c ∷ s)) [
  | none ↦ malformed
  | some p ↦ elim (trim_space p.0) [ [] ↦ malformed | d ∷ u ↦ credential (d ∷ u) p.1 ]
]

-- The loop over the lines; `none` is an error.
unfoldable pub parse_lines : List Bytes → List (Bytes × Bytes) → Option (List (Bytes × Bytes))
unfolding parse_line
parse_lines [] acc = some acc
parse_lines (l ∷ ls) acc = elim (parse_line (trim_space l)) [
  | skipped ↦ parse_lines ls acc
  | malformed ↦ none
  | credential u p ↦ parse_lines ls (set_entry acc (u, p))
]

unfoldable pub parse_passwd : Bytes → Option AuthConfig
unfolding parse_lines split_lines
parse_passwd text = elim (parse_lines (split_lines text) []) [
  | none ↦ none
  | some cs ↦ elim cs [ [] ↦ none | c ∷ rest ↦ some (record { credentials = c ∷ rest }) ]
]

unfoldable pub is_bcrypt_hash : Bytes → Bool
is_bcrypt_hash s = has_prefix s (codes "$2a$") || has_prefix s (codes "$2b$")

-- `Check`.
unfoldable pub check : (Bytes → Bytes → Bool) → AuthConfig → Bytes → Bytes → Bool
unfolding is_bcrypt_hash
check bcrypt a username password = elim (get username a.credentials) [
  | none ↦ false
  | some kept ↦ if is_bcrypt_hash kept then bcrypt password kept else bytes_eq kept password
]
