-- ===== src/Transformer/Names.antt =====
-- internal/transformer/registry.go: what the registry holds after a load.
use howk.Prelude.{
  ℕ, ◌≤◌, ◌≡◌, ◌⊎◌, refl, sym, ap, subst, leb, ◌&&◌, ◌==◌, ◌∙◌, inl, inr, Bool, true, false, List,
  [], ◌∷◌, ◌++◌, Option, none, some, arith, All, if◌then◌else◌, Bool-cases,
}
use howk.Prelude.Text.{Bytes, codes, bytes_eq, bytes_eq→eq, has_suffix}
use howk.Redis.{empty_map}
use howk.Transformer.{
  TransformerScript, DirEntry, Listing, missing, unreadable, listed, Files, TransformerConfig,
  Registry, is_lower_digit, is_name_rest, is_script_name, load_passwd, passwd_dirs_of, load_script,
  without_lua, stored, load_entries, load_from_dir, load_dirs, load,
}
use howk.Transformer.Auth.{AuthConfig, parse_passwd}
use mathlib.Core.Option.{some-injective, none-ne-some}

-- A lower case letter or a digit; the rest of a name may have underscores and dashes too.
abbrev pub IsLowerDigit : ℕ → Type 0
IsLowerDigit x = ((b'a' ≤ x) × (x ≤ b'z')) ⊎ ((b'0' ≤ x) × (x ≤ b'9'))

abbrev pub IsPlainName : Bytes → Type 0
IsPlainName [] = ⊥
IsPlainName (x ∷ s) = IsLowerDigit x × All (λ y. IsLowerDigit y ⊎ (y ≡ b'_') ⊎ (y ≡ b'-')) s

is_lower_digit-IsLowerDigit : (x : ℕ) → is_lower_digit x ≡ true → IsLowerDigit x
is_lower_digit-IsLowerDigit x h = elim (Bool-cases (leb b'a' x && leb x b'z')) [
  | inl e ↦ inl (ground arith, ground arith)
  | inr e ↦ inr (ground arith, ground arith)
]

is_name_rest-plain :
    (s : Bytes) → is_name_rest s ≡ true → All (λ y. IsLowerDigit y ⊎ (y ≡ b'_') ⊎ (y ≡ b'-')) s
is_name_rest-plain [] h = tt
is_name_rest-plain (x ∷ s) h = (
  elim (Bool-cases (is_lower_digit x)) [
    | inl e ↦ inl (is_lower_digit-IsLowerDigit x e)
    | inr e ↦
        inr (elim (Bool-cases (x == b'_')) [
          | inl f ↦ inl (ground arith)
          | inr f ↦ inr (ground arith)
        ])
  ],
  is_name_rest-plain s (ground arith),
)

is_script_name-IsPlainName : (name : Bytes) → is_script_name name ≡ true → IsPlainName name
unfolding is_script_name
is_script_name-IsPlainName [] h = ground arith
is_script_name-IsPlainName (x ∷ s) h =
    (is_lower_digit-IsLowerDigit x (ground arith), is_name_rest-plain s (ground arith))

module _ (fs : Files) (c : TransformerConfig) where
  -- No passwd file of the directory gives credentials for the name.
  abbrev pub IsBroken : Bytes → Bytes → Type 0
  IsBroken name dir =
      (text : Bytes)
      → fs.read_file dir (name ++ codes ".passwd") ≡ some text
      → parse_passwd text ≡ none

  -- The credentials are those of the first directory whose passwd file for the name parses, and
  -- none if there is no such directory.
  abbrev pub Guards : Bytes → List Bytes → Option AuthConfig → Type 0
  Guards name dirs none = All (IsBroken name) dirs
  Guards name dirs (some a) =
      (before : List Bytes) × (dir : Bytes) × (after : List Bytes) × (text : Bytes) × (dirs
        ≡ before ++ dir ∷ after)
      × All (IsBroken name) before
      × (fs.read_file dir (name ++ codes ".passwd") ≡ some text)
      × (parse_passwd text ≡ some a)

  Guards-skip :
      (name dir : Bytes) (dirs : List Bytes) (o : Option AuthConfig)
      → IsBroken name dir
      → Guards name dirs o
      → Guards name (dir ∷ dirs) o
  Guards-skip name dir dirs none b g = (b, g)
  Guards-skip name dir dirs (some a) b (before, d, after, text, e, bs, r, q) =
      (dir ∷ before, d, after, text, ap (λ ds. dir ∷ ds) e, (b, bs), r, q)

  load_passwd-Guards :
      (name : Bytes) (dirs : List Bytes) → Guards name dirs (load_passwd fs dirs name)
  unfolding load_passwd
  load_passwd-Guards name [] = tt
  load_passwd-Guards name (d ∷ dirs) =
      read (fs.read_file d (name ++ codes ".passwd")) refl (load_passwd-Guards name dirs)
    where
      parsed :
          (text : Bytes) (p : Option AuthConfig)
          → fs.read_file d (name ++ codes ".passwd") ≡ some text
          → parse_passwd text ≡ p
          → Guards name dirs (load_passwd fs dirs name)
          → Guards name (d ∷ dirs) (elim p [ none ↦ load_passwd fs dirs name | some a ↦ some a ])
      parsed text none r q g =
          Guards-skip name d dirs (load_passwd fs dirs name)
            (λ t e. subst (λ x. parse_passwd x ≡ none) (some-injective _ _ (sym r ∙ e)) q) g
      parsed text (some a) r q g = ([], d, dirs, text, refl, tt, r, q)

      read :
          (o : Option Bytes)
          → fs.read_file d (name ++ codes ".passwd") ≡ o
          → Guards name dirs (load_passwd fs dirs name)
          → Guards name (d ∷ dirs) (elim o [
            | none ↦ load_passwd fs dirs name
            | some text ↦ elim (parse_passwd text) [
              | none ↦ load_passwd fs dirs name
              | some a ↦ some a
            ]
          ])
      read none r g =
          Guards-skip name d dirs (load_passwd fs dirs name)
            (λ t e. absurd (none-ne-some _ (sym r ∙ e))) g
      read (some text) r g = parsed text (parse_passwd text) r refl g

  -- A script stands under its own name, which is a valid one, with the credentials for it.
  pub record IsFiled (name : Bytes) (s : TransformerScript) : Type 0 where
    pub own : s.name ≡ name
    pub valid : IsPlainName name
    pub loaded : s.auth ≡ load_passwd fs (passwd_dirs_of c) name
    pub guarded : Guards name (passwd_dirs_of c) s.auth

  abbrev pub AreFiled : Registry → Type 0
  AreFiled r = (name : Bytes) (s : TransformerScript) → r name ≡ some s → IsFiled name s

  load_script-IsFiled :
      (dir name : Bytes) (s : TransformerScript)
      → is_script_name name ≡ true
      → load_script fs c dir name ≡ some s
      → IsFiled name s
  unfolding load_script
  load_script-IsFiled dir name s v e =
      let auth : s.auth ≡ load_passwd fs (passwd_dirs_of c) name = ground arith in
      record {
        own = ground arith;
        valid = is_script_name-IsPlainName name v;
        loaded = auth;
        guarded =
            subst (Guards name (passwd_dirs_of c)) (sym auth)
              (load_passwd-Guards name (passwd_dirs_of c));
      }

  stored-AreFiled :
      (name : Bytes) (o : Option TransformerScript) (r : Registry)
      → ((s : TransformerScript) → o ≡ some s → IsFiled name s)
      → AreFiled r
      → AreFiled (stored name o r)
  stored-AreFiled name none r h k n t e = k n t e
  stored-AreFiled name (some s) r h k n t e = elim (Bool-cases (bytes_eq name n)) [
    | inl y ↦
        subst (λ m. IsFiled m t) (bytes_eq→eq name n y)
          (subst (IsFiled name) (some-injective _ _ (rw y at e)) (h s refl))
    | inr y ↦ k n t (rw y at e)
  ]

  load_entries-AreFiled :
      (dir : Bytes) (es : List DirEntry) (r : Registry)
      → AreFiled r
      → AreFiled (load_entries fs c dir es r)
  unfolding load_entries
  load_entries-AreFiled dir [] r k = k
  load_entries-AreFiled dir ((file, is_dir) ∷ es) r k =
      load_entries-AreFiled dir es _
        (next is_dir (has_suffix file (codes ".lua")) (is_script_name (without_lua file)) refl)
    where
      next :
          (a b v : Bool)
          → is_script_name (without_lua file) ≡ v
          → AreFiled (
              if a
              then r
              else if b
              then (if v
                  then stored (without_lua file) (load_script fs c dir (without_lua file)) r
                  else r)
              else r)
      next true b v e = k
      next false false v e = k
      next false true false e = k
      next false true true e =
          stored-AreFiled (without_lua file) (load_script fs c dir (without_lua file)) r
            (λ s f. load_script-IsFiled dir (without_lua file) s e f) k

  load_from_dir-AreFiled :
      (dir : Bytes) (r : Registry) → AreFiled r → AreFiled (load_from_dir fs c dir r).1
  unfolding load_from_dir
  load_from_dir-AreFiled dir r k = go (fs.list_dir dir)
    where
      go :
          (l : Listing)
          → AreFiled
              (elim l as (λ _. Bool × Registry) [
                | missing ↦ (true, r)
                | unreadable ↦ (false, r)
                | listed es ↦ (true, load_entries fs c dir es r)
              ]).1
      go missing = k
      go unreadable = k
      go (listed es) = load_entries-AreFiled dir es r k

  load_dirs-AreFiled :
      (dirs : List Bytes) (r : Registry) → AreFiled r → AreFiled (load_dirs fs c dirs r).1
  unfolding load_dirs
  load_dirs-AreFiled [] r k = k
  load_dirs-AreFiled (d ∷ dirs) r k = load_dirs-AreFiled dirs _ (load_from_dir-AreFiled d r k)

  -- Whatever the directories hold, a script that is in the registry after a load stands under its own
  -- name; that name is not empty, consists of lower case letters, digits, dashes and underscores,
  -- and begins with a letter or a digit; and the script is guarded by the credentials of the first
  -- directory whose passwd file for it parses, and by none if there is no such directory.
  pub load-IsFiled :
      (name : Bytes) (s : TransformerScript) → (load fs c).1 name ≡ some s → IsFiled name s
  unfolding load
  load-IsFiled = load_dirs-AreFiled c.script_dirs empty_map (λ n s e. absurd (none-ne-some _ e))
