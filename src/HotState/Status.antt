-- ===== src/HotState/Status.antt =====
-- internal/hotstate/redis.go: two writes of the status of a webhook.
use howk.Prelude.{
  ℕ, ◌+◌, ◌≤◌, ◌<◌, ◌≡◌, ◌≢◌, ◌⊎◌, List, [], ◌∷◌, All, refl, sym, ap, subst, inl, inr, Option, some,
  ◌∙◌, Bool, true, false, arith, ltb, if◌then◌else◌, Bool-cases,
}
use howk.Prelude.Text.{Bytes, bytes_eq, bytes_eq_refl, bytes_eq→eq}
use howk.Domain.{WebhookStatus}
use howk.Redis.{Entry, live}
use howk.HotState.{Store, StatusHash, TtlConfig, lua_number, set_if_later, stored_ts}

abbrev cell : TtlConfig → WebhookStatus → ℕ → ℕ → Option (Entry StatusHash)
cell c st x now =
    some (record { value = record { status = st; ts = x }; expires = some (now + c.status_ttl) })

abbrev merged :
    TtlConfig → WebhookStatus → ℕ → ℕ → Option (Entry StatusHash) → Option (Entry StatusHash)
merged c st x now o = if ltb (stored_ts (live now o)) x then cell c st x now else o

statuses-set :
    (c : TtlConfig) (st : WebhookStatus) (now : ℕ) (s : Store) (k : Bytes)
    → (set_if_later c st now s).statuses k ≡ (
        if bytes_eq st.webhook_id k
        then merged c st (lua_number st.updated_at_ns) now (s.statuses st.webhook_id)
        else s.statuses k)
unfolding set_if_later
statuses-set c st now s k = elim (Bool-cases (bytes_eq st.webhook_id k)) [
  | inl e ↦
      let p = bytes_eq→eq st.webhook_id k e in
      rw e
        (elim (Bool-cases
          (ltb (stored_ts (live now (s.statuses st.webhook_id))) (lua_number st.updated_at_ns))) [
            | inl t ↦ rw (t, e)
            | inr t ↦ rw t (ap s.statuses (sym p))
          ])
  | inr e ↦
      rw e
        (elim (Bool-cases
          (ltb (stored_ts (live now (s.statuses st.webhook_id))) (lua_number st.updated_at_ns))) [
            | inl t ↦ rw (t, e)
            | inr t ↦ rw t
          ])
]

merged_comm :
    (c : TtlConfig) (a b : WebhookStatus) (x y now : ℕ) (o : Option (Entry StatusHash))
    → 0 < c.status_ttl
    → x ≢ y
    → merged c a x now (merged c b y now o) ≡ merged c b y now (merged c a x now o)
merged_comm c a b x y now o h n = go (stored_ts (live now o)) refl
  where
    live_cell : (st : WebhookStatus) (z : ℕ) → stored_ts (live now (cell c st z now)) ≡ z
    live_cell st z = ground arith

    go :
        (t : ℕ)
        → stored_ts (live now o) ≡ t
        → merged c a x now (merged c b y now o) ≡ merged c b y now (merged c a x now o)
    go t e = ground (arith, live_cell a x, live_cell b y)

-- Two writes of one webhook's status with timestamps that Redis tells apart leave the same status
-- in whichever order they arrive at that time.
status_order :
    (c : TtlConfig) (a b : WebhookStatus) (now : ℕ) (s : Store) (k : Bytes)
    → 0 < c.status_ttl
    → a.webhook_id ≡ b.webhook_id
    → lua_number a.updated_at_ns ≢ lua_number b.updated_at_ns
    → (set_if_later c a now (set_if_later c b now s)).statuses k
      ≡ (set_if_later c b now (set_if_later c a now s)).statuses k
status_order c a b now s k h e n =
    let x = lua_number a.updated_at_ns in
    let y = lua_number b.updated_at_ns in
    rw
      (
        statuses-set c a now (set_if_later c b now s) k,
        statuses-set c b now (set_if_later c a now s) k,
        statuses-set c b now s a.webhook_id,
        statuses-set c a now s b.webhook_id,
        statuses-set c a now s k,
        statuses-set c b now s k,
        ← e,
        bytes_eq_refl a.webhook_id,
      )
      (elim (Bool-cases (bytes_eq a.webhook_id k)) [
        | inl t ↦ rw t (
            merged_comm c a (record b { webhook_id = a.webhook_id }) x y now
              (s.statuses a.webhook_id) h n)
        | inr t ↦ rw t
      ])

-- Writes that reach Redis at one time, the latest first.
abbrev pub set_all : TtlConfig → List WebhookStatus → ℕ → Store → Store
set_all c [] now s = s
set_all c (st ∷ sts) now s = set_if_later c st now (set_all c sts now s)

-- What is kept is what one of the writes wrote.
abbrev IsOneOf : TtlConfig → List WebhookStatus → ℕ → Option (Entry StatusHash) → Type 0
IsOneOf c [] now o = ⊥
IsOneOf c (st ∷ sts) now o = (o ≡ cell c st (lua_number st.updated_at_ns) now) ⊎ IsOneOf c sts now o

-- What the hash of a webhook holds after these writes, if it held `old` before.
pub record LastWins (c : TtlConfig) (sts : List WebhookStatus) (now : ℕ)
    (old new : Option (Entry StatusHash)) : Type 0 where
  pub written : (new ≡ old) ⊎ IsOneOf c sts now new
  pub not_older : stored_ts (live now old) ≤ stored_ts (live now new)
  pub latest : All (λ st. lua_number st.updated_at_ns ≤ stored_ts (live now new)) sts

merged-LastWins :
    (c : TtlConfig) (st : WebhookStatus) (sts : List WebhookStatus) (now : ℕ)
    (old new : Option (Entry StatusHash))
    → 0 < c.status_ttl
    → LastWins c sts now old new
    → LastWins c (st ∷ sts) now old (merged c st (lua_number st.updated_at_ns) now new)
merged-LastWins c st sts now old new p h =
    go (ltb (stored_ts (live now new)) (lua_number st.updated_at_ns)) refl
  where
    x : ℕ
    x = lua_number st.updated_at_ns

    own : stored_ts (live now (cell c st x now)) ≡ x
    own = ground arith

    below :
        (m n : ℕ) (ts : List WebhookStatus)
        → m ≤ n
        → All (λ u. lua_number u.updated_at_ns ≤ m) ts
        → All (λ u. lua_number u.updated_at_ns ≤ n) ts
    below m n [] l a = tt
    below m n (u ∷ ts) l a = (omega (arith, a.0), below m n ts l a.1)

    go :
        (b : Bool)
        → ltb (stored_ts (live now new)) x ≡ b
        → LastWins c (st ∷ sts) now old (if b then cell c st x now else new)
    go true e = record {
      written = inr (inl refl);
      not_older = subst (λ y. stored_ts (live now old) ≤ y) (sym own) (ground (arith, h.not_older));
      latest =
          subst (λ y. All (λ u. lua_number u.updated_at_ns ≤ y) (st ∷ sts)) (sym own)
            (omega arith, below (stored_ts (live now new)) x sts (ground arith) h.latest);
    }
    go false e = record {
      written = elim h.written [ inl o ↦ inl o | inr o ↦ inr (inr o) ];
      not_older = h.not_older;
      latest = (ground arith, h.latest);
    }

set_own :
    (c : TtlConfig) (st : WebhookStatus) (now : ℕ) (s : Store)
    → (set_if_later c st now s).statuses st.webhook_id
      ≡ merged c st (lua_number st.updated_at_ns) now (s.statuses st.webhook_id)
set_own c st now s = statuses-set c st now s st.webhook_id ∙ rw (bytes_eq_refl st.webhook_id) refl

-- After writes of the status of a webhook that reach Redis at one time, in whatever order, the hash
-- holds one of them or what it held before, and nothing that was written or held before has a later
-- timestamp, as the script reads timestamps. A hash that has run out counts as timestamp zero.
pub last_write_wins :
    (c : TtlConfig) (sts : List WebhookStatus) (now : ℕ) (s : Store) (k : Bytes)
    → 0 < c.status_ttl
    → All (λ st. st.webhook_id ≡ k) sts
    → LastWins c sts now (s.statuses k) ((set_all c sts now s).statuses k)
last_write_wins c [] now s k p a = record {
  written = inl refl;
  not_older = omega arith;
  latest = tt;
}
last_write_wins c (st ∷ sts) now s k p a =
    let before : Store = set_all c sts now s in
    let older : LastWins c sts now (s.statuses st.webhook_id) (before.statuses st.webhook_id) =
      subst (λ j. LastWins c sts now (s.statuses j) (before.statuses j)) (sym a.0)
        (last_write_wins c sts now s k p a.1) in
    subst
      (λ j. LastWins c (st ∷ sts) now (s.statuses j) ((set_if_later c st now before).statuses j))
      a.0
      (subst (LastWins c (st ∷ sts) now (s.statuses st.webhook_id)) (sym (set_own c st now before))
        (merged-LastWins c st sts now (s.statuses st.webhook_id) (before.statuses st.webhook_id) p
          older))
