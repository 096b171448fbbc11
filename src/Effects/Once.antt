-- ===== src/Effects/Once.antt =====
-- Actions that send at most one request: one rule for each way to build an action.
use howk.Prelude.{List, ◌∷◌, Bool, true, false, if◌then◌else◌, ◌⊎◌, inl, inr}
use howk.Domain.{Webhook}
use howk.Effects.{M, Env, World, ◌>>=◌}
use howk.Effects.Keeps.{Keeps}

-- `P l` says, among other things, that `l` are the requests sent so far.
pub record Once {A : Type 0} (P : List Webhook → World → Type 0) (m : M A) : Type 0 where
  pub at :
      (l : List Webhook) (env : Env) (w : World)
      → P l w
      → P l (m env w).1 ⊎ ((h : Webhook) × P (h ∷ l) (m env w).1)

module _ {P : List Webhook → World → Type 0} where
  pub Once-Keeps : {A : Type 0} (m : M A) → ((l : List Webhook) → Keeps (P l) m) → Once P m
  Once-Keeps m k = record { at = λ l env w h. inl ((k l).at env w h) }

  pub Once-if :
      {A : Type 0} (b : Bool) (m n : M A) → Once P m → Once P n → Once P (if b then m else n)
  Once-if true m n om on = om
  Once-if false m n om on = on

  -- What comes before the request.
  pub Once-after :
      {A B : Type 0} (m : M A) (f : A → M B)
      → ((l : List Webhook) → Keeps (P l) m)
      → ((a : A) → Once P (f a))
      → Once P (m >>= f)
  unfolding ◌>>=◌
  Once-after m f km of = record {
    at = λ l env w h. let (a, w') = m env w in (of a).at l env w' ((km l).at env w h);
  }

  -- What comes after it.
  pub Once-before :
      {A B : Type 0} (m : M A) (f : A → M B)
      → Once P m
      → ((a : A) (l : List Webhook) → Keeps (P l) (f a))
      → Once P (m >>= f)
  unfolding ◌>>=◌
  Once-before m f om kf = record {
    at = λ l env w h.
        let (a, w') = m env w in
        elim (om.at l env w h) [
          | inl k ↦ inl ((kf a l).at env w' k)
          | inr (x, k) ↦ inr (x, (kf a (x ∷ l)).at env w' k)
        ];
  }
