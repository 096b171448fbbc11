-- ===== src/Effects/Keeps.antt =====
-- What an action leaves as it was: one rule for each way to build an action.
use howk.Prelude.{Bool, true, false, if◌then◌else◌}
use howk.Domain.{Webhook}
use howk.Effects.{M, Env, World, pure, ◌>>=◌, time_now, bucket, next_sample, resolve_overrides}

-- Whatever the environment answers, the action takes worlds with `P` to worlds with `P`.
pub record Keeps {A : Type 0} (P : World → Type 0) (m : M A) : Type 0 where
  pub at : (env : Env) (w : World) → P w → P (m env w).1

module _ {A : Type 0} {P : World → Type 0} where
  pub Keeps-pure : (a : A) → Keeps P (pure a)
  unfolding pure
  Keeps-pure a = record { at = λ env w h. h }

  pub Keeps-if : (b : Bool) (m n : M A) → Keeps P m → Keeps P n → Keeps P (if b then m else n)
  Keeps-if true m n km kn = km
  Keeps-if false m n km kn = kn

pub Keeps-bind :
    {A B : Type 0} {P : World → Type 0} (m : M A) (f : A → M B)
    → Keeps P m
    → ((a : A) → Keeps P (f a))
    → Keeps P (m >>= f)
unfolding ◌>>=◌
Keeps-bind m f km kf = record {
  at = λ env w h. let (a, w') = m env w in (kf a).at env w' (km.at env w h);
}

pub Keeps-time_now : {P : World → Type 0} → Keeps P time_now
unfolding time_now
Keeps-time_now = record { at = λ env w h. h }

pub Keeps-next_sample : {P : World → Type 0} → Keeps P next_sample
unfolding next_sample
Keeps-next_sample = record { at = λ env w h. h }

pub Keeps-resolve_overrides : {P : World → Type 0} (h : Webhook) → Keeps P (resolve_overrides h)
unfolding resolve_overrides
Keeps-resolve_overrides h = record { at = λ env w k. k }

pub Keeps-bucket : {P : World → Type 0} → Keeps P bucket
unfolding bucket
Keeps-bucket = record { at = λ env w h. h }

pub ruleset keeps_rules = (
  Keeps-pure, Keeps-if, Keeps-bind, Keeps-time_now, Keeps-bucket, Keeps-next_sample,
  Keeps-resolve_overrides,
)
