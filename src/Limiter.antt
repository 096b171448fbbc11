-- ===== src/Limiter.antt =====
-- internal/delivery/limiter.go: the cap on the requests in flight to one domain.
pub mod Bound
mod Tests
use howk.Prelude.{
  ℕ, ◌+◌, Bool, true, false, not, List, [], ◌∷◌, Option, none, some, ltb, ◌==◌, if◌then◌else◌,
}
use howk.Prelude.Text.{Bytes, bytes_eq}
use howk.Redis.{Reply, wrote, arrived, reported}
use howk.HotState.{Store, Op, count_of, incr_key, decr_key}

pub record LimiterConfig : Type 0 where
  pub default_max : ℕ
  pub domain_overrides : List (Bytes × ℕ)

-- `endpoint[:idx]` for the first slash, if it is not the first byte.
unfoldable pub before_slash : Bytes → Bytes
before_slash [] = []
before_slash (c ∷ s) = if c == b'/' then [] else c ∷ before_slash s

-- The endpoint without its path, where there is something before the first slash.
unfoldable pub strip_path : Bytes → Bytes
unfolding before_slash
strip_path [] = []
strip_path (c ∷ s) = if c == b'/' then c ∷ s else before_slash (c ∷ s)

-- `parsed` is the host that `url.Parse` gives, if it gives one.
unfoldable pub extract_domain : Option Bytes → Bytes → Bytes
unfolding strip_path
extract_domain (some (c ∷ host)) endpoint = c ∷ host
extract_domain (some []) endpoint = strip_path endpoint
extract_domain none endpoint = strip_path endpoint

abbrev pub override : Bytes → List (Bytes × ℕ) → Option ℕ
override d [] = none
override d ((k, n) ∷ m) = if bytes_eq k d then some n else override d m

unfoldable pub max_for : LimiterConfig → Bytes → ℕ
max_for c d = elim (override d c.domain_overrides) [ some n ↦ n | none ↦ c.default_max ]

-- The pipeline of `INCR` and `EXPIRE`, and the Lua script that undoes it over the limit; the error
-- of neither is returned.
unfoldable pub try_acquire : LimiterConfig → Bytes → ℕ → Reply → Reply → Op Bool
unfolding max_for
try_acquire c domain now r₁ r₂ s =
    let up = wrote r₁ (incr_key s.domain_inflight domain) s.domain_inflight in
    if arrived r₁
    then if ltb (max_for c domain) (count_of (s.domain_inflight domain) + 1)
      then (false, record s { domain_inflight = wrote r₂ (decr_key up domain) up })
      else (true, record s { domain_inflight = up })
    else (true, record s { domain_inflight = up })

unfoldable pub release : Bytes → ℕ → Reply → Op (Option (Unit {0}))
release domain now r s = (
  reported r tt,
  record s { domain_inflight = wrote r (decr_key s.domain_inflight domain) s.domain_inflight },
)
