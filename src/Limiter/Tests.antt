-- ===== src/Limiter/Tests.antt =====
-- internal/delivery/limiter.go: runs of the limiter on concrete domains.
use howk.Prelude.{◌≡◌, refl, false, [], ◌∷◌, none}
use howk.Prelude.Text.{codes}
use howk.Redis.{replied}
use howk.HotState.Tests.{empty_store}
use howk.Limiter.{LimiterConfig, extract_domain, try_acquire}
use howk.Limiter.Bound.{acquires, use_slots}

-- Two requests at once, and one to a slow domain.
abbrev caps : LimiterConfig
caps = record { default_max = 2; domain_overrides = (codes "slow.example", 1) ∷ [] }

path_is_cut : extract_domain none (codes "slow.example/in") ≡ codes "slow.example"
unfolding extract_domain
path_is_cut = refl

second_is_refused :
    (try_acquire caps
      (codes "slow.example")
      0
      replied
      replied
      (use_slots caps (acquires (codes "slow.example") ∷ []) empty_store)).0
    ≡ false
unfolding try_acquire use_slots
second_is_refused = refl
