-- ===== src/Scheduler/Reference.antt =====
-- internal/scheduler/scheduler.go: `parseReference` against the references that
-- internal/hotstate/redis.go writes.
use howk.Prelude.{◌+◌, ◌≤◌, ◌≡◌, ap, some}
use howk.Prelude.Int.{ℤ, pos_part, neg_part, max_int64}
use howk.Prelude.Text.{Bytes}
use howk.Prelude.Decimal.{itoa, atoi-itoa, itoa-NoColon, NoColon, split_colon_once}
use howk.HotState.{reference}
use howk.Scheduler.{paired, parse_parts, parse_reference}

-- The scheduler reads back the webhook and the attempt that a retry was scheduled under, for every
-- attempt that an `int` holds, if the webhook's id has no colon.
pub parse_reference-reference :
    (id : Bytes) (attempt : ℤ)
    → NoColon id
    → pos_part attempt ≤ max_int64
    → neg_part attempt ≤ max_int64 + 1
    → parse_reference (reference id attempt) ≡ some (id, attempt)
unfolding parse_reference reference parse_parts
parse_reference-reference id attempt c h k =
    rw (split_colon_once id (itoa attempt) c (itoa-NoColon attempt))
      (ap (paired id) (atoi-itoa attempt h k))
