-- ===== src/HotState/Recovery.antt =====
-- internal/hotstate/redis.go: what the reconciler does to Redis besides scheduling retries.
use howk.Prelude.{ℕ, Bool, true, false, ◌&&◌, Option, none, some, []}
use howk.Domain.{SystemEpoch}
use howk.Redis.{Reply, wrote, arrived, reported, empty_map}
use howk.HotState.{Op}

unfoldable pub set_canary : ℕ → Reply → Op (Option (Unit {0}))
set_canary now r s = (reported r tt, record s { canary = wrote r true s.canary })

unfoldable pub check_canary : ℕ → Reply → Op (Option Bool)
check_canary now r s = (reported r s.canary, s)

unfoldable pub set_epoch : SystemEpoch → ℕ → Reply → Op (Option (Unit {0}))
set_epoch e now r s = (reported r tt, record s { epoch = wrote r (some e) s.epoch })

unfoldable pub get_epoch : ℕ → Reply → Op (Option (Option SystemEpoch))
get_epoch now r s = (reported r s.epoch, s)

-- `FlushForRebuild`: the canary, then the keys of each pattern; the replies are those of its
-- deletions, one for each pattern. Whether none of them failed. The probe locks stay.
unfoldable pub flush_for_rebuild : (ℕ → Reply) → Op Bool
flush_for_rebuild r s = (
  arrived (r 0)
      && arrived (r 1)
      && arrived (r 2)
      && arrived (r 3)
      && arrived (r 4)
      && arrived (r 5)
      && arrived (r 6)
      && arrived (r 7)
      && arrived (r 8)
      && arrived (r 9)
      && arrived (r 10),
  record s {
    canary = wrote (r 0) false s.canary;
    statuses = wrote (r 1) empty_map s.statuses;
    retries = wrote (r 2) [] s.retries;
    retry_data = wrote (r 3) empty_map s.retry_data;
    retry_meta = wrote (r 4) empty_map s.retry_meta;
    processed = wrote (r 5) empty_map s.processed;
    counters = wrote (r 6) empty_map s.counters;
    sketches = wrote (r 7) empty_map s.sketches;
    endpoints = λ k. wrote (r 8) (record (s.endpoints k) { circuit = none }) (s.endpoints k);
    inflight = wrote (r 9) empty_map s.inflight;
    domain_inflight = wrote (r 10) empty_map s.domain_inflight;
  },
)
