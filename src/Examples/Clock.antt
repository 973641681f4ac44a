-- ===== src/Examples/Clock.antt =====
-- core/clock.py at concrete instants.
use milhouse_oss.Prelude.{ℕ, ◌<◌, ◌≡◌, ltb, text_lt, arith}
use milhouse_oss.Core.Clock.{stamp}
use milhouse_oss.Core.Clock.Order.{IsCivil, order_key, stamp-lt}
use milhouse_oss.Examples.Data.{civil_at}

in_range : (h : ℕ) → h < 24 → IsCivil (civil_at h 0)
in_range h small = record {
  year_bound = omega arith;
  month_bound = omega arith;
  day_bound = omega arith;
  hour_bound = small;
  minute_bound = omega arith;
  second_bound = omega arith;
  microsecond_bound = omega arith;
}

stamp-lt_example :
    text_lt (stamp (civil_at 12 0)) (stamp (civil_at 13 0))
    ≡ ltb (order_key (civil_at 12 0)) (order_key (civil_at 13 0))
stamp-lt_example =
    stamp-lt (civil_at 12 0) (civil_at 13 0) (in_range 12 (omega arith)) (in_range 13 (omega arith))
