-- ===== src/Examples/Data.antt =====
-- Instants and values that the examples share.
use milhouse_oss.Prelude.{ℕ, pos, Text, codes}
use milhouse_oss.Python.Datetime.{Civil, Datetime, utc}
use milhouse_oss.Python.Value.{Value, int, instant}

-- 2024-02-29 at an hour and minute.
abbrev pub civil_at : ℕ → ℕ → Civil
civil_at h m = record {
  year = 2024;
  month = 2;
  day = 29;
  hour = h;
  minute = m;
  second = 9;
  microsecond = 7999;
}

abbrev pub datetime_at : ℕ → ℕ → Datetime
datetime_at h m = record { civil = civil_at h m; zone = utc }

abbrev pub at : ℕ → ℕ → Value
at h m = instant (datetime_at h m)

abbrev pub number : ℕ → Value
number n = int (pos n)

abbrev pub job : Text
job = codes "job"

abbrev pub alice : Text
alice = codes "alice"

abbrev pub bob : Text
bob = codes "bob"

abbrev pub noon : Text
noon = codes "2024-02-29T12:00:09.007Z"
