-- ===== src/Core/Clock/Stamp.antt =====
-- `truncate_to_milliseconds` and `format_timestamp`.
use milhouse_oss.Prelude.{
  ℕ, zero, suc, ◌+◌, ◌*◌, ◌/◌, ◌%◌, ◌≡◌, refl, none, some, [], ◌∷◌, ◌++◌, Text, codes,
}
use milhouse_oss.Python.Datetime.{Civil, Datetime, naive, no_offset, broken, utc, as_utc}
use milhouse_oss.Python.Value.{Value, instant}
use milhouse_oss.Python.Outcome.{
  Outcome, ok, raised, time_error, naive_timestamp, bad_timestamp, ◌>>=◌,
}

-- The last `w` decimal digits of `n`: `f"{n:0wd}"` where `n` is below `10 ** w`, as the fields of a
-- `datetime` are for the widths used here.
unfoldable pub fixed_digits : ℕ → ℕ → Text
fixed_digits zero n = []
fixed_digits (suc w) n = fixed_digits w (n / 10) ++ (b'0' + n % 10) ∷ []

-- From the hour on: `HH:MM:SS.mmmZ`.
unfoldable pub time_text : Civil → Text
time_text c =
    fixed_digits 2 c.hour
    ++ b':'
      ∷ (fixed_digits 2 c.minute
          ++ b':'
            ∷ (fixed_digits 2 c.second
                ++ b'.' ∷ (fixed_digits 3 (c.microsecond / 1000) ++ b'Z' ∷ [])))

-- The text of UTC fields, to the millisecond.
unfoldable pub stamp : Civil → Text
unfolding time_text
stamp c =
    fixed_digits 4 c.year
    ++ b'-' ∷ (fixed_digits 2 c.month ++ b'-' ∷ (fixed_digits 2 c.day ++ b'T' ∷ time_text c))

-- The instant in UTC, cut to whole milliseconds; any other value is a `TimeError`.
unfoldable pub truncate_to_milliseconds : {C : Type 0} → Value → Outcome C Civil
truncate_to_milliseconds (instant t) = elim t.zone [
  | naive ↦ raised (time_error naive_timestamp)
  | no_offset ↦ raised (time_error naive_timestamp)
  | broken ↦ raised (time_error bad_timestamp)
  | _ ↦ elim (as_utc t) [
    | none ↦ raised (time_error bad_timestamp)
    | some c ↦ ok (record c { microsecond = c.microsecond / 1000 * 1000 })
  ]
]
truncate_to_milliseconds _ = raised (time_error bad_timestamp)

unfoldable pub format_timestamp : {C : Type 0} → Value → Outcome C Text
unfolding truncate_to_milliseconds
format_timestamp value = do c ← truncate_to_milliseconds value; ok (stamp c)

abbrev noon : Datetime
noon = record {
  civil = record {
    year = 2024;
    month = 2;
    day = 29;
    hour = 12;
    minute = 5;
    second = 9;
    microsecond = 7999;
  };
  zone = utc;
}

format-noon : format_timestamp {C = ℕ} (instant noon) ≡ ok (codes "2024-02-29T12:05:09.007Z")
unfolding format_timestamp stamp fixed_digits as_utc
format-noon = refl
