-- ===== src/Python/Datetime.antt =====
-- Instants of Python's `datetime`: what core/clock.py and the control plane use of them.
use milhouse_oss.Prelude.{
  ℕ, suc, zero, ◌+◌, ◌-◌, ◌*◌, ◌/◌, ◌%◌, ◌≡◌, refl, Bool, not, ◌&&◌, ◌||◌, Option, none, some, ltb,
  leb, ◌==◌, if◌then◌else◌, ℤ, pos, negsuc,
}

-- The calendar and clock fields of a `datetime`, without its zone.
pub record Civil : Type 0 where
  pub year : ℕ
  pub month : ℕ
  pub day : ℕ
  pub hour : ℕ
  pub minute : ℕ
  pub second : ℕ
  pub microsecond : ℕ

-- The zone: no `tzinfo`; one whose `utcoffset` is None, or raises; UTC; a fixed offset in minutes.
pub data Zone : Type 0 where
  naive no_offset broken utc : Zone
  offset : ℤ → Zone

pub record Datetime : Type 0 where
  pub civil : Civil
  pub zone : Zone

unfoldable pub is_leap : ℕ → Bool
is_leap y = (y % 4 == 0) && (not (y % 100 == 0) || (y % 400 == 0))

-- Days of the year before month `m`.
unfoldable pub days_before_month : ℕ → ℕ → ℕ
unfolding is_leap
days_before_month y m =
    let leap = if is_leap y && ltb 2 m then 1 else 0 in
    (if leb m 1
      then 0
      else if m == 2
      then 31
      else if m == 3
      then 59
      else if m == 4
      then 90
      else if m == 5
      then 120
      else if m == 6
      then 151
      else if m == 7
      then 181
      else if m == 8
      then 212
      else if m == 9
      then 243
      else if m == 10
      then 273
      else if m == 11
      then 304
      else 334)
    + leap

-- `date.toordinal`: day 1 is 0001-01-01.
unfoldable pub to_ordinal : ℕ → ℕ → ℕ → ℕ
unfolding days_before_month
to_ordinal y m d = let p = y - 1 in p * 365 + p / 4 - p / 100 + p / 400 + days_before_month y m + d

-- The month and day of day `n` (from 0) of year `y`, by the guess `(n + 50) >> 5`.
month_and_day : ℕ → ℕ → ℕ × ℕ
unfolding days_before_month
month_and_day y n =
    let guess = (n + 50) / 32 in
    let m = if leb (days_before_month y guess) n then guess else guess - 1 in
    (m, n - days_before_month y m + 1)

-- `date.fromordinal`.
unfoldable pub from_ordinal : ℕ → ℕ × ℕ × ℕ
unfolding month_and_day
from_ordinal ordinal =
    let n = ordinal - 1 in
    let n400 = n / 146097 in
    let r400 = n % 146097 in
    let n100 = r400 / 36524 in
    let r100 = r400 % 36524 in
    let n4 = r100 / 1461 in
    let r4 = r100 % 1461 in
    let n1 = r4 / 365 in
    let r1 = r4 % 365 in
    let y = n400 * 400 + 1 + n100 * 100 + n4 * 4 + n1 in
    if (n1 == 4) || (n100 == 4)
    then (y - 1, 12, 31)
    else (let (m, d) = month_and_day y r1 in (y, m, d))

-- The last ordinal, of 9999-12-31.
abbrev pub max_ordinal : ℕ
max_ordinal = 3652059

-- Seconds from the start of day 0 to the whole second of `c`.
unfoldable pub total_seconds : Civil → ℕ
unfolding to_ordinal
total_seconds c = to_ordinal c.year c.month c.day * 86400 + c.hour * 3600 + c.minute * 60 + c.second

-- The fields at a number of seconds, or OverflowError (`none`) outside years 1 to 9999.
unfoldable pub from_seconds : ℕ → ℕ → Option Civil
unfolding from_ordinal
from_seconds total micro =
    let ordinal = total / 86400 in
    let rest = total % 86400 in
    if ltb 0 ordinal && leb ordinal max_ordinal
    then (let (y, m, d) = from_ordinal ordinal in
        some (record {
          year = y;
          month = m;
          day = d;
          hour = rest / 3600;
          minute = rest % 3600 / 60;
          second = rest % 60;
          microsecond = micro;
        }))
    else none

-- `c + timedelta(seconds=n)`; a negative result is below the first day too.
unfoldable pub shift : Civil → ℤ → Option Civil
unfolding total_seconds from_seconds
shift c (pos n) = from_seconds (total_seconds c + n) c.microsecond
shift c (negsuc n) = from_seconds (total_seconds c - suc n) c.microsecond

negate : ℤ → ℤ
negate (pos zero) = pos 0
negate (pos (suc n)) = negsuc n
negate (negsuc n) = pos (suc n)

in_seconds : ℤ → ℤ
in_seconds (pos n) = pos (n * 60)
in_seconds (negsuc n) = negsuc (suc n * 60 - 1)

-- `value.astimezone(UTC)` of a zoned value: `none` is an exception.
unfoldable pub as_utc : Datetime → Option Civil
unfolding shift negate in_seconds
as_utc t = elim t.zone [
  | offset minutes ↦ shift t.civil (negate (in_seconds minutes))
  | utc ↦ some t.civil
  | _ ↦ none
]

-- Seconds of the day before that a zoned clock is ahead of, one day added to stay positive.
behind : Zone → ℕ
behind (offset (pos m)) = 86400 - m * 60
behind (offset (negsuc m)) = 86400 + suc m * 60
behind _ = 86400

-- The order of instants: microseconds of the instant itself, whatever zone writes it.
unfoldable pub absolute_microseconds : Datetime → ℕ
unfolding total_seconds behind
absolute_microseconds t = (total_seconds t.civil + behind t.zone) * 1000000 + t.civil.microsecond

-- `a <= b` of two aware values.
unfoldable pub instant_le : Datetime → Datetime → Bool
instant_le a b = leb (absolute_microseconds a) (absolute_microseconds b)

-- `value + timedelta(seconds=n)` keeps the zone.
unfoldable pub plus_seconds : Datetime → ℕ → Option Datetime
unfolding shift
plus_seconds t n = elim (shift t.civil (pos n)) [
  | none ↦ none
  | some c ↦ some (record { civil = c; zone = t.zone })
]

leap_day : from_ordinal (to_ordinal 2024 2 29) ≡ (2024, 2, 29)
unfolding from_ordinal to_ordinal
leap_day = refl

last_day : from_ordinal max_ordinal ≡ (9999, 12, 31)
unfolding from_ordinal
last_day = refl
