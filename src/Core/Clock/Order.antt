-- ===== src/Core/Clock/Order.antt =====
-- Timestamps compare as text the way their instants compare in time.
use milhouse_oss.Prelude.{
  ℕ, zero, suc, ◌+◌, ◌*◌, ◌/◌, ◌%◌, ◌^◌, ◌≤◌, ◌<◌, ◌≡◌, ap, ◌∙◌, Bool, true, false, [], ◌∷◌, ◌++◌,
  arith, ltb, if◌then◌else◌, Text, text_lt,
}
use mathlib.Core.List.{append_assoc}
use native.Mathlib.Nat.{pow-suc}
use milhouse_oss.Python.Datetime.{Civil}
use milhouse_oss.Core.Clock.Stamp.{fixed_digits, time_text, stamp}

-- Comparison of one field, then of what follows.
abbrev pub before : ℕ → ℕ → Bool → Bool
before a b rest = if ltb a b then true else if ltb b a then false else rest

low_bound : (w a : ℕ) → a < 10 ^ suc w → a / 10 < 10 ^ w
low_bound w a h = omega (arith, pow-suc 10 w)

digit_step :
    (a b : ℕ) (rest : Bool)
    → before (a / 10) (b / 10) (before (b'0' + a % 10) (b'0' + b % 10) rest) ≡ before a b rest
digit_step a b rest = ground arith

-- A field of fixed width decides, unless the two are equal.
text_lt-fixed :
    (w a b : ℕ) (r s : Text)
    → a < 10 ^ w
    → b < 10 ^ w
    → text_lt (fixed_digits w a ++ r) (fixed_digits w b ++ s) ≡ before a b (text_lt r s)
unfolding fixed_digits text_lt
text_lt-fixed zero a b r s ha hb = ground arith
text_lt-fixed (suc w) a b r s ha hb =
    rw
      (
        append_assoc (fixed_digits w (a / 10)) ((b'0' + a % 10) ∷ []) r,
        append_assoc (fixed_digits w (b / 10)) ((b'0' + b % 10) ∷ []) s,
        text_lt-fixed w (a / 10) (b / 10) ((b'0' + a % 10) ∷ r) ((b'0' + b % 10) ∷ s)
            (low_bound w a ha) (low_bound w b hb),
      )
      (digit_step a b (text_lt r s))

-- The same where a separator follows.
text_lt-field :
    (w a b p : ℕ) (r s : Text)
    → a < 10 ^ w
    → b < 10 ^ w
    → text_lt (fixed_digits w a ++ p ∷ r) (fixed_digits w b ++ p ∷ s) ≡ before a b (text_lt r s)
unfolding text_lt
text_lt-field w a b p r s ha hb = rw (text_lt-fixed w a b (p ∷ r) (p ∷ s) ha hb) (ground arith)

-- The ranges that `datetime` keeps its fields in.
pub record IsCivil (c : Civil) : Type 0 where
  pub year_bound : c.year < 10000
  pub month_bound : c.month < 13
  pub day_bound : c.day < 32
  pub hour_bound : c.hour < 24
  pub minute_bound : c.minute < 60
  pub second_bound : c.second < 60
  pub microsecond_bound : c.microsecond < 1000000

-- A number that grows with the instant, to the millisecond: the fields in mixed radix.
abbrev pub time_of_day : Civil → ℕ
time_of_day c = c.hour * 3600000 + (c.minute * 60000 + (c.second * 1000 + c.microsecond / 1000))

abbrev pub order_key : Civil → ℕ
order_key c = c.year * 35942400000 + (c.month * 2764800000 + (c.day * 86400000 + time_of_day c))

before-false : (a b : ℕ) → before a b false ≡ ltb a b
before-false a b = ground arith

mul_step : (k a b : ℕ) → a < b → a * k + k ≤ b * k
mul_step k a b h = grind arith

before-radix : (k a b r s : ℕ) → r < k → s < k → before a b (ltb r s) ≡ ltb (a * k + r) (b * k + s)
before-radix k a b r s hr hs = ground (arith, mul_step k a b, mul_step k b a)

-- One field of the text is one digit of the number.
field_step :
    (w k a b p x y : ℕ) (r s : Text)
    → a < 10 ^ w
    → b < 10 ^ w
    → x < k
    → y < k
    → text_lt r s ≡ ltb x y
    → text_lt (fixed_digits w a ++ p ∷ r) (fixed_digits w b ++ p ∷ s) ≡ ltb (a * k + x) (b * k + y)
field_step w k a b p x y r s ha hb hx hy e =
    text_lt-field w a b p r s ha hb ∙ (ap (before a b) e ∙ before-radix k a b x y hx hy)

time-lt :
    (a b : Civil)
    → IsCivil a
    → IsCivil b
    → text_lt (time_text a) (time_text b) ≡ ltb (time_of_day a) (time_of_day b)
unfolding time_text text_lt
time-lt a b ha hb =
    field_step 2 3600000 a.hour b.hour _ _ _ _ _ (omega arith) (omega arith) (omega arith)
      (omega arith)
      (field_step 2 60000 a.minute b.minute _ _ _ _ _ (omega arith) (omega arith) (omega arith)
        (omega arith)
        (field_step 2 1000 a.second b.second _ _ _ _ _ (omega arith) (omega arith) (omega arith)
          (omega arith)
          (text_lt-field 3 (a.microsecond / 1000) (b.microsecond / 1000) b'Z' [] [] (omega arith)
              (omega arith)
            ∙ before-false (a.microsecond / 1000) (b.microsecond / 1000))))

-- The canonical texts of two instants compare as their calendar and clock fields do, down to the
-- millisecond: a later text is a later instant.
pub stamp-lt :
    (a b : Civil)
    → IsCivil a
    → IsCivil b
    → text_lt (stamp a) (stamp b) ≡ ltb (order_key a) (order_key b)
unfolding stamp text_lt
stamp-lt a b ha hb =
    field_step 4 _ a.year b.year _ _ _ _ _ (omega arith) (omega arith) (omega arith) (omega arith) (
      field_step 2 _ a.month b.month _ _ _ _ _ (omega arith) (omega arith) (omega arith)
        (omega arith)
        (field_step 2 _ a.day b.day _ _ _ _ _ (omega arith) (omega arith) (omega arith)
          (omega arith) (time-lt a b ha hb)))
