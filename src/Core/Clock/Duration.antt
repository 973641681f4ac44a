-- ===== src/Core/Clock/Duration.antt =====
-- `_parse_bounded_duration_seconds`: one canonical ASCII duration within the caller's bounds.
use milhouse_oss.Prelude.{
  ℕ, zero, suc, ◌+◌, ◌-◌, ◌*◌, ◌≡◌, refl, Bool, ◌&&◌, ◌||◌, Option, none, some, [], ◌∷◌, ltb, leb,
  ◌==◌, if◌then◌else◌, pos, length, Text, codes,
}
use milhouse_oss.Python.Value.{Value, int, str}
use milhouse_oss.Python.Outcome.{
  Outcome, ok, raised, time_error, duration_bounds, duration_format, duration_range,
}

abbrev pub max_duration_text_length : ℕ
max_duration_text_length = 19

-- `_SECONDS_PER_UNIT`
unfoldable pub seconds_per_unit : ℕ → Option ℕ
seconds_per_unit c =
    if c == b's'
    then some 1
    else if c == b'm'
    then some 60
    else if c == b'h'
    then some 3600
    else if c == b'd'
    then some 86400
    else none

is_digit : ℕ → Bool
is_digit c = leb b'0' c && leb c b'9'

scale : ℕ → Option ℕ → Option ℕ
scale n none = none
scale n (some u) = some (n * u)

-- `[0-9]{0,k}` and one unit, after the digits read so far.
match_digits : ℕ → ℕ → Text → Option ℕ
unfolding seconds_per_unit is_digit scale
match_digits k n [] = none
match_digits k n (c ∷ []) = scale n (seconds_per_unit c)
match_digits zero n (c ∷ d ∷ s) = none
match_digits (suc k) n (c ∷ d ∷ s) =
    let rest = match_digits k (n * 10 + (c - b'0')) (d ∷ s) in if is_digit c then rest else none

-- `(0|[1-9][0-9]{0,17})([smhd])` against the whole text, and the seconds that it stands for.
unfoldable pub match_duration : Text → Option ℕ
unfolding match_digits
match_duration [] = none
match_duration (c ∷ s) =
    if c == b'0'
    then match_digits 0 0 s
    else if is_digit c
    then match_digits 17 (c - b'0') s
    else none

in_range : {C : Type 0} → ℕ → ℕ → Option ℕ → Outcome C ℕ
in_range low high none = raised (time_error duration_format)
in_range low high (some seconds) =
    if ltb seconds low || ltb high seconds then raised (time_error duration_range) else ok seconds

unfoldable pub parse_bounded_duration_seconds : {C : Type 0} → Value → Value → Value → Outcome C ℕ
unfolding match_duration in_range
parse_bounded_duration_seconds value (int (pos low)) (int (pos high)) =
    if ltb high low then raised (time_error duration_bounds) else elim value [
      | str s ↦
          if (length s == 0) || ltb max_duration_text_length (length s)
          then raised (time_error duration_format)
          else in_range low high (match_duration s)
      | _ ↦ raised (time_error duration_format)
    ]
parse_bounded_duration_seconds value _ _ = raised (time_error duration_bounds)

ninety_minutes :
    parse_bounded_duration_seconds {C = ℕ} (str (codes "90m")) (int (pos 0)) (int (pos 86400))
    ≡ ok 5400
unfolding parse_bounded_duration_seconds
ninety_minutes = refl

leading_zero :
    parse_bounded_duration_seconds {C = ℕ} (str (codes "09s")) (int (pos 0)) (int (pos 86400))
    ≡ raised (time_error duration_format)
unfolding parse_bounded_duration_seconds
leading_zero = refl
