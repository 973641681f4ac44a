-- ===== src/State/Validate.antt =====
-- The argument tests that the control-plane modules share. Each module of the source defines its
-- own copies, under its own codes.
use milhouse_oss.Prelude.{
  ℕ, ◌≡◌, ◌||◌, Option, none, some, arith, ltb, leb, ◌==◌, if◌then◌else◌, ℤ, pos, length, Text,
}
use milhouse_oss.Python.Value.{Value, null, int, str}
use milhouse_oss.Python.Outcome.{Outcome, ok, raised, fault}
use milhouse_oss.State.Errors.{StateCode}

abbrev pub max_text_length : ℕ
max_text_length = 256

-- `type(value) is str`, not empty, and of at most 256 characters.
unfoldable pub validate_identifier : Value → StateCode → Outcome StateCode Text
validate_identifier (str s) c =
    if (length s == 0) || ltb max_text_length (length s) then raised (fault c) else ok s
validate_identifier _ c = raised (fault c)

-- `type(value) is int` and at least `low`; a `bool` is refused.
unfoldable pub validate_at_least : ℕ → Value → StateCode → Outcome StateCode ℕ
validate_at_least low (int (pos n)) c = if leb low n then ok n else raised (fault c)
validate_at_least low _ c = raised (fault c)

abbrev some_text : Outcome StateCode Text → Outcome StateCode (Option Text)
some_text (ok s) = ok (some s)
some_text (raised e) = raised e

-- Absent, or bounded text.
unfoldable pub validate_optional_text : Value → StateCode → Outcome StateCode (Option Text)
unfolding validate_identifier
validate_optional_text null c = ok none
validate_optional_text value c = some_text (validate_identifier value c)

-- What passes is text, and comes back unchanged.
pub validate_identifier-str :
    (v : Value) (c : StateCode) {s : Text} → validate_identifier v c ≡ ok s → v ≡ str s
unfolding validate_identifier
validate_identifier-str (str s) c h = ground arith
validate_identifier-str _ c h = cc

-- What passes is an integer, and comes back unchanged.
pub validate_at_least-int :
    (low : ℕ) (v : Value) (c : StateCode) {n : ℕ}
    → validate_at_least low v c ≡ ok n
    → v ≡ int (pos n)
unfolding validate_at_least
validate_at_least-int low (int (pos n)) c h = ground arith
validate_at_least-int low (int (ℤ.negsuc n)) c h = cc
validate_at_least-int low _ c h = cc
