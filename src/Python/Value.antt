-- ===== src/Python/Value.antt =====
-- A value of unknown type, as a public function receives it before its `type(value) is ...` tests.
use milhouse_oss.Prelude.{Bool, ℤ, Text}
use milhouse_oss.Python.Datetime.{Datetime}

-- `bool` is a constructor of its own: `type(True) is int` is false.
pub data Value : Type 0 where
  null : Value
  bool : Bool → Value
  int : ℤ → Value
  str : Text → Value
  instant : Datetime → Value
  other : Value
