-- ===== src/Python/Outcome.antt =====
-- How a call ends: with a value, or with an exception. `fault` is the program's own error, which
-- carries a fixed code; the others come from the clock and from the standard library.
use milhouse_oss.Prelude.{◌≡◌, refl, Bool, true, false, ◌⊎◌, inl, inr}

-- The codes of `TimeError` (core/clock.py).
pub data TimeCode : Type 0 where
  wall monotonic naive_timestamp bad_timestamp : TimeCode
  duration_bounds duration_format duration_range : TimeCode

pub data Exception (C : Type 0) : Type 0 where
  fault : C → Exception C
  time_error : TimeCode → Exception C
  sqlite_error overflow_error unicode_error : Exception C

pub data Outcome (C : Type 0) (A : Type 0) : Type 0 where
  ok : A → Outcome C A
  raised : Exception C → Outcome C A

infixl 5 ◌>>=◌ ◌>>◌
abbrev pub ◌>>=◌ : {C A B : Type 0} → Outcome C A → (A → Outcome C B) → Outcome C B
ok a >>= f = f a
raised e >>= f = raised e

abbrev pub ◌>>◌ : {C A B : Type 0} → Outcome C A → Outcome C B → Outcome C B
m >> k = m >>= λ _. k

-- `if bad: _fail(code, ...)`
abbrev pub fail_if : {C : Type 0} → Bool → C → Outcome C (Unit {0})
fail_if true c = raised (fault c)
fail_if false c = ok tt

-- `except (sqlite3.Error, OverflowError, TimeError): failed = True` and then `_fail(code, ...)`.
abbrev pub normalize : {C A : Type 0} → C → Outcome C A → Outcome C A
normalize c (ok a) = ok a
normalize c (raised (fault d)) = raised (fault d)
normalize c (raised sqlite_error) = raised (fault c)
normalize c (raised (time_error d)) = raised (fault c)
normalize c (raised overflow_error) = raised (fault c)
normalize c (raised unicode_error) = raised unicode_error

-- `except sqlite3.Error: failed = True` and then `_fail(code, ...)`.
abbrev pub normalize_sqlite : {C A : Type 0} → C → Outcome C A → Outcome C A
normalize_sqlite c (ok a) = ok a
normalize_sqlite c (raised (fault d)) = raised (fault d)
normalize_sqlite c (raised sqlite_error) = raised (fault c)
normalize_sqlite c (raised (time_error d)) = raised (time_error d)
normalize_sqlite c (raised overflow_error) = raised overflow_error
normalize_sqlite c (raised unicode_error) = raised unicode_error

pub Outcome-cases :
    {C A : Type 0} (o : Outcome C A) → ((a : A) × (o ≡ ok a)) ⊎ ((e : Exception C) × (o ≡ raised e))
Outcome-cases (ok a) = inl (a, refl)
Outcome-cases (raised e) = inr (e, refl)

-- A block that returns has passed its first step.
pub bind-ok :
    {C A B : Type 0} (m : Outcome C A) (f : A → Outcome C B) {b : B}
    → (m >>= f) ≡ ok b
    → (a : A) × (m ≡ ok a) × (f a ≡ ok b)
bind-ok (ok a) f h = (a, refl, h)
bind-ok (raised e) f h = cc

pub fail_if-ok : {C : Type 0} (b : Bool) (c : C) {u : Unit {0}} → fail_if b c ≡ ok u → b ≡ false
fail_if-ok true c h = cc
fail_if-ok false c h = refl

pub normalize-ok :
    {C A : Type 0} (c : C) (r : Outcome C A) {a : A} → normalize c r ≡ ok a → r ≡ ok a
normalize-ok c (ok a) h = h
normalize-ok c (raised (fault d)) h = cc
normalize-ok c (raised sqlite_error) h = cc
normalize-ok c (raised (time_error d)) h = cc
normalize-ok c (raised overflow_error) h = cc
normalize-ok c (raised unicode_error) h = cc
