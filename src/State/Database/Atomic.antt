-- ===== src/State/Database/Atomic.antt =====
-- What `transaction` promises its callers.
use milhouse_oss.Prelude.{◌≡◌, refl, ◌⊎◌, inl, inr, arith}
use milhouse_oss.Python.Outcome.{Exception, Outcome, Outcome-cases, ok, raised, normalize}
use milhouse_oss.State.Errors.{StateCode}
use milhouse_oss.State.Schema.{Tables}
use milhouse_oss.State.Database.{
  ◌>>=◌, lift, Action, execute, later_faults, transaction, attempt, ControlDatabase,
}

-- A transaction that raises, for whatever reason, leaves every table as it was.
pub transaction-atomic :
    {A : Type 0} (body : Action A) (db : ControlDatabase) {e : Exception StateCode}
    → (transaction body db).0 ≡ raised e
    → (transaction body db).1.tables ≡ db.tables
unfolding transaction
transaction-atomic body db h = ground arith

-- The database that the body of a transaction starts from.
abbrev pub begun : ControlDatabase → ControlDatabase
begun db = record db { faults = later_faults db.faults }

-- A transaction that returns has returned what its body did, and kept the tables of its body.
pub transaction-ok :
    {A : Type 0} (body : Action A) (db : ControlDatabase) {a : A}
    → (transaction body db).0 ≡ ok a
    → ((body (begun db)).0 ≡ ok a) × ((transaction body db).1.tables ≡ (body (begun db)).1.tables)
unfolding transaction
transaction-ok body db h = ground arith

-- However a transaction ends, the tables are those before it or those its body left.
pub transaction-either :
    {A : Type 0} (body : Action A) (db : ControlDatabase)
    → ((transaction body db).1.tables ≡ db.tables)
      ⊎ ((transaction body db).1.tables ≡ (body (begun db)).1.tables)
transaction-either body db = elim (Outcome-cases (transaction body db).0) [
  | inl (a, e) ↦ inr (transaction-ok body db {a = a} e).1
  | inr (d, e) ↦ inl (transaction-atomic body db {e = d} e)
]

-- A block that returns has passed its first step.
pub lift-bind-ok :
    {A B : Type 0} (r : Outcome StateCode A) (f : A → Action B) (db : ControlDatabase) {b : B}
    → ((lift r >>= f) db).0 ≡ ok b
    → (a : A) × (r ≡ ok a) × ((lift r >>= f) db ≡ f a db) × ((f a db).0 ≡ ok b)
lift-bind-ok (ok a) f db h = (a, refl, refl, h)
lift-bind-ok (raised e) f db h = cc

-- A statement that returns has had its effect.
pub execute-ok :
    {A : Type 0} (statement : Tables → A × Tables) (db : ControlDatabase) {a : A}
    → (execute statement db).0 ≡ ok a
    → ((statement db.tables).0 ≡ a) × ((execute statement db).1.tables ≡ (statement db.tables).1)
unfolding execute
execute-ok statement db h = ground arith

pub sequence-ok :
    {A B : Type 0} (m : Action A) (f : A → Action B) (db : ControlDatabase) {b : B}
    → ((m >>= f) db).0 ≡ ok b
    → (a : A) × ((m db).0 ≡ ok a) × ((m >>= f) db ≡ f a (m db).1)
sequence-ok m f db h = elim (Outcome-cases (m db).0) [
  | inl (a, e) ↦ (a, e, rw e refl)
  | inr (x, e) ↦ absurd (ground (arith, e, h))
]

-- A call that changes no table unless it returns.
pub record IsAtomic {A : Type 0} (m : Action A) : Type 0 where
  pub unchanged :
      (db : ControlDatabase) (e : Exception StateCode)
      → (m db).0 ≡ raised e
      → (m db).1.tables ≡ db.tables

pub transaction-IsAtomic : {A : Type 0} (body : Action A) → IsAtomic (transaction body)
transaction-IsAtomic body = record { unchanged = λ db e h. transaction-atomic body db {e = e} h }

pub attempt-IsAtomic :
    {A : Type 0} (c : StateCode) (m : Action A) → IsAtomic m → IsAtomic (attempt c m)
attempt-IsAtomic c m h = record {
  unchanged = λ db e p. raised_before c (m db).0 p (h.unchanged db);
}
  where
    raised_before :
        {C A : Type 0} {P : Type 0} (c : C) (r : Outcome C A) {e : Exception C}
        → normalize c r ≡ raised e
        → ((d : Exception C) → r ≡ raised d → P)
        → P
    raised_before c (ok a) p k = absurd (cc p)
    raised_before c (raised d) p k = k d refl

pub lift-bind-IsAtomic :
    {A B : Type 0} (r : Outcome StateCode A) (f : A → Action B)
    → ((a : A) → IsAtomic (f a))
    → IsAtomic (lift r >>= f)
lift-bind-IsAtomic (ok a) f h = h a
lift-bind-IsAtomic (raised e) f h = record { unchanged = λ db d p. refl }

pub ruleset atomic_rules = (transaction-IsAtomic, attempt-IsAtomic, lift-bind-IsAtomic)
