-- ===== src/State/Migrations/Ledger.antt =====
-- The rows of the ledger of migrations, and the calls that read and write them.
use milhouse_oss.Prelude.{
  ℕ, suc, ◌+◌, ◌≡◌, ◌∙◌, refl, ap, sym, inl, inr, Bool, Bool-cases, true, false, Option, none, some,
  List, [], ◌∷◌, ◌++◌, ltb, arith, if◌then◌else◌, length,
}
use milhouse_oss.Python.Outcome.{
  Exception, Outcome-cases, ok, raised, fault, sqlite_error, time_error, overflow_error,
  unicode_error, normalize_sqlite,
}
use milhouse_oss.State.Errors.{StateCode}
use milhouse_oss.State.Schema.{SchemaMigration, Tables}
use milhouse_oss.State.Database.{
  Action, ControlDatabase, ◌>>=◌, lift, execute, connection, attempt_sqlite,
}
use milhouse_oss.State.Database.Atomic.{begun, transaction-ok, execute-ok, sequence-ok}
use milhouse_oss.State.Migrations.{
  Migration, created, ensure_schema_table, insert_version, by_version, ordered, load_applied,
  is_contiguous, highest_version, refused_if, with_row, insert_migration,
}

-- Of two calls in a row: what the first gave, and how the second ends.
pub both-ok :
    {A B : Type 0} (m : Action A) (f : A → Action B) (db : ControlDatabase) {b : B}
    → ((m >>= f) db).0 ≡ ok b
    → (a : A) × ((m db).0 ≡ ok a) × ((f a (m db).1).0 ≡ ok b) × ((m >>= f) db ≡ f a (m db).1)
both-ok m f db {b = b} h =
    let (a, e, same) = sequence-ok m f db {b = b} h in (a, e, ap (λ r. r.0) (sym same) ∙ h, same)

pub normalize-raised :
    {C A : Type 0} (c : C) (x : Exception C) {a : A} → normalize_sqlite c (raised x) ≡ ok a → ⊥
normalize-raised c (fault d) k = cc k
normalize-raised c sqlite_error k = cc k
normalize-raised c (time_error d) k = cc k
normalize-raised c overflow_error k = cc k
normalize-raised c unicode_error k = cc k

pub attempt-ok :
    {A : Type 0} (c : StateCode) (m : Action A) (db : ControlDatabase) {a : A}
    → (attempt_sqlite c m db).0 ≡ ok a
    → (m db).0 ≡ ok a
attempt-ok c m db {a = a} h = elim (Outcome-cases (m db).0) [
  | inl (x, e) ↦ e ∙ (ap (normalize_sqlite c) (sym e) ∙ h)
  | inr (x, e) ↦ absurd (normalize-raised c x (ap (normalize_sqlite c) (sym e) ∙ h))
]

pub refused-ok : (b : Bool) {u : Unit {0}} → refused_if b ≡ ok u → b ≡ false
refused-ok true h = absurd (cc h)
refused-ok false h = refl

pub insert-version_last :
    (r : SchemaMigration) (rs : List SchemaMigration) (v : ℕ)
    → is_contiguous v rs ≡ true
    → r.version ≡ v + length rs
    → insert_version r rs ≡ rs ++ r ∷ []
unfolding insert_version is_contiguous
insert-version_last r [] v c e = refl
insert-version_last r (x ∷ xs) v c e =
    let less : ltb x.version r.version ≡ true = ground (arith, c, e) in
    rw less
      (ap (λ l. x ∷ l) (insert-version_last r xs (suc v) (ground (arith, c)) (omega (arith, e))))

pub contiguous-append :
    (r : SchemaMigration) (rs : List SchemaMigration) (v : ℕ)
    → is_contiguous v rs ≡ true
    → r.version ≡ v + length rs
    → is_contiguous v (rs ++ r ∷ []) ≡ true
unfolding is_contiguous
contiguous-append r [] v c e = ground (arith, e)
contiguous-append r (x ∷ xs) v c e = ground (arith, c, e, contiguous-append r xs (suc v))

pub highest-last :
    (r : SchemaMigration) (rs : List SchemaMigration) (v : ℕ)
    → is_contiguous v (r ∷ rs) ≡ true
    → highest_version (r ∷ rs) ≡ v + length rs
unfolding is_contiguous highest_version
highest-last r [] v c = ground (arith, c)
highest-last r (s ∷ rs) v c =
    let e = highest-last s rs (suc v) (ground (arith, c)) in omega (arith, e)

pub highest-contiguous :
    (rs : List SchemaMigration) → is_contiguous 1 rs ≡ true → highest_version rs ≡ length rs
unfolding highest_version
highest-contiguous [] c = refl
highest-contiguous (r ∷ rs) c = let e = highest-last r rs 1 c in omega (arith, e)

-- The rows of the ledger, in order.
abbrev pub Ledger : Tables → List SchemaMigration → Type 0
Ledger t rs =
    (table : List SchemaMigration) × (t.schema_migrations ≡ some table) × (by_version table ≡ rs)

-- The definitions that a ledger of these rows has not recorded.
abbrev pub later : List SchemaMigration → List Migration → List Migration
later [] ms = ms
later (r ∷ rs) [] = []
later (r ∷ rs) (m ∷ ms) = later rs ms

pub append_nil {ℓ} : {A : Type ℓ} (l : List A) → l ++ [] ≡ l
append_nil [] = refl
append_nil (a ∷ l) = ap (λ x. a ∷ x) (append_nil l)

pub append_assoc {ℓ} :
    {A : Type ℓ} (l : List A) (a : A) (r : List A) → (l ++ a ∷ []) ++ r ≡ l ++ a ∷ r
append_assoc [] a r = refl
append_assoc (x ∷ l) a r = ap (λ y. x ∷ y) (append_assoc l a r)

pub connection-ok :
    {A : Type 0} (m : Action A) (db : ControlDatabase) {a : A}
    → (connection m db).0 ≡ ok a
    → connection m db ≡ m db
unfolding connection
connection-ok m db {a = a} h = elim (Bool-cases db.closed) [
  | inl c ↦
      let k : raised (fault StateCode.closed) ≡ ok a =
        ap (λ b. (if b then (raised (fault StateCode.closed), db) else m db).0) (sym c) ∙ h in
      absurd (cc k)
  | inr c ↦ rw c refl
]

pub created-some :
    (o : Option (List SchemaMigration)) → (rows : List SchemaMigration) × (created o ≡ some rows)
created-some none = ([], refl)
created-some (some rows) = (rows, refl)

pub ensure-ok :
    (db : ControlDatabase)
    → (ensure_schema_table db).0 ≡ ok tt
    → (rows : List SchemaMigration) × ((ensure_schema_table db).1.tables.schema_migrations
        ≡ some rows)
unfolding ensure_schema_table
ensure-ok db h =
    let make : Tables → Unit {0} × Tables =
      λ t. (tt, record t { schema_migrations = created t.schema_migrations }) in
    let (k, t) = transaction-ok (execute make) db {a = tt} h in
    let (u, t') = execute-ok make (begun db) {a = tt} k in
    let (rows, e) = created-some db.tables.schema_migrations in
    (rows, ap (λ x. x.schema_migrations) (t ∙ t') ∙ e)

pub load-Ledger :
    (db : ControlDatabase) (table rows : List SchemaMigration)
    → db.tables.schema_migrations ≡ some table
    → (load_applied db).0 ≡ ok rows
    → Ledger (load_applied db).1.tables rows
unfolding load_applied
load-Ledger db table rows e h =
    let query : Tables → Option (List SchemaMigration) × Tables = λ t. (t.schema_migrations, t) in
    let (o, k, h', same) = both-ok (execute query) (λ o. lift (ordered o)) db {b = rows} h in
    let (was, now) = execute-ok query db {a = o} k in
    let found : ordered (some table) ≡ ok rows = ap ordered (sym e ∙ was) ∙ h' in
    (
      table,
      ap (λ x. x.1.tables.schema_migrations) same ∙ (ap (λ t. t.schema_migrations) now ∙ e),
      cc found,
    )

pub with_row-ok :
    (r : SchemaMigration) (t : Tables) (rows : List SchemaMigration)
    → t.schema_migrations ≡ some rows
    → (with_row r t t.schema_migrations).0 ≡ false
    → (with_row r t t.schema_migrations).1.schema_migrations ≡ some (r ∷ rows)
with_row-ok r t rows e h = ground (arith, e, h)

pub insert_migration-ok :
    (r : SchemaMigration) (db : ControlDatabase) (rows : List SchemaMigration)
    → db.tables.schema_migrations ≡ some rows
    → (insert_migration r db).0 ≡ ok tt
    → (insert_migration r db).1.tables.schema_migrations ≡ some (r ∷ rows)
unfolding insert_migration
insert_migration-ok r db rows e h =
    let statement : Tables → Bool × Tables = λ t. with_row r t t.schema_migrations in
    let (b, k, h', same) = both-ok (execute statement) (λ b. lift (refused_if b)) db {b = tt} h in
    let (was, now) = execute-ok statement db {a = b} k in
    let fine = refused-ok b {u = tt} h' in
    ap (λ x. x.1.tables.schema_migrations) same
    ∙ (ap (λ t. t.schema_migrations) now ∙ with_row-ok r db.tables rows e (was ∙ fine))
