-- ===== src/State/Migrations/Upgraded.antt =====
-- What a run of migrations does to the tables: the effects of the statements, one by one.
use milhouse_oss.Prelude.{
  ℕ, suc, ◌≡◌, ◌∙◌, refl, ap, sym, Bool, true, false, Option, none, some, List, [], ◌∷◌, leb, arith,
  if◌then◌else◌, Text,
}
use mathlib.Core.Path.{subst}
use milhouse_oss.Python.Outcome.{Outcome, ok}
use milhouse_oss.State.Errors.{StateCode}
use milhouse_oss.State.Schema.{SchemaMigration, Tables}
use milhouse_oss.State.Database.{Action, ControlDatabase, ◌>>=◌, ◌>>◌, lift, execute, transaction}
use milhouse_oss.State.Database.Atomic.{begun, transaction-ok, execute-ok}
use milhouse_oss.State.Migrations.{
  Migration, is_definition, are_definitions, checksum, created, ensure_schema_table, ordered,
  load_applied, refused_if, after_statement, with_row, run_statements, applied_row,
  insert_migration, apply_migration, apply_rest,
}
use milhouse_oss.State.Migrations.Ledger.{attempt-ok, both-ok, refused-ok}

-- The tables once the ledger exists.
abbrev pub with_ledger : Tables → Tables
with_ledger t = record t { schema_migrations = created t.schema_migrations }

pub ensure-with_ledger :
    (db : ControlDatabase)
    → (ensure_schema_table db).0 ≡ ok tt
    → (ensure_schema_table db).1.tables ≡ with_ledger db.tables
unfolding ensure_schema_table
ensure-with_ledger db h =
    let make : Tables → Unit {0} × Tables = λ t. (tt, with_ledger t) in
    let (k, t) = transaction-ok (execute make) db {a = tt} h in
    t ∙ (execute-ok make (begun db) {a = tt} k).1

pub load-unchanged :
    (db : ControlDatabase) {rows : List SchemaMigration}
    → (load_applied db).0 ≡ ok rows
    → (load_applied db).1.tables ≡ db.tables
unfolding load_applied
load-unchanged db {rows} h =
    let query : Tables → Option (List SchemaMigration) × Tables = λ t. (t.schema_migrations, t) in
    let (o, k, h', same) = both-ok (execute query) (λ o. lift (ordered o)) db {b = rows} h in
    ap (λ x. x.1.tables) same ∙ (execute-ok query db {a = o} k).1

with_row-some :
    (r : SchemaMigration) (t : Tables) (o : Option (List SchemaMigration))
    → (with_row r t o).0 ≡ false
    → (rows : List SchemaMigration) × (o ≡ some rows)
      × ((with_row r t o).1 ≡ record t { schema_migrations = some (r ∷ rows) })
with_row-some r t none h = absurd (cc h)
with_row-some r t (some rows) h = (rows, refl, ground (arith, h))

-- A row that is inserted is the one thing that is new.
insert-recorded :
    (r : SchemaMigration) (db : ControlDatabase)
    → (insert_migration r db).0 ≡ ok tt
    → (rows : List SchemaMigration) × (db.tables.schema_migrations ≡ some rows)
      × ((insert_migration r db).1.tables
          ≡ record db.tables { schema_migrations = some (r ∷ rows) })
unfolding insert_migration
insert-recorded r db h =
    let statement : Tables → Bool × Tables = λ t. with_row r t t.schema_migrations in
    let (b, k, h', same) = both-ok (execute statement) (λ b. lift (refused_if b)) db {b = tt} h in
    let (was, now) = execute-ok statement db {a = b} k in
    let (rows, e, t) =
      with_row-some r db.tables db.tables.schema_migrations (was ∙ refused-ok b {u = tt} h') in
    (rows, e, ap (λ x. x.1.tables) same ∙ (now ∙ t))

module _ (text_of : ℕ → Text) (sha256_hex : Text → Text) (effect : Text → Tables → Option Tables)
    (entry : Outcome StateCode (Unit {0})) where
  -- Statements that take effect, one after another.
  pub data Ran : List Text → Tables → Tables → Type 0 where
    finished : {t : Tables} → Ran [] t t
    statement :
        {s : Text} {ss : List Text} {t t' t'' : Tables}
        → effect s t ≡ some t'
        → Ran ss t' t''
        → Ran (s ∷ ss) t t''

  -- Migrations one after another: all statements of one, and then its row in the ledger.
  pub data Upgraded (stamp : Text) : List Migration → Tables → Tables → Type 0 where
    finished : {t : Tables} → Upgraded stamp [] t t
    migration :
        {m : Migration} {ms : List Migration} {t t' t'' : Tables} (rows : List SchemaMigration)
        → Ran m.statements t t'
        → t'.schema_migrations ≡ some rows
        → Upgraded stamp ms
            (record t' {
              schema_migrations = some (
                  record {
                    version = m.version;
                    name = m.name;
                    checksum = checksum text_of sha256_hex effect entry m;
                    applied_at = stamp;
                  }
                  ∷ rows);
            })
            t''
        → Upgraded stamp (m ∷ ms) t t''

  abbrev run : List Text → Action (Unit {0})
  run = run_statements text_of sha256_hex effect entry

  abbrev row : Text → Migration → SchemaMigration
  row = applied_row text_of sha256_hex effect entry

  statement-some :
      (t : Tables) (o : Option Tables)
      → (after_statement t o).0 ≡ false
      → o ≡ some (after_statement t o).1
  statement-some t none h = absurd (cc h)
  statement-some t (some t') h = refl

  run-Ran :
      (ss : List Text) (db : ControlDatabase)
      → (run ss db).0 ≡ ok tt
      → Ran ss db.tables (run ss db).1.tables
  unfolding run_statements
  run-Ran [] db h = finished
  run-Ran (s ∷ ss) db h =
      let one : Tables → Bool × Tables = λ t. after_statement t (effect s t) in
      let first : Action (Unit {0}) = execute one >>= λ b. lift (refused_if b) in
      let (u, e, h', same) = both-ok first (λ x. run ss) db {b = tt} h in
      let (b, k, k', same') = both-ok (execute one) (λ b. lift (refused_if b)) db {b = u} e in
      let (was, now) = execute-ok one db {a = b} k in
      let moved : (first db).1.tables ≡ (one db.tables).1 = ap (λ x. x.1.tables) same' ∙ now in
      let taken = statement-some db.tables (effect s db.tables) (was ∙ refused-ok b {u = u} k') in
      subst (Ran (s ∷ ss) db.tables) (ap (λ x. x.1.tables) (sym same))
        (statement (taken ∙ ap some (sym moved)) (run-Ran ss (first db).1 h'))

  apply_migration-Ran :
      (m : Migration) (stamp : Text) (db : ControlDatabase)
      → (apply_migration text_of sha256_hex effect entry m stamp db).0 ≡ ok tt
      → (t : Tables) × (rows : List SchemaMigration) × Ran m.statements db.tables t
        × (t.schema_migrations ≡ some rows)
        × ((apply_migration text_of sha256_hex effect entry m stamp db).1.tables
            ≡ record t { schema_migrations = some (row stamp m ∷ rows) })
  unfolding apply_migration
  apply_migration-Ran m stamp db h =
      let body : Action (Unit {0}) = run m.statements >> insert_migration (row stamp m) in
      let h1 = attempt-ok StateCode.migration (transaction body) db {a = tt} h in
      let (h2, t) = transaction-ok body db {a = tt} h1 in
      let (u, k, h3, same) =
        both-ok (run m.statements) (λ x. insert_migration (row stamp m)) (begun db) {b = tt} h2 in
      let (rows, e, t') = insert-recorded (row stamp m) (run m.statements (begun db)).1 h3 in
      (
        (run m.statements (begun db)).1.tables,
        rows,
        run-Ran m.statements (begun db) k,
        e,
        t ∙ (ap (λ x. x.1.tables) same ∙ t'),
      )

  pub apply_rest-Upgraded :
      (ms : List Migration) (stamp : Text) (i : ℕ) (db : ControlDatabase) (v : ℕ)
      → are_definitions i ms ≡ true
      → (apply_rest text_of sha256_hex effect entry ms stamp i db).0 ≡ ok v
      → Upgraded stamp ms db.tables
          (apply_rest text_of sha256_hex effect entry ms stamp i db).1.tables
  unfolding apply_rest are_definitions is_definition
  apply_rest-Upgraded [] stamp i db v d h = finished
  apply_rest-Upgraded (m ∷ ms) stamp i db v d h =
      let at : m.version ≡ suc i = ground (arith, d) in
      let fresh : leb m.version i ≡ false = ground (arith, at) in
      let one : Action (Unit {0}) = apply_migration text_of sha256_hex effect entry m stamp in
      let others : Action ℕ = apply_rest text_of sha256_hex effect entry ms stamp m.version in
      let passed : Action ℕ = apply_rest text_of sha256_hex effect entry ms stamp i in
      let chosen : (if leb m.version i then passed else (one >> others)) db ≡ (one >> others) db =
        ap (λ b. (if b then passed else (one >> others)) db) fresh in
      let (u, k, h2, same) =
        both-ok one (λ x. others) db {b = v} (ap (λ x. x.0) (sym chosen) ∙ h) in
      let d' : are_definitions m.version ms ≡ true = rw at (ground (arith, d)) in
      let (t, rows, ran, e, now) = apply_migration-Ran m stamp db k in
      let rest = apply_rest-Upgraded ms stamp m.version (one db).1 v d' h2 in
      let rest' = subst (λ x. Upgraded stamp ms x (others (one db).1).1.tables) now rest in
      subst (Upgraded stamp (m ∷ ms) db.tables) (ap (λ x. x.1.tables) (sym (chosen ∙ same)))
        (migration rows ran e rest')
