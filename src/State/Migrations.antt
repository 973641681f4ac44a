-- ===== src/State/Migrations.antt =====
-- src/milhouse/state/migrations.py: the ordered migrations and their ledger.
pub mod Ledger
pub mod Upgraded
pub mod Rest
pub mod Complete
use milhouse_oss.Prelude.{
  ℕ, suc, Bool, true, false, not, ◌&&◌, ◌||◌, Option, none, some, List, [], ◌∷◌, ◌++◌, ltb, leb,
  ◌==◌, if◌then◌else◌, all, any, Text, text_eq,
}
use milhouse_oss.Python.Patterns.{between}
use milhouse_oss.Python.Value.{Value}
use milhouse_oss.Python.Outcome
use milhouse_oss.Python.Outcome.{Outcome, ok, raised, sqlite_error, normalize, fail_if}
use milhouse_oss.Core.Clock.{format_timestamp}
use milhouse_oss.State.Errors.{StateCode}
use milhouse_oss.State.Schema.{SchemaMigration, Tables}
use milhouse_oss.State.Database.{
  Action, ◌>>=◌, ◌>>◌, pure, lift, execute, change, select, connection, transaction, attempt_sqlite,
}

pub record Migration : Type 0 where
  pub version : ℕ
  pub name : Text
  pub statements : List Text

-- What `str.strip` takes away.
abbrev is_space : ℕ → Bool
is_space c =
    between 9 13 c
    || between 28 32 c
    || (c == 133)
    || (c == 160)
    || (c == 5760)
    || between 8192 8202 c
    || (c == 8232)
    || (c == 8233)
    || (c == 8239)
    || (c == 8287)
    || (c == 12288)

abbrev is_empty {ℓ} : {A : Type ℓ} → List A → Bool
is_empty [] = true
is_empty (a ∷ l) = false

-- The tests of one definition, at its index from 0.
unfoldable pub is_definition : ℕ → Migration → Bool
is_definition index m =
    (m.version == suc index)
    && not (is_empty m.name)
    && not (is_empty m.statements)
    && not (any (all is_space) m.statements)

unfoldable pub are_definitions : ℕ → List Migration → Bool
unfolding is_definition
are_definitions index [] = true
are_definitions index (m ∷ ms) = is_definition index m && are_definitions (suc index) ms

-- `_validate_definitions`
unfoldable pub validate_definitions : List Migration → Outcome StateCode (Unit {0})
unfolding are_definitions
validate_definitions ms = fail_if (not (are_definitions 0 ms)) StateCode.migration

-- `CREATE TABLE IF NOT EXISTS`
abbrev pub created : Option (List SchemaMigration) → Option (List SchemaMigration)
created none = some []
created (some rows) = some rows

-- `_ensure_schema_table`
unfoldable pub ensure_schema_table : Action (Unit {0})
unfolding transaction
ensure_schema_table =
    transaction (change (λ t. record t { schema_migrations = created t.schema_migrations }))

-- `ORDER BY version`
unfoldable pub insert_version : SchemaMigration → List SchemaMigration → List SchemaMigration
insert_version r [] = r ∷ []
insert_version r (x ∷ xs) =
    let rest = insert_version r xs in if ltb x.version r.version then x ∷ rest else r ∷ x ∷ xs

unfoldable pub by_version : List SchemaMigration → List SchemaMigration
unfolding insert_version
by_version [] = []
by_version (r ∷ rs) = insert_version r (by_version rs)

abbrev pub ordered : Option (List SchemaMigration) → Outcome StateCode (List SchemaMigration)
ordered none = raised sqlite_error
ordered (some rows) = ok (by_version rows)

-- `_load_applied`
unfoldable pub load_applied : Action (List SchemaMigration)
unfolding execute by_version
load_applied = select (λ t. t.schema_migrations) >>= λ rows. lift (ordered rows)

-- `sorted(applied) == list(range(1, n + 1))`, of versions in order.
unfoldable pub is_contiguous : ℕ → List SchemaMigration → Bool
is_contiguous version [] = true
is_contiguous version (r ∷ rs) = (r.version == version) && is_contiguous (suc version) rs

-- `max(applied) if applied else 0`, of rows in order.
unfoldable pub highest_version : List SchemaMigration → ℕ
highest_version [] = 0
highest_version (r ∷ []) = r.version
highest_version (r ∷ s ∷ rs) = highest_version (s ∷ rs)

-- `"\n".join`
unfoldable pub join_lines : List Text → Text
join_lines [] = []
join_lines (s ∷ []) = s
join_lines (s ∷ t ∷ ts) = s ++ 10 ∷ join_lines (t ∷ ts)

abbrev pub refused_if : Bool → Outcome StateCode (Unit {0})
refused_if true = raised sqlite_error
refused_if false = ok tt

abbrev pub after_statement : Tables → Option Tables → Bool × Tables
after_statement t none = (true, t)
after_statement t (some t') = (false, t')

abbrev pub has_version : ℕ → List SchemaMigration → Bool
has_version v rows = any (λ r. r.version == v) rows

-- `INSERT INTO _schema_migrations`
abbrev pub with_row : SchemaMigration → Tables → Option (List SchemaMigration) → Bool × Tables
with_row r t none = (true, t)
with_row r t (some rows) =
    if has_version r.version rows
    then (true, t)
    else (false, record t { schema_migrations = some (r ∷ rows) })

unfoldable pub insert_migration : SchemaMigration → Action (Unit {0})
unfolding execute
insert_migration r =
    execute (λ t. with_row r t t.schema_migrations) >>= λ refused. lift (refused_if refused)

-- `text_of` is `str` of a number, `sha256_hex` the hash of the UTF-8 bytes of a text, `effect` what a
-- statement makes of the tables, or nothing where SQLite refuses it, `entry` how the acquisition of the
-- exclusive side of the barrier ends.
module _ (text_of : ℕ → Text) (sha256_hex : Text → Text) (effect : Text → Tables → Option Tables)
    (entry : Outcome StateCode (Unit {0})) where
  -- `_checksum`
  unfoldable pub checksum : Migration → Text
  unfolding join_lines
  checksum m = sha256_hex (join_lines (text_of m.version ∷ m.name ∷ m.statements))

  -- Row by row, of versions that are contiguous on both sides.
  unfoldable pub matches : List Migration → List SchemaMigration → Bool
  unfolding checksum
  matches ms [] = true
  matches [] (r ∷ rs) = false
  matches (m ∷ ms) (r ∷ rs) =
      text_eq r.name m.name && text_eq r.checksum (checksum m) && matches ms rs

  -- `_validate_applied_prefix`
  unfoldable pub validate_applied_prefix :
      List SchemaMigration → List Migration → Outcome StateCode (Unit {0})
  unfolding is_contiguous matches
  validate_applied_prefix rows ms =
      fail_if (not (is_contiguous 1 rows && matches ms rows)) StateCode.migration

  unfoldable pub run_statements : List Text → Action (Unit {0})
  unfolding execute
  run_statements [] = pure tt
  run_statements (s ∷ ss) =
      (execute (λ t. after_statement t (effect s t)) >>= λ refused. lift (refused_if refused))
      >> run_statements ss

  abbrev pub applied_row : Text → Migration → SchemaMigration
  applied_row stamp m = record {
    version = m.version;
    name = m.name;
    checksum = checksum m;
    applied_at = stamp;
  }

  -- `_apply_one`
  unfoldable pub apply_migration : Migration → Text → Action (Unit {0})
  unfolding transaction run_statements insert_migration
  apply_migration m stamp =
      attempt_sqlite StateCode.migration
        (transaction (run_statements m.statements >> insert_migration (applied_row stamp m)))

  -- The loop of `_apply_all`, and the version that it ends at.
  unfoldable pub apply_rest : List Migration → Text → ℕ → Action ℕ
  unfolding apply_migration
  apply_rest [] stamp version = pure version
  apply_rest (m ∷ ms) stamp version =
      if leb m.version version
      then apply_rest ms stamp version
      else (apply_migration m stamp >> apply_rest ms stamp m.version)

  -- `_apply_all`
  unfoldable pub apply_migrations : List Migration → Text → Action ℕ
  unfolding ensure_schema_table connection load_applied validate_applied_prefix highest_version
      apply_rest
  apply_migrations ms stamp = attempt_sqlite StateCode.migration (do
    ensure_schema_table
    rows ← connection load_applied
    lift (validate_applied_prefix rows ms)
    apply_rest ms stamp (highest_version rows))

  unfoldable pub migrate : List Migration → Value → Action ℕ
  unfolding validate_definitions apply_migrations
  migrate ms applied_at = do
    lift (validate_definitions ms)
    stamp ← lift (normalize StateCode.migration (format_timestamp applied_at))
    lift entry
    apply_migrations ms stamp

-- `schema_version`
unfoldable pub schema_version : Action ℕ
unfolding connection execute by_version highest_version
schema_version = connection (
    attempt_sqlite StateCode.migration do
      present ← select (λ t. t.schema_migrations)
      elim present [ none ↦ pure 0 | some rows ↦ select (λ t. highest_version (by_version rows)) ])
