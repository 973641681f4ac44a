-- ===== src/Examples/Migrations.antt =====
-- state/migrations.py on an empty database with one migration.
use milhouse_oss.Prelude.{ℕ, ◌≡◌, refl, Option, some, [], ◌∷◌, Text, codes, length}
use milhouse_oss.Python.Outcome.{ok}
use milhouse_oss.Python.Datetime.{as_utc}
use milhouse_oss.Core.Clock.{format_timestamp}
use milhouse_oss.State.Schema.{Tables}
use milhouse_oss.State.Database.{fresh}
use milhouse_oss.State.Migrations.{Migration, migrate}
use milhouse_oss.State.Migrations.Complete.{IsRecorded, IsUpgraded, migrate-IsRecorded}
use milhouse_oss.State.Errors.{StateCode}
use milhouse_oss.State.Migrations.Upgraded.{with_ledger}
use milhouse_oss.Examples.Data.{at}

abbrev first : Migration
first = record { version = 1; name = codes "init"; statements = codes "CREATE TABLE t (x)" ∷ [] }

abbrev text_of : ℕ → Text
text_of n = codes "1"

abbrev hash : Text → Text
hash s = s

-- A statement on tables that are not modelled.
abbrev effect : Text → Tables → Option Tables
effect s t = some t

quiet :
    (s : Text) (t t' : Tables) → effect s t ≡ some t' → t'.schema_migrations ≡ t.schema_migrations
quiet s t t' h = let e : t ≡ t' = cc h in rw (← e) refl

migrated : (migrate text_of hash effect (ok tt) (first ∷ []) (at 12 0) fresh).0 ≡ ok 1
unfolding migrate format_timestamp as_utc
migrated = refl

migrate-IsRecorded_example :
    (1 ≡ length (first ∷ []))
    × IsRecorded text_of hash effect
        (ok tt)
        quiet
        (first ∷ [])
        (migrate text_of hash effect (ok tt) (first ∷ []) (at 12 0) fresh).1.tables
    × ((stamp : Text) × (format_timestamp {C = StateCode} (at 12 0) ≡ ok stamp)
        × IsUpgraded text_of hash effect
            (ok tt)
            quiet
            (first ∷ [])
            stamp
            (with_ledger fresh.tables)
            (migrate text_of hash effect (ok tt) (first ∷ []) (at 12 0) fresh).1.tables)
migrate-IsRecorded_example =
    migrate-IsRecorded text_of hash effect (ok tt) quiet (first ∷ []) (at 12 0) fresh 1 migrated
