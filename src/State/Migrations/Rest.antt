-- ===== src/State/Migrations/Rest.antt =====
-- What the loop of `_apply_all` makes of the ledger.
use milhouse_oss.Prelude.{
  ℕ, suc, ◌+◌, ◌≡◌, ◌∙◌, refl, ap, sym, Bool, true, false, Option, none, some, List, [], ◌∷◌, ◌++◌,
  map, leb, arith, if◌then◌else◌, length, length-append, Text, text_eq_refl,
}
use mathlib.Core.Path.{subst}
use milhouse_oss.Python.Outcome.{Outcome, ok}
use milhouse_oss.State.Errors.{StateCode}
use milhouse_oss.State.Schema.{SchemaMigration, Tables}
use milhouse_oss.State.Database.{Action, ControlDatabase, ◌>>=◌, ◌>>◌, lift, execute, transaction}
use milhouse_oss.State.Database.Atomic.{begun, transaction-ok, execute-ok}
use milhouse_oss.State.Migrations.{
  Migration, is_definition, are_definitions, insert_version, by_version, is_contiguous, checksum,
  matches, refused_if, after_statement, run_statements, applied_row, insert_migration,
  apply_migration, apply_rest,
}
use milhouse_oss.State.Migrations.Ledger.{
  later, Ledger, append_assoc, append_nil, attempt-ok, both-ok, contiguous-append,
  insert-version_last, insert_migration-ok,
}

module _ (text_of : ℕ → Text) (sha256_hex : Text → Text) (effect : Text → Tables → Option Tables)
    (entry : Outcome StateCode (Unit {0}))
    -- No statement writes to the ledger.
    (quiet : (s : Text) (t t' : Tables)
      → effect s t ≡ some t'
      → t'.schema_migrations ≡ t.schema_migrations) where
  quiet-statement :
      (t : Tables) (s : Text) (o : Option Tables)
      → effect s t ≡ o
      → (after_statement t o).1.schema_migrations ≡ t.schema_migrations
  quiet-statement t s none e = refl
  quiet-statement t s (some t') e = quiet s t t' e

  abbrev run : List Text → Action (Unit {0})
  run = run_statements text_of sha256_hex effect entry

  abbrev row : Text → Migration → SchemaMigration
  row = applied_row text_of sha256_hex effect entry

  abbrev fits : List Migration → List SchemaMigration → Bool
  fits = matches text_of sha256_hex effect entry

  run-quiet :
      (ss : List Text) (db : ControlDatabase)
      → (run ss db).0 ≡ ok tt
      → (run ss db).1.tables.schema_migrations ≡ db.tables.schema_migrations
  unfolding run_statements
  run-quiet [] db h = refl
  run-quiet (s ∷ ss) db h =
      let statement : Tables → Bool × Tables = λ t. after_statement t (effect s t) in
      let first : Action (Unit {0}) = execute statement >>= λ b. lift (refused_if b) in
      let (u, e, h', same) = both-ok first (λ x. run ss) db {b = tt} h in
      let (b, k, k', same') = both-ok (execute statement) (λ b. lift (refused_if b)) db {b = u} e in
      let (was, now) = execute-ok statement db {a = b} k in
      ap (λ x. x.1.tables.schema_migrations) same
      ∙ (run-quiet ss (first db).1 h'
          ∙ (ap (λ x. x.1.tables.schema_migrations) same'
              ∙ (ap (λ t. t.schema_migrations) now
                  ∙ quiet-statement db.tables s (effect s db.tables) refl)))

  apply_migration-Ledger :
      (m : Migration) (stamp : Text) (db : ControlDatabase) (rs : List SchemaMigration)
      → Ledger db.tables rs
      → is_contiguous 1 rs ≡ true
      → m.version ≡ suc (length rs)
      → (apply_migration text_of sha256_hex effect entry m stamp db).0 ≡ ok tt
      → Ledger
          (apply_migration text_of sha256_hex effect entry m stamp db).1.tables
          (rs ++ row stamp m ∷ [])
  unfolding apply_migration by_version
  apply_migration-Ledger m stamp db rs (table, e, o) c v h =
      let body : Action (Unit {0}) = run m.statements >> insert_migration (row stamp m) in
      let h1 = attempt-ok StateCode.migration (transaction body) db {a = tt} h in
      let (h2, t) = transaction-ok body db {a = tt} h1 in
      let (u, k, h3, same) =
        both-ok (run m.statements) (λ x. insert_migration (row stamp m)) (begun db) {b = tt} h2 in
      let kept = run-quiet m.statements (begun db) k in
      let now =
        insert_migration-ok (row stamp m) (run m.statements (begun db)).1 table (kept ∙ e) h3 in
      (
        row stamp m ∷ table,
        ap (λ x. x.schema_migrations) t ∙ (ap (λ x. x.1.tables.schema_migrations) same ∙ now),
        ap (insert_version (row stamp m)) o
            ∙ insert-version_last (row stamp m) rs 1 c (omega (arith, v)),
      )

  -- From a ledger that has the first definitions on, the others are applied in turn.
  pub apply_rest-Ledger :
      (ms : List Migration) (stamp : Text) (i : ℕ) (db : ControlDatabase)
      (rs : List SchemaMigration) (v : ℕ)
      → are_definitions i ms ≡ true
      → length rs ≡ i
      → is_contiguous 1 rs ≡ true
      → Ledger db.tables rs
      → (apply_rest text_of sha256_hex effect entry ms stamp i db).0 ≡ ok v
      → (v ≡ i + length ms)
        × Ledger
            (apply_rest text_of sha256_hex effect entry ms stamp i db).1.tables
            (rs ++ map (row stamp) ms)
  unfolding apply_rest are_definitions is_definition
  apply_rest-Ledger [] stamp i db rs v d l c (table, e, o) h =
      let k : i ≡ v = cc h in (omega (arith, k), (table, e, o ∙ sym (append_nil rs)))
  apply_rest-Ledger (m ∷ ms) stamp i db rs v d l c t h =
      let at : m.version ≡ suc i = ground (arith, d) in
      let fresh : leb m.version i ≡ false = ground (arith, at) in
      let one : Action (Unit {0}) = apply_migration text_of sha256_hex effect entry m stamp in
      let others : Action ℕ = apply_rest text_of sha256_hex effect entry ms stamp m.version in
      let h' : ((one >> others) db).0 ≡ ok v =
        ap
          (λ b.
            ((if b then apply_rest text_of sha256_hex effect entry ms stamp i else (one >> others))
              db).0)
          (sym fresh)
        ∙ h in
      let (u, k, h2, same) = both-ok one (λ x. others) db {b = v} h' in
      let t' = apply_migration-Ledger m stamp db rs t c (omega (arith, at, l)) k in
      let d' : are_definitions m.version ms ≡ true = rw at (ground (arith, d)) in
      let (count, t'') =
        apply_rest-Ledger ms stamp m.version (one db).1 (rs ++ row stamp m ∷ []) v d'
          (omega (arith, at, l, length-append rs (row stamp m ∷ [])))
          (contiguous-append (row stamp m) rs 1 c (omega (arith, at, l))) t' h2 in
      (
        omega (arith, count, at),
        rw (fresh, same)
            (subst (Ledger (others (one db).1).1.tables)
              (append_assoc rs (row stamp m) (map (row stamp) ms)) t''),
      )

  fits_self : (ms : List Migration) (stamp : Text) → fits ms (map (row stamp) ms) ≡ true
  unfolding matches
  fits_self [] stamp = refl
  fits_self (m ∷ ms) stamp = ground (
    arith,
    fits_self ms stamp,
    text_eq_refl m.name,
    text_eq_refl (checksum text_of sha256_hex effect entry m),
  )

  -- Definitions that are recorded are passed over.
  pub apply_rest-later :
      (ms : List Migration) (stamp : Text) (i v : ℕ) (rs : List SchemaMigration)
      (db : ControlDatabase)
      → are_definitions i ms ≡ true
      → i + length rs ≡ v
      → fits ms rs ≡ true
      → (apply_rest text_of sha256_hex effect entry ms stamp v db
          ≡ apply_rest text_of sha256_hex effect entry (later rs ms) stamp v db)
        × (are_definitions v (later rs ms) ≡ true)
        × (i + length ms ≡ v + length (later rs ms))
        × (fits ms (rs ++ map (row stamp) (later rs ms)) ≡ true)
  unfolding apply_rest are_definitions is_definition matches
  apply_rest-later ms stamp i v [] db d l f =
      let same : i ≡ v = omega (arith, l) in
      (refl, rw (← same) d, omega (arith, same), fits_self ms stamp)
  apply_rest-later [] stamp i v (r ∷ rs) db d l f = absurd (cc f)
  apply_rest-later (m ∷ ms) stamp i v (r ∷ rs) db d l f =
      let at : m.version ≡ suc i = ground (arith, d) in
      let passed : leb m.version v ≡ true = ground (arith, at, l) in
      let (same, d', count, f') =
        apply_rest-later ms stamp (suc i) v rs db (ground (arith, d)) (omega (arith, l))
          (ground (arith, f)) in
      (rw passed same, d', omega (arith, count), ground (arith, f, f'))
