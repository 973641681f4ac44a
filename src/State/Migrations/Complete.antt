-- ===== src/State/Migrations/Complete.antt =====
-- What a migration that returns has recorded.
use milhouse_oss.Prelude.{
  ℕ, suc, ◌≡◌, ◌∙◌, refl, ap, sym, Bool, true, not, ◌&&◌, Option, some, List, [], ◌∷◌, ◌++◌, map,
  arith, length, length-append, Text,
}
use mathlib.Core.Path.{subst}
use milhouse_oss.Python.Outcome.{Outcome, ok, normalize, normalize-ok, fail_if-ok}
use milhouse_oss.Python.Value.{Value}
use milhouse_oss.Core.Clock.{format_timestamp}
use milhouse_oss.State.Errors.{StateCode}
use milhouse_oss.State.Schema.{SchemaMigration, Tables}
use milhouse_oss.State.Database.{Action, ControlDatabase, ◌>>=◌, ◌>>◌, lift, connection}
use milhouse_oss.State.Database.Atomic.{lift-bind-ok}
use milhouse_oss.State.Migrations.{
  Migration, are_definitions, validate_definitions, ensure_schema_table, load_applied,
  is_contiguous, highest_version, matches, validate_applied_prefix, applied_row, apply_rest,
  apply_migrations, migrate,
}
use milhouse_oss.State.Migrations.Upgraded.{
  with_ledger, ensure-with_ledger, load-unchanged, Upgraded, apply_rest-Upgraded,
}
use milhouse_oss.State.Migrations.Ledger.{
  later, Ledger, attempt-ok, both-ok, connection-ok, ensure-ok, highest-contiguous, load-Ledger,
}
use milhouse_oss.State.Migrations.Rest.{apply_rest-Ledger, apply_rest-later}

module _ (text_of : ℕ → Text) (sha256_hex : Text → Text) (effect : Text → Tables → Option Tables)
    (entry : Outcome StateCode (Unit {0}))
    -- No statement writes to the ledger.
    (quiet : (s : Text) (t t' : Tables)
      → effect s t ≡ some t'
      → t'.schema_migrations ≡ t.schema_migrations) where
  abbrev row : Text → Migration → SchemaMigration
  row = applied_row text_of sha256_hex effect entry

  abbrev fits : List Migration → List SchemaMigration → Bool
  fits = matches text_of sha256_hex effect entry

  -- The ledger has a row for every definition, in order.
  abbrev pub IsRecorded : List Migration → Tables → Type 0
  IsRecorded ms t =
      (rs : List SchemaMigration) × Ledger t rs × (length rs ≡ length ms) × (fits ms rs ≡ true)

  length-rows : (ms : List Migration) (stamp : Text) → length (map (row stamp) ms) ≡ length ms
  length-rows [] stamp = refl
  length-rows (m ∷ ms) stamp = ap suc (length-rows ms stamp)

  -- The rows of before agree with their definitions, and the definitions past them have been run, in
  -- order, on top of the tables of before: each one's statements, and then its row.
  abbrev pub IsUpgraded : List Migration → Text → Tables → Tables → Type 0
  IsUpgraded ms stamp before after =
      (rs : List SchemaMigration) × Ledger before rs
      × (is_contiguous 1 rs ≡ true)
      × (fits ms rs ≡ true)
      × Upgraded text_of sha256_hex effect entry stamp (later rs ms) before after

  rest-IsUpgraded :
      (ms : List Migration) (stamp : Text) (db : ControlDatabase) (rs : List SchemaMigration)
      (v : ℕ)
      → are_definitions 0 ms ≡ true
      → is_contiguous 1 rs ≡ true
      → fits ms rs ≡ true
      → Ledger db.tables rs
      → (apply_rest text_of sha256_hex effect entry ms stamp (highest_version rs) db).0 ≡ ok v
      → IsUpgraded ms stamp db.tables
          (apply_rest text_of sha256_hex effect entry ms stamp (highest_version rs) db).1.tables
  rest-IsUpgraded ms stamp db rs v d c f t h =
      let top = highest-contiguous rs c in
      let (same, d', count, f') =
        apply_rest-later text_of sha256_hex effect entry quiet ms stamp 0 (highest_version rs) rs db
          d (omega (arith, top)) f in
      let up =
        apply_rest-Upgraded text_of sha256_hex effect entry (later rs ms) stamp (highest_version rs)
          db v d' (ap (λ x. x.0) (sym same) ∙ h) in
      (
        rs,
        t,
        c,
        f,
        subst
            (λ x. Upgraded text_of sha256_hex effect entry stamp (later rs ms) db.tables x.1.tables)
            (sym same) up,
      )

  rest-IsRecorded :
      (ms : List Migration) (stamp : Text) (db : ControlDatabase) (rs : List SchemaMigration)
      (v : ℕ)
      → are_definitions 0 ms ≡ true
      → is_contiguous 1 rs ≡ true
      → fits ms rs ≡ true
      → Ledger db.tables rs
      → (apply_rest text_of sha256_hex effect entry ms stamp (highest_version rs) db).0 ≡ ok v
      → (v ≡ length ms)
        × IsRecorded ms
            (apply_rest text_of sha256_hex effect entry ms stamp (highest_version rs) db).1.tables
  rest-IsRecorded ms stamp db rs v d c f t h =
      let top = highest-contiguous rs c in
      let (same, d', count, f') =
        apply_rest-later text_of sha256_hex effect entry quiet ms stamp 0 (highest_version rs) rs db
          d (omega (arith, top)) f in
      let (v', t') =
        apply_rest-Ledger text_of sha256_hex effect entry quiet (later rs ms) stamp
          (highest_version rs) db rs v d' (sym top) c t (ap (λ x. x.0) (sym same) ∙ h) in
      (
        omega (arith, v', count),
        (
          rs ++ map (row stamp) (later rs ms),
          subst (λ x. Ledger x.1.tables (rs ++ map (row stamp) (later rs ms))) (sym same) t',
          omega (
            arith,
            count,
            top,
            length-append rs (map (row stamp) (later rs ms)),
            length-rows (later rs ms) stamp,
          ),
          f',
        ),
      )

  apply_migrations-IsRecorded :
      (ms : List Migration) (stamp : Text) (db : ControlDatabase) (v : ℕ)
      → are_definitions 0 ms ≡ true
      → (apply_migrations text_of sha256_hex effect entry ms stamp db).0 ≡ ok v
      → (v ≡ length ms)
        × IsRecorded ms (apply_migrations text_of sha256_hex effect entry ms stamp db).1.tables
        × IsUpgraded ms stamp
            (with_ledger db.tables)
            (apply_migrations text_of sha256_hex effect entry ms stamp db).1.tables
  unfolding apply_migrations validate_applied_prefix
  apply_migrations-IsRecorded ms stamp db v d h =
      let validate : List SchemaMigration → Outcome StateCode (Unit {0}) =
        λ rows. validate_applied_prefix text_of sha256_hex effect entry rows ms in
      let go : List SchemaMigration → Action ℕ =
        λ rows. apply_rest text_of sha256_hex effect entry ms stamp (highest_version rows) in
      let after_load : List SchemaMigration → Action ℕ = λ rows. lift (validate rows) >> go rows in
      let h0 =
        attempt-ok StateCode.migration
          (ensure_schema_table >> (connection load_applied >>= after_load)) db {a = v} h in
      let (u, k1, h1, s1) =
        both-ok ensure_schema_table (λ x. connection load_applied >>= after_load) db {b = v} h0 in
      let db1 = (ensure_schema_table db).1 in
      let (table, e) = ensure-ok db k1 in
      let (rows, k2, h2, s2) = both-ok (connection load_applied) after_load db1 {b = v} h1 in
      let whole = connection-ok load_applied db1 {a = rows} k2 in
      let t : Ledger (connection load_applied db1).1.tables rows =
        subst (λ x. Ledger x.1.tables rows) (sym whole)
          (load-Ledger db1 table rows e (ap (λ x. x.0) (sym whole) ∙ k2)) in
      let db2 = (connection load_applied db1).1 in
      let (w, k3, s3, h3) = lift-bind-ok (validate rows) (λ x. go rows) db2 {b = v} h2 in
      let valid =
        fail_if-ok (not (is_contiguous 1 rows && fits ms rows)) StateCode.migration {u = w} k3 in
      let (count, r) =
        rest-IsRecorded ms stamp db2 rows v d (ground (arith, valid)) (ground (arith, valid)) t
          h3 in
      let up =
        rest-IsUpgraded ms stamp db2 rows v d (ground (arith, valid)) (ground (arith, valid)) t
          h3 in
      let start : db2.tables ≡ with_ledger db.tables =
        ap (λ x. x.1.tables) whole
        ∙ (load-unchanged db1 {rows = rows} (ap (λ x. x.0) (sym whole) ∙ k2)
            ∙ ensure-with_ledger db k1) in
      (
        count,
        subst (λ x. IsRecorded ms x.1.tables) (sym (s1 ∙ (s2 ∙ s3))) r,
        subst
            (λ x.
              IsUpgraded ms stamp x
                (apply_migrations text_of sha256_hex effect entry ms stamp db).1.tables)
            start
            (subst (λ x. IsUpgraded ms stamp db2.tables x.1.tables) (sym (s1 ∙ (s2 ∙ s3))) up),
      )

  -- A call of `migrate` that returns gives the number of the definitions, and leaves a ledger that has
  -- recorded every one of them, in order, each under its name and its checksum. The rows that were
  -- there, in the ledger that is created where there was none, were numbered from 1 and agreed with
  -- their definitions; and from the tables of before, every definition past them was applied, in order,
  -- all its statements taking effect one after another and its row, with the timestamp of the instant,
  -- entering the ledger after them. No statement of a migration writes to the ledger.
  pub migrate-IsRecorded :
      (ms : List Migration) (applied_at : Value) (db : ControlDatabase) (v : ℕ)
      → (migrate text_of sha256_hex effect entry ms applied_at db).0 ≡ ok v
      → (v ≡ length ms)
        × IsRecorded ms (migrate text_of sha256_hex effect entry ms applied_at db).1.tables
        × ((stamp : Text) × (format_timestamp {C = StateCode} applied_at ≡ ok stamp)
            × IsUpgraded ms stamp
                (with_ledger db.tables)
                (migrate text_of sha256_hex effect entry ms applied_at db).1.tables)
  unfolding migrate validate_definitions
  migrate-IsRecorded ms applied_at db v h =
      let (u, e1, s1, h1) = lift-bind-ok (validate_definitions ms) _ db {b = v} h in
      let (stamp, e2, s2, h2) =
        lift-bind-ok (normalize StateCode.migration (format_timestamp applied_at)) _ db {b = v}
          h1 in
      let (w, e3, s3, h3) = lift-bind-ok entry _ db {b = v} h2 in
      let d = fail_if-ok (not (are_definitions 0 ms)) StateCode.migration {u = u} e1 in
      let (count, r, up) = apply_migrations-IsRecorded ms stamp db v (ground (arith, d)) h3 in
      (
        count,
        subst (λ x. IsRecorded ms x.1.tables) (sym (s1 ∙ (s2 ∙ s3))) r,
        (
          stamp,
          normalize-ok StateCode.migration (format_timestamp applied_at) e2,
          subst (λ x. IsUpgraded ms stamp (with_ledger db.tables) x.1.tables) (sym (s1 ∙ (s2 ∙ s3)))
              up,
        ),
      )
