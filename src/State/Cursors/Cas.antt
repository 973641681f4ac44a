-- ===== src/State/Cursors/Cas.antt =====
-- Compare-and-set on the revision: no advance is lost, and the revision never falls.
use milhouse_oss.Prelude.{
  ℕ, ◌≤◌, ◌≡◌, ◌≢◌, inl, inr, Bool-cases, true, false, some, List, [], ◌∷◌, arith, Text, text_eq,
  text_eq_iff, text_eq_refl,
}
use milhouse_oss.Python.Value.{Value}
use milhouse_oss.Python.Outcome.{Outcome-cases, ok}
use milhouse_oss.State.Schema.{SourceCursor, Tables}
use milhouse_oss.State.Table.{find-upsert_self, find-upsert_ne}
use milhouse_oss.State.Database.{ControlDatabase, next_fault}
use milhouse_oss.State.Cursors.{
  is_cursor, stored_cursor, cursor_revision, put_cursor, read_cursor, advance_cursor,
}
use milhouse_oss.State.Cursors.Advance.{Advanced, advance_cursor_inv, advance_cursor-IsAtomic}

pub stored-put_cursor_self :
    (c : SourceCursor) (t : Tables) → stored_cursor c.source (put_cursor c t) ≡ some c
unfolding put_cursor stored_cursor
stored-put_cursor_self c t =
    find-upsert_self (is_cursor c.source) c t.cursors (text_eq_refl c.source)

sources_apart :
    (m n : Text) → m ≢ n → (r : SourceCursor) → is_cursor m r ≡ true → is_cursor n r ≡ false
sources_apart m n ne r h = ground (arith, text_eq_iff r.source m, text_eq_iff r.source n)

pub stored-put_cursor_ne :
    (n : Text) (c : SourceCursor) (t : Tables)
    → c.source ≢ n
    → stored_cursor n (put_cursor c t) ≡ stored_cursor n t
unfolding put_cursor stored_cursor
stored-put_cursor_ne n c t ne =
    find-upsert_ne (is_cursor c.source) (is_cursor n) (sources_apart c.source n ne) c t.cursors
      (text_eq_refl c.source)

-- The arguments of one `advance_cursor`.
pub record Call : Type 0 where
  pub source : Value
  pub position : Value
  pub batch : Value
  pub now : Value
  pub expected : Value

pub run : Call → ControlDatabase → ControlDatabase
run k db = (advance_cursor k.source k.position k.batch k.now k.expected db).1

pub run_all : List Call → ControlDatabase → ControlDatabase
unfolding run
run_all [] db = db
run_all (k ∷ ks) db = run_all ks (run k db)

-- The revision of a source, as the next advance will see it.
abbrev pub revision_of : Text → ControlDatabase → ℕ
revision_of source db = cursor_revision (stored_cursor source db.tables)

Advanced-grows :
    (before after : Tables) (n : ℕ) (b source : Text) (c : SourceCursor)
    → Advanced before after n b c
    → cursor_revision (stored_cursor source before) ≤ cursor_revision (stored_cursor source after)
Advanced-grows before after n b source c a = elim (Bool-cases (text_eq c.source source)) [
  | inl same ↦
      let e = (text_eq_iff c.source source).0 same in
      ground (arith, e, stored-put_cursor_self c before)
  | inr apart ↦ ground (arith, text_eq_iff c.source source, stored-put_cursor_ne source c before)
]

run-grows :
    (source : Text) (k : Call) (db : ControlDatabase)
    → revision_of source db ≤ revision_of source (run k db)
unfolding run
run-grows source k db =
    let m = advance_cursor k.source k.position k.batch k.now k.expected in
    elim (Outcome-cases (m db).0) [
      | inl (c, h) ↦
          let (n, b, es, ep, eb, en, ev, a) =
            advance_cursor_inv k.source k.position k.batch k.now k.expected db h in
          Advanced-grows db.tables (m db).1.tables n b source c a
      | inr (d, h) ↦ ground (
        arith,
        (advance_cursor-IsAtomic k.source k.position k.batch k.now k.expected).unchanged db d h,
      )
    ]

-- No sequence of advances, failing ones included, lowers the revision of a source.
pub revision_never_falls :
    (source : Text) (ks : List Call) (db : ControlDatabase)
    → revision_of source db ≤ revision_of source (run_all ks db)
unfolding run_all
revision_never_falls source [] db = omega arith
revision_never_falls source (k ∷ ks) db =
    omega (arith, run-grows source k db, revision_never_falls source ks (run k db))

module _ (source position batch now expected : Value) (db : ControlDatabase)
    {c : SourceCursor} where
  -- Once an advance has returned, no later call that expects the same revision of that source
  -- returns, whatever advances have been made in between.
  pub lost_update_refused :
      (ks : List Call) (position' batch' now' : Value) {d : SourceCursor}
      → (advance_cursor source position batch now expected db).0 ≡ ok c
      → let after = run_all ks (advance_cursor source position batch now expected db).1 in
        (advance_cursor source position' batch' now' expected after).0 ≢ ok d
  lost_update_refused ks position' batch' now' {d} h h' =
      let first = advance_cursor source position batch now expected db in
      let (n, b, es, ep, eb, en, ev, a) =
        advance_cursor_inv source position batch now expected db h in
      let (n', b', es', ep', eb', en', ev', a') =
        advance_cursor_inv source position' batch' now' expected (run_all ks first.1) h' in
      ground (
        arith,
        stored-put_cursor_self c db.tables,
        revision_never_falls c.source ks first.1,
        a.next,
        a.stored,
        a'.observed,
      )

  -- A cursor that was advanced is read back as it was returned, while the database is open and
  -- answers.
  pub read-advance_cursor :
      (advance_cursor source position batch now expected db).0 ≡ ok c
      → (advance_cursor source position batch now expected db).1.closed ≡ false
      → next_fault (advance_cursor source position batch now expected db).1.faults ≡ false
      → (read_cursor source (advance_cursor source position batch now expected db).1).0
        ≡ ok (some c)
  unfolding read_cursor
  read-advance_cursor h open_after live =
      let (n, b, es, ep, eb, en, ev, a) =
        advance_cursor_inv source position batch now expected db h in
      ground (arith, a.encoded, a.stored, stored-put_cursor_self c db.tables)
