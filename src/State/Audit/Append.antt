-- ===== src/State/Audit/Append.antt =====
-- What a recorded prune adds to the audit trail, and that it can be read back.
use milhouse_oss.Prelude.{
  ℕ, suc, ◌<◌, ◌≤◌, ◌^◌, ◌≡◌, ◌∙◌, ap, refl, Bool, true, if◌then◌else◌, Option, none, some, List,
  [], ◌∷◌, ◌++◌, arith, Text, codes, text_eq_iff, ◌-◌, length, length-append, pos, inl, inr,
}
use milhouse_oss.Python.Value.{Value, bool, str, int}
use milhouse_oss.Python.Outcome.{Outcome-cases, ok}
use milhouse_oss.Core.Clock.{format_timestamp}
use milhouse_oss.State.Errors.{StateCode}
use milhouse_oss.State.Schema.{AuditRecord, Tables}
use milhouse_oss.State.Database.{ControlDatabase, healthy}
use milhouse_oss.State.Database.Atomic.{lift-bind-ok}
use milhouse_oss.State.Audit.{
  is_fingerprint_token, validate_flag, validate_resource, validate_count, keyed_resource,
  append_audit, insert_audit, prune_row, record_retention_prune, select_action, limited, list_audit,
}

-- Nothing, or a text of the form of a keyed pseudonym.
abbrev pub IsSafe : Option Text → Type 0
IsSafe none = Unit
IsSafe (some token) = is_fingerprint_token token ≡ true

count-int : (v : Value) {n : ℕ} → validate_count v ≡ ok n → (v ≡ int (pos n)) × (n < 2 ^ 63)
unfolding validate_count
count-int (int (pos n)) h = ground arith
count-int _ h = absurd (cc h)

flag-bool : (v : Value) {b : Bool} → validate_flag v ≡ ok b → v ≡ bool b
unfolding validate_flag
flag-bool (bool b) h = cc h
flag-bool _ h = absurd (cc h)

resource-str : (v : Value) {s : Text} → validate_resource v ≡ ok s → v ≡ str s
unfolding validate_resource
resource-str (str s) h = ground arith
resource-str _ h = absurd (cc h)

-- The pseudonym of a batch under a key, or nothing without one.
abbrev pub IsKeyed : Option (Text → Text → Text) → Text → Option Text → Type 0
IsKeyed none batch_id resource = resource ≡ none
IsKeyed (some fingerprint) batch_id resource =
    (resource ≡ some (fingerprint (codes "batch") batch_id))
    × (is_fingerprint_token (fingerprint (codes "batch") batch_id) ≡ true)
    × (length (fingerprint (codes "batch") batch_id) ≤ 128)

keyed_resource-IsKeyed :
    (p : Option (Text → Text → Text)) (batch_id : Text) {r : Option Text}
    → keyed_resource p batch_id ≡ ok r
    → IsKeyed p batch_id r
unfolding keyed_resource
keyed_resource-IsKeyed none b h = ground arith
keyed_resource-IsKeyed (some f) b h = ground arith

insert_lem :
    (now : Value) (row : Text → AuditRecord) (db : ControlDatabase)
    → (insert_audit now row db).0 ≡ ok tt
    → (s : Text) × (format_timestamp {C = StateCode} now ≡ ok s)
      × ((insert_audit now row db).1.tables ≡ append_audit (row s) db.tables)
unfolding insert_audit
insert_lem now row db h = elim (Outcome-cases (format_timestamp {C = StateCode} now)) [
  | inl (s, e) ↦ (s, e, ground (arith, e))
  | inr (d, e) ↦ absurd (ground (arith, e))
]

-- What one recorded prune has done to the tables.
pub record Recorded (before after : Tables) (now : Value) : Type 0 where
  pub stamp : Text
  pub undelivered : Bool
  pub resource : Option Text
  pub records : ℕ
  pub bytes : ℕ
  pub stamped : format_timestamp {C = StateCode} now ≡ ok stamp
  pub safe : IsSafe resource
  pub records_bound : records < 2 ^ 63
  pub bytes_bound : bytes < 2 ^ 63
  pub appended : after ≡ append_audit (prune_row undelivered resource records bytes stamp) before

-- The row of a prune, column by column.
abbrev pub written : ℕ → Text → Bool → Option Text → ℕ → ℕ → AuditRecord
written id stamp undelivered resource records bytes = record {
  id = id;
  recorded_at = stamp;
  action = codes "retention_prune";
  actor = codes "maintenance";
  outcome = if undelivered then codes "pruned_undelivered" else codes "pruned";
  resource = resource;
  reason = some (if undelivered then codes "expired_undelivered" else codes "expired");
  record_count = some records;
  byte_size = some bytes;
  content_sha256 = none;
  file_sha256 = none;
}

-- What a recorded prune has done, by its arguments.
pub record Appended (before after : Tables) (now batch records bytes undelivered : Value)
    (p : Option (Text → Text → Text)) : Type 0 where
  pub stamp : Text
  pub flag : Bool
  pub batch_id : Text
  pub resource : Option Text
  pub record_count : ℕ
  pub byte_size : ℕ
  pub stamped : format_timestamp {C = StateCode} now ≡ ok stamp
  pub flagged : undelivered ≡ bool flag
  pub named : batch ≡ str batch_id
  pub keyed : IsKeyed p batch_id resource
  pub counted : records ≡ int (pos record_count)
  pub sized : bytes ≡ int (pos byte_size)
  pub count_bound : record_count < 2 ^ 63
  pub size_bound : byte_size < 2 ^ 63
  pub now_stored : after ≡ record before {
    audit =
        before.audit
        ++ written (suc before.audit_sequence) stamp flag resource record_count byte_size ∷ [];
    audit_sequence = suc before.audit_sequence;
  }

-- A prune that is recorded had a flag, a batch id and two whole counts below 2 ^ 63 as arguments. It
-- leaves the tables as they were but for one more row at the end of the audit trail, and the id
-- counter one higher: the row has the next id, the timestamp of the instant, the two counts, the fixed
-- words that the flag selects, and as its resource the keyed pseudonym of the batch, which has the
-- form of one, or nothing without a key.
pub record_retention_prune-Appended :
    (now batch records bytes undelivered : Value) (p : Option (Text → Text → Text))
    (db : ControlDatabase)
    → (record_retention_prune now batch records bytes undelivered p db).0 ≡ ok tt
    → Appended db.tables
        (record_retention_prune now batch records bytes undelivered p db).1.tables
        now
        batch
        records
        bytes
        undelivered
        p
unfolding record_retention_prune append_audit
record_retention_prune-Appended now batch records bytes undelivered p db h =
    let (u, eu, e1, h1) = lift-bind-ok (validate_flag undelivered) _ db h in
    let (b, eb, e2, h2) = lift-bind-ok (validate_resource batch) _ db h1 in
    let (n, en, e3, h3) = lift-bind-ok (validate_count records) _ db h2 in
    let (m, em, e4, h4) = lift-bind-ok (validate_count bytes) _ db h3 in
    let (r, er, e5, h5) = lift-bind-ok (keyed_resource p b) _ db h4 in
    let (s, es, t) = insert_lem now (prune_row u r n m) db h5 in
    let (cn, bn) = count-int records en in
    let (cm, bm) = count-int bytes em in
    record {
      stamp = s;
      flag = u;
      batch_id = b;
      resource = r;
      record_count = n;
      byte_size = m;
      stamped = es;
      flagged = flag-bool undelivered eu;
      named = resource-str batch eb;
      keyed = keyed_resource-IsKeyed p b er;
      counted = cn;
      sized = cm;
      count_bound = bn;
      size_bound = bm;
      now_stored = ap (λ x. x.1.tables) (e1 ∙ (e2 ∙ (e3 ∙ (e4 ∙ e5)))) ∙ t;
    }

keyed-IsSafe :
    (p : Option (Text → Text → Text)) (batch_id : Text) (r : Option Text)
    → IsKeyed p batch_id r
    → IsSafe r
keyed-IsSafe none b r h = rw h tt
keyed-IsSafe (some f) b r (h, t, n) = rw h t

pub record_retention_prune-Recorded :
    (now batch records bytes undelivered : Value) (p : Option (Text → Text → Text))
    (db : ControlDatabase)
    → (record_retention_prune now batch records bytes undelivered p db).0 ≡ ok tt
    → Recorded db.tables
        (record_retention_prune now batch records bytes undelivered p db).1.tables
        now
unfolding append_audit
record_retention_prune-Recorded now batch records bytes undelivered p db h =
    let a = record_retention_prune-Appended now batch records bytes undelivered p db h in
    record {
      stamp = a.stamp;
      undelivered = a.flag;
      resource = a.resource;
      records = a.record_count;
      bytes = a.byte_size;
      stamped = a.stamped;
      safe = keyed-IsSafe p a.batch_id a.resource a.keyed;
      records_bound = a.count_bound;
      bytes_bound = a.size_bound;
      appended = a.now_stored;
    }

limited-all : (n : ℕ) (l : List AuditRecord) → length l ≤ n → limited n l ≡ l
unfolding limited
limited-all n [] h = refl
limited-all n (r ∷ l) h = ground (arith, limited-all (n - 1) l)

abbrev pub prune_action : Text
prune_action = codes "retention_prune"

select-append :
    (l : List AuditRecord) (r : AuditRecord)
    → r.action ≡ prune_action
    → select_action (some prune_action) (l ++ r ∷ [])
      ≡ select_action (some prune_action) l ++ r ∷ []
unfolding select_action
select-append [] r h = ground (arith, text_eq_iff r.action prune_action)
select-append (x ∷ l) r h = ground (arith, select-append l r h)

abbrev pub row_of : {before after : Tables} {now : Value} → Recorded before after now → AuditRecord
row_of {before} c = record (prune_row c.undelivered c.resource c.records c.bytes c.stamp) {
  id = suc before.audit_sequence;
}

-- A recorded prune is listed last among the prunes, after all earlier ones, on a database that
-- answers, when the limit is in its range and has room for all of them.
pub list_audit-recorded :
    (before after : Tables) (now : Value) (limit : ℕ) (c : Recorded before after now)
    → 0 < limit
    → limit ≤ 100000
    → length (select_action (some prune_action) before.audit) < limit
    → (list_audit (str prune_action) (int (pos limit)) (healthy after)).0
      ≡ ok (select_action (some prune_action) before.audit ++ row_of c ∷ [])
unfolding list_audit append_audit
list_audit-recorded before after now limit c h k room =
    let e = select-append before.audit (row_of c) refl in
    let whole =
      limited-all limit (select_action (some prune_action) before.audit ++ row_of c ∷ []) (
        omega (
          arith,
          length-append (select_action (some prune_action) before.audit) (row_of c ∷ []),
        )) in
    ground (arith, c.appended, e, whole)
