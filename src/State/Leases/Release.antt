-- ===== src/State/Leases/Release.antt =====
-- `release_lease`: what it removes, and what it leaves.
use milhouse_oss.Prelude.{◌<◌, ◌≡◌, ◌≢◌, true, none, some, List, [], ◌∷◌, arith, Text, text_eq_iff}
use milhouse_oss.Python.Value.{str}
use milhouse_oss.Python.Outcome.{ok}
use milhouse_oss.State.Schema.{Lease, Tables}
use milhouse_oss.State.Errors.{StateCode}
use milhouse_oss.State.Validate.{validate_identifier}
use milhouse_oss.State.Table.{find, delete, row_count}
use milhouse_oss.State.Database.{is_encodable, healthy}
use milhouse_oss.State.Leases.{is_lease, owned, current, release_lease}

-- The primary key: no two rows have one name.
abbrev pub IsKeyed : List Lease → Type 0
IsKeyed [] = Unit
IsKeyed (r ∷ t) = (find (is_lease r.name) t ≡ none) × IsKeyed t

delete-absent :
    (name holder : Text) (t : List Lease)
    → find (is_lease name) t ≡ none
    → find (is_lease name) (delete (owned name holder) t) ≡ none
unfolding find delete
delete-absent name holder [] h = h
delete-absent name holder (r ∷ t) h = ground (arith, delete-absent name holder t)

-- A holder's row is gone after its deletion.
pub delete-held :
    (name holder : Text) (t : List Lease) {r : Lease}
    → IsKeyed t
    → find (is_lease name) t ≡ some r
    → r.holder ≡ holder
    → find (is_lease name) (delete (owned name holder) t) ≡ none
unfolding find delete
delete-held name holder [] k e h = cc
delete-held name holder (x ∷ t) {r} k e h = ground (
  arith,
  delete-held name holder t {r = r} k.1,
  delete-absent name holder t,
  text_eq_iff x.name name,
  text_eq_iff x.holder holder,
)

-- Another holder's row stays.
pub delete-kept :
    (name holder : Text) (t : List Lease) {r : Lease}
    → find (is_lease name) t ≡ some r
    → r.holder ≢ holder
    → find (is_lease name) (delete (owned name holder) t) ≡ some r
unfolding find delete
delete-kept name holder [] e h = cc
delete-kept name holder (x ∷ t) {r} e h =
    ground (arith, delete-kept name holder t {r = r}, text_eq_iff x.holder holder)

pub row_count-pos :
    (name holder : Text) (t : List Lease) {r : Lease}
    → find (is_lease name) t ≡ some r
    → r.holder ≡ holder
    → 0 < row_count (owned name holder) t
unfolding find row_count
row_count-pos name holder [] e h = absurd (cc e)
row_count-pos name holder (x ∷ t) {r} e h =
    ground (arith, row_count-pos name holder t {r = r}, text_eq_iff x.holder holder)

-- On a database that answers, the release of a lease by its holder removes it and says so, when the
-- name and the holder can be encoded as UTF-8.
pub release_lease_lem :
    (name holder : Text) (t : Tables) {r : Lease}
    → validate_identifier (str name) StateCode.lease_name ≡ ok name
    → validate_identifier (str holder) StateCode.lease_holder ≡ ok holder
    → is_encodable name ≡ true
    → is_encodable holder ≡ true
    → IsKeyed t.leases
    → current name t ≡ some r
    → r.holder ≡ holder
    → let (result, after) = release_lease (str name) (str holder) (healthy t) in
      (result ≡ ok true) × (current name after.tables ≡ none)
unfolding release_lease current
release_lease_lem name holder t {r} vn vh un uh k e h =
    ground (
      arith,
      row_count-pos name holder t.leases {r = r},
      delete-held name holder t.leases {r = r} k,
    )
