-- ===== src/State/Leases/Rows.antt =====
-- How the writes of the lease operations show through `current`.
use milhouse_oss.Prelude.{◌≡◌, ◌≢◌, true, false, some, arith, Text, text_eq_iff, text_eq_refl}
use milhouse_oss.State.Schema.{Lease, Tables}
use milhouse_oss.State.Table.{find-upsert_self, find-upsert_ne, find-update_self, find-update_ne}
use milhouse_oss.State.Leases.{is_lease, current, put_lease, extend_lease}

-- A row has one name.
pub names_apart : (m n : Text) → m ≢ n → (r : Lease) → is_lease m r ≡ true → is_lease n r ≡ false
names_apart m n ne r h = ground (arith, text_eq_iff r.name m, text_eq_iff r.name n)

pub current-put_lease_self :
    (lease : Lease) (t : Tables) → current lease.name (put_lease lease t) ≡ some lease
unfolding put_lease current
current-put_lease_self lease t =
    find-upsert_self (is_lease lease.name) lease t.leases (text_eq_refl lease.name)

pub current-put_lease_ne :
    (n : Text) (lease : Lease) (t : Tables)
    → lease.name ≢ n
    → current n (put_lease lease t) ≡ current n t
unfolding put_lease current
current-put_lease_ne n lease t ne =
    find-upsert_ne (is_lease lease.name) (is_lease n) (names_apart lease.name n ne) lease t.leases
      (text_eq_refl lease.name)

abbrev pub extended : Text → Text → Lease → Lease
extended acquired expires r = record r { acquired_at = acquired; expires_at = expires }

pub current-extend_lease_self :
    (n a x : Text) (t : Tables) {r : Lease}
    → current n t ≡ some r
    → current n (extend_lease n a x t) ≡ some (extended a x r)
unfolding extend_lease current
current-extend_lease_self n a x t h =
    find-update_self (is_lease n) (extended a x) t.leases (λ r e. e) h

pub current-extend_lease_ne :
    (m n a x : Text) (t : Tables) → n ≢ m → current m (extend_lease n a x t) ≡ current m t
unfolding extend_lease current
current-extend_lease_ne m n a x t ne =
    find-update_ne (is_lease n) (is_lease m) (names_apart n m ne) (extended a x) t.leases
      (names_apart n m ne)
