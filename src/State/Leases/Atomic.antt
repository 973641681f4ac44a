-- ===== src/State/Leases/Atomic.antt =====
-- A lease operation that raises has changed no table, whatever went wrong.
use milhouse_oss.Python.Value.{Value}
use milhouse_oss.State.Database.Atomic.{IsAtomic, atomic_rules}
use milhouse_oss.State.Leases.{acquire_lease, renew_lease}

module _ (name_value holder_value now ttl_value : Value) where
  pub acquire_lease-IsAtomic : IsAtomic (acquire_lease name_value holder_value now ttl_value)
  unfolding acquire_lease
  acquire_lease-IsAtomic = search atomic_rules depth 9

  pub renew_lease-IsAtomic : IsAtomic (renew_lease name_value holder_value now ttl_value)
  unfolding renew_lease
  renew_lease-IsAtomic = search atomic_rules depth 9
