-- ===== src/State/Barrier.antt =====
-- src/milhouse/state/barrier.py: the global commit barrier, as the steps of the processes that take
-- its two file locks. A lock of the kernel is granted when no other process's lock on that file is in
-- its way; `flock` gives up the old lock before it takes the new one.
pub mod Exclusion
pub mod Drain
use milhouse_oss.Prelude.{ℕ, ◌≡◌, ◌≢◌, Bool, true, false, Option, none, some, ◌==◌, if◌then◌else◌}

pub data Lock : Type 0 where
  free held_shared held_exclusive : Lock

-- Where a process stands in `shared`, `exclusive` or `exclusive_then_shared`.
pub data Phase : Type 0 where
  -- No lock.
  outside : Phase
  -- `shared`: the gate; the gate and the main lock; the body, under the main lock.
  entering admitted writing : Phase
  -- `exclusive`: the gate; the body, under both; the main lock given up again.
  queued maintaining leaving : Phase
  -- `exclusive_then_shared`: the gate; recovery, under both; the main lock given up for the shared
  -- one; the shared one, before the gate is released.
  awaiting recovering handing_over handed : Phase

unfoldable pub gate_of : Phase → Lock
gate_of outside = free
gate_of entering = held_shared
gate_of admitted = held_shared
gate_of writing = free
gate_of queued = held_exclusive
gate_of maintaining = held_exclusive
gate_of leaving = held_exclusive
gate_of awaiting = held_exclusive
gate_of recovering = held_exclusive
gate_of handing_over = held_exclusive
gate_of handed = held_exclusive

unfoldable pub main_of : Phase → Lock
main_of outside = free
main_of entering = free
main_of admitted = held_shared
main_of writing = held_shared
main_of queued = free
main_of maintaining = held_exclusive
main_of leaving = free
main_of awaiting = free
main_of recovering = held_exclusive
main_of handing_over = free
main_of handed = held_shared

-- What a step asks of the kernel.
pub data Need : Type 0 where
  nothing gate_shared gate_exclusive main_shared main_exclusive : Need

-- The next call of a process: `none` where the code makes no such call. A process may fail or die
-- anywhere, and then holds nothing.
unfoldable pub need : Phase → Phase → Option Need
need outside outside = none
need outside entering = some gate_shared
need entering admitted = some main_shared
need admitted writing = some nothing
need outside queued = some gate_exclusive
need queued maintaining = some main_exclusive
need maintaining leaving = some nothing
need outside awaiting = some gate_exclusive
need awaiting recovering = some main_exclusive
need recovering handing_over = some nothing
need handing_over handed = some main_shared
need handed writing = some nothing
need recovering leaving = some nothing
need p outside = some nothing
need p q = none

abbrev pub no_exclusive : Lock → Bool
no_exclusive held_exclusive = false
no_exclusive l = true

abbrev pub is_free : Lock → Bool
is_free free = true
is_free l = false

-- Whether another process, in this phase, leaves room.
unfoldable pub permits : Need → Phase → Bool
unfolding gate_of main_of
permits nothing p = true
permits gate_shared p = no_exclusive (gate_of p)
permits gate_exclusive p = is_free (gate_of p)
permits main_shared p = no_exclusive (main_of p)
permits main_exclusive p = is_free (main_of p)

-- The processes, by number.
abbrev pub System : Type 0
System = ℕ → Phase

unfoldable pub put : System → ℕ → Phase → System
put s i q j = if j == i then q else s j

-- One call of one process, which the locks of all others leave room for.
pub data Step (s : System) : System → Type 0 where
  call :
      (i : ℕ) (q : Phase) (n : Need)
      → need (s i) q ≡ some n
      → ((j : ℕ) → j ≢ i → permits n (s j) ≡ true)
      → Step s (put s i q)

-- Some steps after all processes were outside.
pub data IsReachable : System → Type 0 where
  start : IsReachable (λ i. outside)
  step : {s t : System} → IsReachable s → Step s t → IsReachable t
