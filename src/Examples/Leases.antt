-- ===== src/Examples/Leases.antt =====
-- state/leases.py at a lease of "job" that alice has held until noon.
use milhouse_oss.Prelude.{
  ◌≡◌, ◌≢◌, refl, true, false, some, none, [], ◌∷◌, arith, pos, ◌<◌, ◌^◌, inr, text_eq, text_lt,
  codes,
}
use milhouse_oss.Python.Value.{str, int}
use milhouse_oss.Python.Outcome.{ok}
use milhouse_oss.Python.Datetime.{as_utc, plus_seconds}
use milhouse_oss.State.Schema.{Lease, Tables, empty_tables}
use milhouse_oss.State.Database.{healthy, ControlDatabase, next_fault}
use milhouse_oss.State.Table.{find, upsert}
use milhouse_oss.State.Leases.{
  acquire_lease, validate_ttl, stamps, release_lease, require_current_lease, current,
}
use milhouse_oss.State.Leases.Fencing.{renew, run_all, stale_lease_refused, acquired_lease_passes}
use milhouse_oss.State.Leases.Contract.{live_lease_excludes, released_lease_revives}
use milhouse_oss.State.Errors.{StateCode}
use milhouse_oss.State.Validate.{validate_identifier}
use milhouse_oss.State.Leases.Acquire.{IsFree, due_fence}
use milhouse_oss.State.Leases.Release.{IsKeyed, release_lease_lem}
use milhouse_oss.Core.Clock.{format_timestamp, stamp, fixed_digits}
use milhouse_oss.Examples.Data.{at, number, job, alice, bob, noon}

abbrev alice_lease : Lease
alice_lease = record {
  name = job;
  holder = alice;
  fence = 1;
  acquired_at = codes "2024-02-29T11:00:09.007Z";
  expires_at = noon;
}

abbrev held_tables : Tables
held_tables = record empty_tables { leases = alice_lease ∷ [] }

abbrev held : ControlDatabase
held = healthy held_tables

abbrev bob_lease : Lease
bob_lease = record {
  name = job;
  holder = bob;
  fence = 2;
  acquired_at = codes "2024-02-29T12:05:09.007Z";
  expires_at = codes "2024-02-29T12:06:09.007Z";
}

-- Alice's lease has expired, so bob takes it over with the next fence.
takeover : (acquire_lease (str job) (str bob) (at 12 5) (number 60) held).0 ≡ ok bob_lease
unfolding acquire_lease current find upsert text_eq text_lt format_timestamp as_utc plus_seconds
    stamp fixed_digits
takeover = refl

alice_holds : current job held_tables ≡ some alice_lease
unfolding current find text_eq
alice_holds = refl

bob_is_not_alice : bob ≢ alice
bob_is_not_alice h = absurd (cc h)

stale_lease_refused_example :
    (require_current_lease alice_lease (
      run_all
        (renew (str job) (str bob) (at 12 6) (number 60) ∷ [])
        (acquire_lease (str job) (str bob) (at 12 5) (number 60) held).1)).0
    ≢ ok tt
stale_lease_refused_example =
    stale_lease_refused alice_lease alice_lease (str job) (str bob) (at 12 5) (number 60) held
      (renew (str job) (str bob) (at 12 6) (number 60) ∷ [])
      (record { found = alice_holds; same_holder = refl; same_fence = refl }) takeover refl
      bob_is_not_alice

alice_stamp : format_timestamp {C = StateCode} (at 11 5) ≡ ok (codes "2024-02-29T11:05:09.007Z")
unfolding format_timestamp as_utc stamp fixed_digits
alice_stamp = refl

-- Before noon bob has to wait.
still_alive : text_lt (codes "2024-02-29T11:05:09.007Z") noon ≡ true
unfolding text_lt
still_alive = refl

alice_is_not_bob : alice ≢ bob
alice_is_not_bob h = absurd (cc h)

live_lease_excludes_example :
    ((l : Lease) → (acquire_lease (str job) (str bob) (at 11 5) (number 60) held).0 ≢ ok l)
    × ((acquire_lease (str job) (str bob) (at 11 5) (number 60) held).1.tables ≡ held_tables)
live_lease_excludes_example =
    live_lease_excludes job bob (codes "2024-02-29T11:05:09.007Z") (at 11 5) (number 60) held
      alice_holds alice_is_not_bob alice_stamp still_alive

validated_job : validate_identifier (str job) StateCode.lease_name ≡ ok job
unfolding validate_identifier
validated_job = refl

validated_bob : validate_identifier (str bob) StateCode.lease_holder ≡ ok bob
unfolding validate_identifier
validated_bob = refl

validated_alice : validate_identifier (str alice) StateCode.lease_holder ≡ ok alice
unfolding validate_identifier
validated_alice = refl

validated_minute : validate_ttl (int (pos 60)) ≡ ok 60
unfolding validate_ttl
validated_minute = refl

bob_stamps : stamps (at 12 5) 60 ≡ ok (bob_lease.acquired_at, bob_lease.expires_at)
unfolding stamps format_timestamp as_utc plus_seconds stamp fixed_digits
bob_stamps = refl

expired_by_then : text_lt bob_lease.acquired_at noon ≡ false
unfolding text_lt
expired_by_then = refl

IsFree-for_bob : IsFree (current job held_tables) bob bob_lease.acquired_at
unfolding current find text_eq
IsFree-for_bob = inr expired_by_then

fence_fits : due_fence (current job held_tables) bob < 2 ^ 63
unfolding current find text_eq
fence_fits = omega arith

takeover_answers :
    next_fault (acquire_lease (str job) (str bob) (at 12 5) (number 60) held).1.faults ≡ false
unfolding acquire_lease current find upsert text_eq text_lt format_timestamp as_utc plus_seconds
    stamp fixed_digits next_fault
takeover_answers = refl

acquired_lease_passes_example :
    (require_current_lease bob_lease
      (acquire_lease (str job) (str bob) (at 12 5) (number 60) held).1).0
    ≡ ok tt
acquired_lease_passes_example =
    acquired_lease_passes (str job) (str bob) (at 12 5) (number 60) held takeover takeover_answers

held-IsKeyed : IsKeyed held_tables.leases
unfolding find
held-IsKeyed = (refl, tt)

release_lease_lem_example :
    ((release_lease (str job) (str alice) (healthy held_tables)).0 ≡ ok true)
    × (current job (release_lease (str job) (str alice) (healthy held_tables)).1.tables ≡ none)
release_lease_lem_example =
    release_lease_lem job alice held_tables validated_job validated_alice refl refl held-IsKeyed
      alice_holds refl

-- Alice has released the lease, bob has held and released it, and alice acquires it anew.
abbrev alice_again : Lease
alice_again = record {
  name = job;
  holder = alice;
  fence = 1;
  acquired_at = codes "2024-02-29T12:05:09.007Z";
  expires_at = codes "2024-02-29T12:06:09.007Z";
}

second_holding :
    (acquire_lease (str job) (str alice) (at 12 5) (number 60) (healthy empty_tables)).0
    ≡ ok alice_again
unfolding acquire_lease current find upsert text_eq text_lt format_timestamp as_utc plus_seconds
    stamp fixed_digits
second_holding = refl

second_holding_answers :
    next_fault
      (acquire_lease (str job) (str alice) (at 12 5) (number 60) (healthy empty_tables)).1.faults
    ≡ false
unfolding acquire_lease current find upsert text_eq text_lt format_timestamp as_utc plus_seconds
    stamp fixed_digits next_fault
second_holding_answers = refl

nobody_holds : current job empty_tables ≡ none
unfolding current find
nobody_holds = refl

released_lease_revives_example :
    (require_current_lease alice_lease
      (acquire_lease (str job) (str alice) (at 12 5) (number 60) (healthy empty_tables)).1).0
    ≡ ok tt
released_lease_revives_example =
    released_lease_revives alice_lease (str job) (str alice) (at 12 5) (number 60)
      (healthy empty_tables) nobody_holds refl second_holding refl refl second_holding_answers
