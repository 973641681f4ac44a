-- ===== src/Lib.antt =====
-- Verification library for Milhouse, an observability appliance: collectors sample sources, records
-- are spooled as immutable segments and exported, and a SQLite control database keeps leases, cursors,
-- checkpoints, alert states and the ledger of segments. The library models the control plane, the
-- spool of segments and the alert engine. Paths are from the repository's root.
--
-- The parts, and how they meet
--   src/milhouse/core/clock.py          Core/Clock, Core/Clock/Stamp, Core/Clock/Duration:
--       truncate_to_milliseconds, format_timestamp, _parse_bounded_duration_seconds. Every stored
--       instant is such a text, and the control plane compares these texts with `<`; Core/Clock/Order
--       relates that order to time.
--   src/milhouse/state/database.py      State/Database: ControlDatabase is a record of the tables,
--       whether it is closed, and a list of SQLite faults, one for each statement to come, so that
--       any statement may raise; Action is a computation over it. `transaction` is BEGIN IMMEDIATE,
--       the body, COMMIT or ROLLBACK. State/Database/Atomic says what callers get.
--   src/milhouse/state/schema.py        State/Schema: the rows; State/Table: SELECT, UPSERT, UPDATE
--       and DELETE on a table as a list of rows.
--   src/milhouse/state/leases.py        State/Leases: acquire_lease, renew_lease, release_lease and
--       require_current_lease.
--   src/milhouse/state/cursors.py       State/Cursors: read_cursor and advance_cursor.
--   src/milhouse/state/derivation.py    State/Derivation: read_checkpoint and advance_checkpoint.
--   src/milhouse/state/alert_state.py   State/AlertState: read_alert_state and advance_alert_state.
--   src/milhouse/state/audit.py         State/Audit: record_retention_prune and list_audit; a
--       pseudonymizer is its method `fingerprint`, any function, whose result is tested as in the code.
--   src/milhouse/outbox/reader.py       Outbox/Lines: the complete lines of a file; Outbox/Reader:
--       _parse_region and _read_same_file, over the bytes that _read_regular_file returns. The parser
--       of one line and the hash are parameters. Outbox/Rotation: _read_from_start over the rotated
--       files that _discover_rotations finds. Recovery past a cursor is not modelled.
--   src/milhouse/spooling/              Spooling/Job: a computation over the database, the calls that
--       reach an exporter and the removals of files. Spooling/Segment, Writer, Reader: the header and
--       the frames of a segment file, build_segment_bytes and parse_segment_bytes; JSON, the
--       reconstruction of a record and the hash are parameters, and so is the secure opening of a file.
--       Spooling/Ledger: ledger.py. Spooling/Agreement: _agrees of reconcile.py. Spooling/Export:
--       exporter.py; an exporter is whether its `deliver` returns. Spooling/Retention: retention.py;
--       Spooling/Verify: verify.py; Spooling/Replay: replay.py. These take read_trusted_segment of the
--       file of a day and a batch as a parameter, a function: a file does not change within a call. A
--       barrier is whether it is bound to the database and how its acquisition ends.
--       Spooling/Keeps has the rules for what a job keeps of the tables.
--   src/milhouse/state/barrier.py       State/Barrier: the phases of a process in shared, exclusive and
--       exclusive_then_shared, with the locks that each phase holds on the gate and on the main file,
--       and the steps between them, any number of processes interleaved. The kernel grants a lock that
--       no other process's lock excludes. The opening of the lock files, and the nesting of exclusive
--       on one instance, are not modelled.
--   src/milhouse/state/migrations.py    State/Migrations: migrate and schema_version over the ledger
--       table; what a statement does to the tables is a parameter, and so are `str` of a number, the
--       hash, and how the acquisition of the barrier ends. State/Migrations/Ledger has the calls on the
--       ledger, State/Migrations/Rest and Upgraded what its loop does
--       to the ledger and to the tables, State/Migrations/Complete what a migration has recorded.
--   src/milhouse/domain/identity.py     Domain/Identity: the ids of alerts, transitions and
--       notification intents, SHA-256 of a domain and of canonical JSON as base32.
--   src/milhouse/core/canonical.py      Core/Canonical: canonical_json_bytes of texts, whole numbers from
--       0 on and objects, with its limits. The NFC normalization of unicodedata is a parameter.
--       Core/Canonical/Order says what becomes of the order of members.
--   src/milhouse/runtime/alerting.py    Runtime/Alerting: evaluate_canary_state_rule, its counters,
--       guards and drafts; Runtime/Alerting/Runs folds it over samples, each on the row the one before
--       has stored.
--
-- How Python is read
--   An argument that the source tests the type of is a Value (Python/Value); a call ends as an
--   Outcome (Python/Outcome), with a value or an exception; StateError carries a code, one constructor
--   per MH_STATE_* code. str is a list of code points (Prelude/Texts), int is the native number or an
--   integer, datetime is Python/Datetime, whose calendar follows the proleptic Gregorian rules of the
--   standard library for years 1 to 9999. An integer bound to a statement raises OverflowError from
--   2 ^ 63 on (bind_integer), and in the modules of leases, cursors, checkpoints and alert states a text
--   bound to a statement raises UnicodeEncodeError if it has a lone surrogate (bind_text); the transaction
--   is rolled back, and no handler there catches it.
--
-- Bounds and fuel
--   All recursion is structural, there is no fuel. Time arithmetic that leaves the years 1 to 9999 is
--   an error value, as OverflowError is in the source.
--
-- Not modelled
--   Files, permissions, sockets and processes; the HTTP client; the command line; configuration
--   parsing; privacy filters; the ClickHouse exporter and its backups. SHA-256, NFC
--   and decimal printing are parameters of the definitions that use them. Of the canonical encoder, null,
--   Booleans, negative numbers, floats, timestamps and arrays; the tests of ObservationCoordinateV1.
pub mod Prelude
pub mod Python
pub mod Core
pub mod State
pub mod Domain
pub mod Outbox
pub mod Spooling
pub mod Runtime
mod Examples
