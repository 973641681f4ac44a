-- ===== src/Core/Clock.antt =====
-- src/milhouse/core/clock.py: normalising instants, the canonical timestamp, and durations.
mod Stamp
pub mod Order
pub mod Duration
unfoldable pub use Stamp.{fixed_digits, stamp, truncate_to_milliseconds, format_timestamp}
