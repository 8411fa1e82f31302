-- ===== src/Idempotency.antt =====
-- app/storage/idempotency.py: results of calls that are kept under the caller's key, so that a retry
-- gets the result and runs nothing. `Keys` has the table, `Call` the wrapper of a call, `Retry` what a
-- retry gets.
pub mod Keys
pub mod Call
pub mod Retry
mod Tests
