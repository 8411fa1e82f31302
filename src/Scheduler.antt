-- ===== src/Scheduler.antt =====
-- app/services/process_scheduler.py: fair, keyed admission of subprocesses.
-- `Keys` has the value classes and their validation, `State` the scheduler's state and operations;
-- the other modules prove what their names say.
pub mod Keys
pub mod State
pub mod Operations
mod Leases
mod Queues
mod Granting
mod Reach
pub mod Safety
pub mod Fifo
mod Tests
mod Rotation
pub mod Choice
pub mod Release
