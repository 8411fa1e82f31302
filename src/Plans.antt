-- ===== src/Plans.antt =====
-- app/services/workspace_plan.py, and the helpers of app/storage/database.py that it rests on: the
-- plans of the workspaces. `Input` has the checks of steps and evidence, `Store` the tables and their
-- transactions, `Service` the operations of the service.
pub mod Input
pub mod Store
pub mod Service
pub mod Invariant
pub mod Locking
pub mod Kept
pub mod Effects
pub mod Freshness
mod Tests
