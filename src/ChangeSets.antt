-- ===== src/ChangeSets.antt =====
-- app/services/change_set_store.py: change sets, which collect edits of a workspace and commit them
-- at once. `State` has the rows and the directories, `Files` the snapshots and their restoring,
-- `Staging`, `Validation`, `Commit` and `Lifecycle` the operations on one change set, `Machine` the
-- state machine of its status, `Sound` the rules that its rows keep to, and `World` the tables of all
-- change sets with `begin` and the loops over them.
pub mod State
pub mod Files
pub mod Commit
pub mod Lifecycle
pub mod Staging
pub mod Validation
pub mod Machine
pub mod Sound
pub mod World
mod Tests
