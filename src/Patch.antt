-- ===== src/Patch.antt =====
-- The checks of patches in app/tools/patcher.py, on the lines of a patch: `Lines` reads header lines,
-- `Hunks` counts the lines of hunks, `Paths` has the check of paths and the list of changed files.
pub mod Lines
pub mod Hunks
pub mod Content
pub mod Counts
pub mod Paths
pub mod Safe
pub mod Errors
mod Tests
