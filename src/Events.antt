-- ===== src/Events.antt =====
-- app/services/event_store.py: the durable event stream of the workspaces.
-- `Cursor` has the cursors, `Payload` the payloads and their checks, `Store` the tables and the
-- operations that write, `Query` the pages that are read, `Retention` the cleanup.
pub mod Cursor
pub mod Payload
pub mod Store
pub mod Process
pub mod Query
pub mod Retention
mod Tests
