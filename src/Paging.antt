-- ===== src/Paging.antt =====
-- app/server/paging: rows that are read from a data source are collected into pages.
pub mod Size
pub mod Tracker
pub mod Sink
pub mod Ensures
pub mod Limits
pub mod Pages
pub mod Tracked
pub mod Flushed
pub mod AddRow
pub mod Finish
pub mod Buffer
pub mod Estimate
pub mod Factory
pub mod Closing
