-- ===== src/Examples.antt =====
-- Tests, and the theorems applied to concrete requests, identifiers, sinks and rows.
mod Queries
mod Pages
mod Service
mod Values
mod Streams
mod Settings
