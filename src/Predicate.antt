-- ===== src/Predicate.antt =====
-- app/server/datasource/rdbms/utils/predicate_builder.go and what it stands on: the arguments of a
-- query, the dialect interface, the WHERE clause builder, and what its text means.
pub mod Formatter
pub mod Builder
pub mod Format
pub mod Lookup
pub mod Meaning
pub mod Emits
pub mod Constants
pub mod Joins
pub mod Operands
pub mod Exact
pub mod Grows
pub mod Pushdown
pub mod Modes
