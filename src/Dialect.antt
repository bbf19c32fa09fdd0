-- ===== src/Dialect.antt =====
-- The SQL dialects of the data sources (`SQLFormatter` of each package below app/server/datasource/rdbms).
pub mod Text
pub mod Postgresql
pub mod Clickhouse
pub mod Mysql
pub mod Oracle
pub mod MsSqlServer
pub mod Ydb
pub mod Placeholders
pub mod Quoting
pub mod Backslash
