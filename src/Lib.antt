-- ===== src/Lib.antt =====
-- A model of fq-connector-go, a server that reads external tables for YDB. It validates a request,
-- asks a data source for the schema, the splits or the rows of a table, and streams these to the
-- client; errors become statuses of the response. A request's filter is formatted by the predicate
-- builder in the dialect of the data source, MakeSelectQuery composes the query around it, and a
-- sink counts the rows that come back, cuts them into pages and puts these in the queue of results.
--
-- - Errors: common/errors.go. The sentinels, ErrorMatcher, and the result type of fallible code. A
--   Go error is modelled by the sentinel at the bottom of its chain; the texts are left out.
-- - ApiError: the rest of common/errors.go, from an error of a data source or of the connector to the
--   status of a response. What the drivers' types tell of an error (`errors.As`, type assertions) is
--   the record `StdError`, their constants are `Codes`. A function that may panic gives `Returned`.
-- - Validate: app/server/validate.go, as checks that end at the first error.
-- - Service: app/server/service_connector.go and the dispatch of data_source_collection.go, from a
--   request to its response or to the messages of its stream. The data sources, the streamers, the
--   observation storage and the stream are the record `World`.
-- - Streaming: app/server/streaming/list_splits_streamer.go, as a step relation between the goroutine
--   of the data source and the loop that sends the splits; a channel is the list of what it holds. `run`
--   is what the loop ends with, and `waited` says that the deferred wg.Wait is over too.
-- - Settings: app/server/config/config.go, the sections of the configuration as records, their
--   defaults (Fill) and their checks (Accept); what time.ParseDuration accepts is a parameter.
-- - TypeMapping: SQLTypeToYDBColumn in type_mapper.go of postgresql, ms_sql_server, oracle,
--   mysql and clickhouse; a switch on the name of a type is a table. The regular expressions are parameters.
-- - Times: common/time.go; a point in time is the number of its nanoseconds since 1970.
-- - Ydb, Api: the messages of api/ and of the YDB SDK that the code reads, as data types. The
--   constructors `other_...` stand for the cases that the code treats alike. Ydb/Equality is TypesEqual
--   of common/ydb_type_helpers.go.
-- - Predicate: app/server/datasource/rdbms/utils/predicate_builder.go, select_query_args.go and the
--   interface of a dialect in sql.go. Formatter and Builder hold the arguments, the dialect's record
--   and the builder's state, which every function takes and returns; Format holds the functions
--   format... in the order of the source, with a loop's body as a function `..._round` and what
--   follows the loop as `..._end`. Meaning is the specification: three-valued logic over a row of
--   any database, and syntax trees of conditions. Lookup binds a placeholder to the argument that its
--   text stands for; `?`, which ClickHouse and MySQL write for every argument and bind by position,
--   stands for none, and an operand that was dropped may leave its arguments behind there. The other
--   modules are proofs.
-- - Dialect: sql_formatter.go of postgresql, clickhouse, mysql, oracle, ms_sql_server, ydb and
--   logging in app/server/datasource/rdbms. A YDB split description is taken as decoded. Quoting reads
--   quoted names as the databases do: a doubled quote stands for one, and in ClickHouse a backslash
--   begins an escape, of which what byte it stands for is a parameter.
-- - SelectQuery: select_query.go and select_helpers.go, and SelectWhatToYDBTypes of
--   common/ydb_type_helpers.go.
-- - Paging: app/server/paging. Size is size.go, Tracker is traffic_tracker.go with
--   app/server/utils/counter.go, Sink is sink.go with read_limiter.go, Buffer is the two columnar
--   buffers. A method of a sink is a step from the sink to an outcome and a sink; the queue of
--   results and the read limiter, which sinks share, are part of that state, and a send is an
--   append. Ensures has the rules for steps; Pages states the invariant of a sink, against the list
--   of the rows that it took. Factory is
--   sink_factory.go as a step relation between the sinks and the goroutine that awaits them.
-- - Common has the shared names, tests and list lemmas; Examples has tests at concrete inputs.
--
-- Bounds: counters are uint64 and wrap around at 2^64, as written out in `add_u64`. Recursion is
-- structural, on predicates, lists and digits, but in two places. The numerals of Common/Decimal take
-- the number itself as fuel, which is at least the number of its digits. TypesEqual swaps its
-- arguments on the way down and takes the sum of the sizes of both types as fuel; each call takes a
-- part of either; being cut off is an answer of its own, which is never given. The channel of splits has room for 32, as in the source.
--
-- Not modelled: connections, drivers and retries, the transformers and schema providers, the mapping of
-- YDB's own types, the streamer of rows, NoSQL, Prometheus and S3 sources, Arrow
-- encoding, the reading of configuration files, metrics, observation and the command line, which are
-- I/O or stand around third-party libraries. The Arrow builders are the parameter `Arrow` of
-- Paging/Buffer, and the database that runs a query is the parameter `Database` of the theorems on
-- predicates. The files of app/server/conversion that are copies of other projects' code are left out.
pub mod Common
pub mod Errors
pub mod Ydb
pub mod Api
pub mod Predicate
pub mod Dialect
pub mod SelectQuery
pub mod Paging
pub mod ApiError
pub mod Validate
pub mod Service
pub mod Streaming
pub mod Settings
pub mod TypeMapping
pub mod Times
pub mod Examples
