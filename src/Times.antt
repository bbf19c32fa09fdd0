-- ===== src/Times.antt =====
-- common/time.go: points in time as YDB dates. A time.Time is the number of its nanoseconds since the
-- start of 1970, which is the lower bound. The number of days is a quotient of doubles in the source:
-- `days_of`, its integer part for so many nanoseconds, is a parameter.
pub mod Bounds
use fq_connector_go.Common.{ℕ, ◌/◌, ◌%◌, ltb, if◌then◌else◌}
use fq_connector_go.Errors.{wraps, value_out_of_type_bounds, Result, ok, err}
use fq_connector_go.Ydb.{ℤ, pos, negsuc}

-- maxYDBTime, the start of 2106.
abbrev pub max_ydb_time : ℕ
max_ydb_time = 4291747200000000000

-- The check of the bounds, before a conversion of what is in them.
unfoldable pub in_bounds : (ℕ → ℕ) → ℤ → Result ℕ
in_bounds convert (negsuc n) = err (wraps value_out_of_type_bounds)
in_bounds convert (pos n) =
    if ltb max_ydb_time n then err (wraps value_out_of_type_bounds) else ok (convert n)

-- TimeToYDBDate, an uint16.
unfoldable pub time_to_ydb_date : (ℕ → ℕ) → ℤ → Result ℕ
unfolding in_bounds
time_to_ydb_date days_of t = in_bounds (λ n. days_of n % 65536) t

-- TimeToYDBDatetime, an uint32 of seconds.
unfoldable pub time_to_ydb_datetime : ℤ → Result ℕ
unfolding in_bounds
time_to_ydb_datetime t = in_bounds (λ n. n / 1000000000 % 4294967296) t

-- TimeToYDBTimestamp, an uint64 of microseconds.
unfoldable pub time_to_ydb_timestamp : ℤ → Result ℕ
unfolding in_bounds
time_to_ydb_timestamp t = in_bounds (λ n. n / 1000 % 18446744073709551616) t
