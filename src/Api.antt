-- ===== src/Api.antt =====
-- The parts of the connector's requests (api/service/protos, generated code) that the SQL builders
-- read: expressions, predicates, filtering modes and data source kinds. The constructors are the
-- `oneof` cases and enumeration values that the source names, and `other_…` is any other.
use fq_connector_go.Common.{ℕ, Bytes}
use fq_connector_go.Ydb.{TypedValue}

pub data DataSourceKind : Type 0 where
  kind_unspecified clickhouse postgresql s3 ydb mysql ms_sql_server greenplum : DataSourceKind
  oracle logging mongo_db redis prometheus iceberg opensearch : DataSourceKind
  other_kind : ℕ → DataSourceKind

-- TExpression_TArithmeticalExpression_EOperation
pub data ArithmeticalOperation : Type 0 where
  mul add sub bit_and bit_or bit_xor : ArithmeticalOperation
  other_arithmetical : ℕ → ArithmeticalOperation

-- TPredicate_TComparison_EOperation
pub data ComparisonOperation : Type 0 where
  l le eq ne ge g : ComparisonOperation
  other_comparison : ℕ → ComparisonOperation

-- TExpression; `other_expression` stands for COALESCE, IF, CAST and a missing payload.
pub data Expression : Type 0 where
  column : Bytes → Expression
  typed_value : TypedValue → Expression
  arithmetical : ArithmeticalOperation → Expression → Expression → Expression
  null : Expression
  other_expression : ℕ → Expression

mutual
  -- TPredicate; `other_predicate` stands for BETWEEN, IN, IF, REGEXP and a missing payload.
  pub data Predicate : Type 0 where
    negation : Predicate → Predicate
    conjunction disjunction coalesce : Predicates → Predicate
    is_null is_not_null : Expression → Predicate
    comparison : ComparisonOperation → Expression → Expression → Predicate
    bool_expression : Expression → Predicate
    other_predicate : ℕ → Predicate

  pub data Predicates : Type 0 where
    nil : Predicates
    cons : Predicate → Predicates → Predicates

-- TReadSplitsRequest_EFiltering
pub data Filtering : Type 0 where
  filtering_unspecified filtering_optional filtering_mandatory : Filtering
  other_filtering : ℕ → Filtering
