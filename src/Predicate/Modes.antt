-- ===== src/Predicate/Modes.antt =====
-- predicate_builder.go, formatWhereClause: mandatory filtering and operands that fail.
use fq_connector_go.Common.{false, Bytes, [], ◌∷◌, ◌++◌, some, ◌≡◌}
use fq_connector_go.Errors.{Error, ok, err}
use fq_connector_go.Api.{DataSourceKind, Predicate, conjunction, nil, cons, filtering_mandatory}
use fq_connector_go.Predicate.Formatter.{SqlFormatter}
use fq_connector_go.Predicate.Builder.{Builder}
use fq_connector_go.Predicate.Format.{
  conjunction_add, conjunction_round, conjunction_end, format_predicate, filter_result,
  format_where_clause,
}

abbrev pub fresh : Builder
fresh = record { args = []; conjunction_errors = [] }

module _ {Split : Type 0} (formatter : SqlFormatter Split) (kind : DataSourceKind) where
  -- Under mandatory filtering, a conjunction of an operand that cannot be formatted, whatever its
  -- error, and of one that can be is accepted. The clause is the second operand alone, and the
  -- arguments are those that both operands appended, the first one before it failed.
  pub mandatory_drops :
      (p q : Predicate) (e : Error) (s s' : Builder) (text : Bytes)
      → format_predicate formatter kind p false false fresh ≡ (err e, s)
      → format_predicate formatter kind q false false
          (record s { conjunction_errors = s.conjunction_errors ++ e ∷ [] })
        ≡ (ok text, s')
      → format_where_clause formatter kind filtering_mandatory
          (some (conjunction (cons p (cons q nil))))
        ≡ ok (text, s'.args)
  unfolding format_where_clause filter_result format_predicate conjunction_round conjunction_end
      conjunction_add
  mandatory_drops p q e s s' text hp hq = rw (hp, hq)
