-- ===== src/Predicate/Constants.antt =====
-- predicate_builder.go: a constant that is formatted with success is bound, or written, as itself.
use fq_connector_go.Common.{
  ◌-◌, Bool, true, false, Bytes, [], ◌∷◌, ◌++◌, Option, none, some, ◌≡◌, refl, arith, append_assoc,
  length-append, get_elem?, get_elem?-append_length,
}
use fq_connector_go.Errors.{ok}
use fq_connector_go.Ydb.{
  PrimitiveTypeId, YdbType, type_id, optional, Value, bool_value, int32_value, int64_value,
  uint32_value, uint64_value, float_value, double_value, bytes_value, text_value, null_flag_value,
  other_value, TypedValue, ℤ,
}
use fq_connector_go.Predicate.Formatter.{
  Any, nil_pointer, GoType, QueryArg, QueryArgs, count, SqlFormatter, add_typed,
}
use fq_connector_go.Predicate.Builder.{
  Builder, bind_value, bind_scalar, add_typed_null, null_pointer_type, int64_scalar,
  format_null_flag_value, format_primitive_value, format_optional_value, format_value_as,
  format_value,
}
use fq_connector_go.Predicate.Meaning.{
  bound_datum, Database, IsFaithful, SqlExpression, hole, boolean, expression_holes,
  expression_text, sql_datum, any_value,
}
use fq_connector_go.Predicate.Emits.{Language, Emits, Emits-closed, Emits-outcome}

module _ {Split : Type 0} (formatter : SqlFormatter Split) (d : Database) where
  abbrev pub expressions : Language
  expressions = record {
    Tree = SqlExpression;
    Text = Bytes;
    Meaning = d.Datum;
    text_of = expression_text formatter;
    holes_in = expression_holes;
    meaning_under = sql_datum d;
  }

  count_of_bound : (args : QueryArgs) (a : QueryArg) → count (args ++ a ∷ []) - 1 ≡ count args
  count_of_bound args a = omega (arith, length-append args (a ∷ []))

  -- The argument that was added stands behind the ones before it.
  bound-Emits :
      (t : YdbType) (a : Any) (st : Builder)
      → Emits expressions st
          (record st { args = add_typed t a st.args })
          (formatter.get_placeholder (count st.args))
          (d.argument (record { ydb_type = some t; value = a }))
  unfolding expression_text bound_datum add_typed
  bound-Emits t a st = record {
    tree = hole (count st.args);
    has_text = refl;
    added = record { ydb_type = some t; value = a } ∷ [];
    grows = refl;
    numbered = refl;
    means = λ later. rw (found later);
  }
    where
      found :
          (later : QueryArgs)
          → get_elem?
              ((st.args ++ record { ydb_type = some t; value = a } ∷ []) ++ later)
              (count st.args)
            ≡ some (record { ydb_type = some t; value = a })
      found later =
          rw (append_assoc st.args (record { ydb_type = some t; value = a } ∷ []) later)
            (get_elem?-append_length st.args _ later)

  bind_value-Emits :
      (t : YdbType) (a : Any) (st : Builder) {text : Bytes} {st' : Builder}
      → bind_value formatter t a st ≡ (ok text, st')
      → Emits expressions st st' text (d.argument (record { ydb_type = some t; value = a }))
  unfolding bind_value
  bind_value-Emits t a st {text} {st'} h =
      let same_text : text ≡ formatter.get_placeholder (count (add_typed t a st.args) - 1) = cc in
      let same_state : st' ≡ record st { args = add_typed t a st.args } = cc in
      rw (same_text, same_state) (rw (counted t a st) (bound-Emits t a st))
    where
      counted :
          (t : YdbType) (a : Any) (st : Builder) → count (add_typed t a st.args) - 1 ≡ count st.args
      counted t a st = unfold add_typed in (count_of_bound st.args _)

module _ {Split : Type 0} (formatter : SqlFormatter Split) (d : Database)
    (faithful : IsFaithful d) where
  -- An argument reaches the database as the constant that it carries.
  pub bound-constant :
      (t : YdbType) (a : Any) (st : Builder) {text : Bytes} {st' : Builder}
      → bind_value formatter t a st ≡ (ok text, st')
      → Emits
          (expressions formatter d)
          st
          st'
          text
          (d.constant (record { ydb_type = t; value = any_value a }))
  bound-constant t a st h =
      rw (← faithful.argument-constant t a) (bind_value-Emits formatter d t a st h)

  null_typed-constant :
      (t : YdbType) (g : Option GoType) (st : Builder) {text : Bytes} {st' : Builder}
      → add_typed_null formatter t g st ≡ (ok text, st')
      → Emits
          (expressions formatter d)
          st
          st'
          text
          (d.constant (record { ydb_type = t; value = null_flag_value }))
  unfolding add_typed_null
  null_typed-constant t none st h = cc
  null_typed-constant t (some g) st h = bound-constant t (nil_pointer g) st h

  pub null_flag-constant :
      (t : YdbType) (st : Builder) {text : Bytes} {st' : Builder}
      → format_null_flag_value formatter t st ≡ (ok text, st')
      → Emits
          (expressions formatter d)
          st
          st'
          text
          (d.constant (record { ydb_type = t; value = null_flag_value }))
  unfolding format_null_flag_value
  null_flag-constant (optional (type_id p)) st h =
      null_typed-constant (optional (type_id p)) (null_pointer_type p) st h
  null_flag-constant _ st h = cc

  int64-constant :
      (t : YdbType) (v : ℤ) (st : Builder) {text : Bytes} {st' : Builder}
      → bind_scalar formatter t (int64_scalar t v) st ≡ (ok text, st')
      → Emits
          (expressions formatter d)
          st
          st'
          text
          (d.constant (record { ydb_type = t; value = int64_value v }))
  unfolding bind_scalar int64_scalar
  int64-constant (type_id PrimitiveTypeId.int64) v st h = bound-constant _ _ st h
  int64-constant (type_id PrimitiveTypeId.timestamp) v st h = bound-constant _ _ st h
  int64-constant _ v st h = cc

  keyword-Emits :
      (t : YdbType) (b : Bool) (st : Builder)
      → Emits
          (expressions formatter d)
          st
          st
          (expression_text formatter (boolean b))
          (d.constant (record { ydb_type = t; value = bool_value b }))
  unfolding bound_datum
  keyword-Emits t b st =
      Emits-closed (expressions formatter d) (boolean b) st refl
        (λ args. faithful.keyword-constant t b)

  pub primitive-constant :
      (t : YdbType) (v : Value) (embed_bool : Bool) (st : Builder) {text : Bytes} {st' : Builder}
      → format_primitive_value formatter t v embed_bool st ≡ (ok text, st')
      → Emits
          (expressions formatter d)
          st
          st'
          text
          (d.constant (record { ydb_type = t; value = v }))
  unfolding format_primitive_value expression_text
  primitive-constant t (bool_value true) true st h = Emits-outcome _ (keyword-Emits t true st) h
  primitive-constant t (bool_value false) true st h = Emits-outcome _ (keyword-Emits t false st) h
  primitive-constant t (bool_value b) false st h = bound-constant t _ st h
  primitive-constant t (int32_value v) embed_bool st h = bound-constant t _ st h
  primitive-constant t (uint32_value v) embed_bool st h = bound-constant t _ st h
  primitive-constant t (int64_value v) embed_bool st h = int64-constant t v st h
  primitive-constant t (uint64_value v) embed_bool st h = bound-constant t _ st h
  primitive-constant t (float_value v) embed_bool st h = bound-constant t _ st h
  primitive-constant t (double_value v) embed_bool st h = bound-constant t _ st h
  primitive-constant t (bytes_value v) embed_bool st h = bound-constant t _ st h
  primitive-constant t (text_value v) embed_bool st h = bound-constant t _ st h
  primitive-constant t null_flag_value embed_bool st h = null_flag-constant t st h
  primitive-constant t other_value embed_bool st h = cc

  pub optional-constant :
      (t : YdbType) (v : Value) (st : Builder) {text : Bytes} {st' : Builder}
      → format_optional_value formatter t v st ≡ (ok text, st')
      → Emits
          (expressions formatter d)
          st
          st'
          text
          (d.constant (record { ydb_type = t; value = v }))
  unfolding format_optional_value
  optional-constant t null_flag_value st h = null_flag-constant t st h
  optional-constant t other_value st h = cc
  optional-constant t _ st h = bound-constant t _ st h

  value_as-constant :
      (t : YdbType) (v : Value) (embed_bool : Bool) (st : Builder) {text : Bytes} {st' : Builder}
      → format_value_as formatter t v embed_bool st ≡ (ok text, st')
      → Emits
          (expressions formatter d)
          st
          st'
          text
          (d.constant (record { ydb_type = t; value = v }))
  unfolding format_value_as
  value_as-constant (optional t) v embed_bool st h = optional-constant (optional t) v st h
  value_as-constant t v embed_bool st h = primitive-constant t v embed_bool st h

  -- A formatted constant means the constant.
  pub value-constant :
      (v : TypedValue) (embed_bool : Bool) (st : Builder) {text : Bytes} {st' : Builder}
      → format_value formatter v embed_bool st ≡ (ok text, st')
      → Emits (expressions formatter d) st st' text (d.constant v)
  unfolding format_value
  value-constant v embed_bool st h = value_as-constant v.ydb_type v.value embed_bool st h
