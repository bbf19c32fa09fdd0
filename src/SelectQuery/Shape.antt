-- ===== src/SelectQuery/Shape.antt =====
-- select_query.go: what a query that MakeSelectQuery returns looks like, in a dialect that renders
-- queries by DefaultSelectQueryRender.
use Prim.Native.Nat.{max}
use fq_connector_go.Common.{
  ℕ, suc, Bytes, codes, List, [], ◌∷◌, ◌++◌, length, Option, none, some, ◌≡◌, ◌≢◌, ◌⊎◌, refl, sym,
  ap, ◌∙◌, arith,
}
use fq_connector_go.Errors.{Result, ok, err, >>=-eq-ok}
use fq_connector_go.Ydb.{YdbType}
use fq_connector_go.Api.{DataSourceKind, Predicate, Filtering}
use fq_connector_go.Predicate.Formatter.{QueryArgs, SelectQueryParts, SqlFormatter}
use fq_connector_go.Predicate.Meaning.{Database, IsFaithful}
use fq_connector_go.Predicate.Format.{format_where_clause}
use fq_connector_go.Predicate.Lookup.{NumbersArguments, argument_of}
use fq_connector_go.Predicate.Pushdown.{Covers, format_where_clause-Covers}
use fq_connector_go.Dialect.Text.{where_part, default_select_query_render}
use fq_connector_go.SelectQuery.{
  Column, What, Request, SelectQuery, select_what_to_ydb_columns, select_what_to_ydb_types,
  item_type, with_type, format_select_clause, columns_clause, from_part, where_clause,
  make_select_query,
}

module _ {Split : Type 0} (formatter : SqlFormatter Split)
    (renders : (parts : SelectQueryParts) (s : Split)
      → formatter.render_select_query_text parts s ≡ default_select_query_render parts) where
  -- The parts of a query that was made.
  record Made (request : Request Split) (filtering : Filtering) (table_name : Bytes)
      (query : SelectQuery) : Type 0 where
    select_clause : Bytes
    new_what : What
    clause : Bytes
    selected : format_select_clause formatter request.what ≡ ok (select_clause, new_what)
    typed : select_what_to_ydb_types new_what ≡ ok query.ydb_types
    named : table_name ≢ []
    filtered :
        where_clause formatter request.kind filtering request.filter ≡ ok (clause, query.query_args)
    text :
        query.query_text
        ≡ codes "SELECT "
          ++ (select_clause
              ++ (codes " FROM " ++ (formatter.format_from table_name ++ where_part clause)))

  where_clause-ok :
      (kind : DataSourceKind) (filtering : Filtering) (p : Predicate) {clause : Bytes}
      {args : Option QueryArgs}
      → where_clause formatter kind filtering (some (some p)) ≡ ok (clause, args)
      → (a : QueryArgs) × (args ≡ some a)
        × (format_where_clause formatter kind filtering (some p) ≡ ok (clause, a))
  unfolding where_clause
  where_clause-ok kind filtering p h =
      let (r, hr, e) = >>=-eq-ok (format_where_clause formatter kind filtering (some p)) _ h in
      (r.1, cc e, rw hr (cc e))

  from_part-ok :
      (name : Bytes) {from : Bytes}
      → from_part formatter name ≡ ok from
      → (name ≢ []) × (formatter.format_from name ≡ from)
  unfolding from_part
  from_part-ok [] h = cc
  from_part-ok (c ∷ name) h = (cc, cc)

  rendered :
      (request : Request Split) (filtering : Filtering) (table_name : Bytes) {query : SelectQuery}
      (select : Bytes × What) (types : List YdbType) (from : Bytes)
      (filter : Bytes × Option QueryArgs) (text : Bytes)
      → format_select_clause formatter request.what ≡ ok select
      → select_what_to_ydb_types select.1 ≡ ok types
      → from_part formatter table_name ≡ ok from
      → where_clause formatter request.kind filtering request.filter ≡ ok filter
      → formatter.render_select_query_text
          (record { select_clause = select.0; from_clause = from; where_clause = filter.0 })
          request.split
        ≡ ok text
      → ok (record { query_text = text; query_args = filter.1; ydb_types = types }) ≡ ok query
      → Made request filtering table_name query
  unfolding default_select_query_render
  rendered request filtering table_name {query} select types from filter text hs ht hn hf hr h =
      let same : query ≡ record { query_text = text; query_args = filter.1; ydb_types = types } =
        cc in
      let (named, same_from) = from_part-ok table_name hn in
      let shown : ok text
          ≡ ok
              (codes "SELECT " ++ (select.0 ++ (codes " FROM " ++ (from ++ where_part filter.0)))) =
        sym hr ∙ renders _ request.split in
      rw same (record {
        select_clause = select.0;
        new_what = select.1;
        clause = filter.0;
        selected = hs;
        typed = ht;
        named = named;
        filtered = hf;
        text = rw same_from (cc shown);
      })

  make_select_query-Made :
      (request : Request Split) (filtering : Filtering) (table_name : Bytes) {query : SelectQuery}
      → make_select_query formatter request filtering table_name ≡ ok query
      → Made request filtering table_name query
  unfolding make_select_query
  make_select_query-Made request filtering table_name h =
      let (select, hs, h1) = >>=-eq-ok (format_select_clause formatter request.what) _ h in
      let (types, ht, h2) = >>=-eq-ok (select_what_to_ydb_types select.1) _ h1 in
      let (from, hn, h3) = >>=-eq-ok (from_part formatter table_name) _ h2 in
      let (filter, hf, h4) =
        >>=-eq-ok (where_clause formatter request.kind filtering request.filter) _ h3 in
      let (text, hr, h5) = >>=-eq-ok (formatter.render_select_query_text _ request.split) _ h4 in
      rendered request filtering table_name select types from filter text hs ht hn hf hr h5

  module _ (d : Database) (faithful : IsFaithful d) where
    -- In a dialect that renders by DefaultSelectQueryRender and in which different arguments have
    -- different placeholders, a query that MakeSelectQuery returns for a request with a filter reads
    -- the named table, whose name is not empty: its text is SELECT, the columns, FROM, the table in
    -- the dialect's form, and WHERE with the clause unless the clause is empty. The clause, if there
    -- is one, holds in every row in which the filter of the request holds, if each placeholder is
    -- bound to that argument of the query which its text stands for. The database is taken to read
    -- an argument as the constant that it carries.
    pub make_select_query-Covers :
        (request : Request Split) (filtering : Filtering) (table_name : Bytes) (query : SelectQuery)
        (p : Predicate)
        → NumbersArguments formatter
        → request.filter ≡ some (some p)
        → make_select_query formatter request filtering table_name ≡ ok query
        → (columns : Bytes) × (clause : Bytes) × (args : QueryArgs) × (table_name ≢ [])
          × (query.query_args ≡ some args)
          × (query.query_text
              ≡ codes "SELECT "
                ++ (columns
                    ++ (codes " FROM " ++ (formatter.format_from table_name ++ where_part clause))))
          × ((clause ≡ [])
              ⊎ Covers formatter request.kind d faithful p clause
                  (λ n. argument_of formatter args (formatter.get_placeholder n)))
    make_select_query-Covers request filtering table_name query p numbers asked h =
        let m = make_select_query-Made request filtering table_name h in
        let (args, same_args, formatted) =
          where_clause-ok request.kind filtering p (rw asked at m.filtered) in
        (
          m.select_clause,
          m.clause,
          args,
          m.named,
          same_args,
          m.text,
          format_where_clause-Covers formatter request.kind d faithful p filtering m.clause args
              numbers formatted,
        )

length-with_type :
    (t : Option YdbType) (rest : Result (List YdbType)) {ts : List YdbType} (n : ℕ)
    → with_type t rest ≡ ok ts
    → ((us : List YdbType) → rest ≡ ok us → length us ≡ n)
    → length ts ≡ suc n
unfolding with_type
length-with_type none rest n h ih = cc
length-with_type (some t) (err e) n h ih = cc
length-with_type (some t) (ok us) {ts} n h ih =
    let e : ts ≡ t ∷ us = cc in rw e (ap suc (ih us refl))

-- A type for each item.
length-types :
    (w : What) (ts : List YdbType) → select_what_to_ydb_types w ≡ ok ts → length ts ≡ length w
unfolding select_what_to_ydb_types
length-types [] ts h = let e : ts ≡ [] = cc in rw e
length-types (item ∷ w) ts h =
    length-with_type (item_type item) (select_what_to_ydb_types w) (length w) h (length-types w)

length-columns :
    (w : What) (cs : List Column) → select_what_to_ydb_columns w ≡ ok cs → length cs ≡ length w
unfolding select_what_to_ydb_columns
length-columns [] cs h = let e : cs ≡ [] = cc in rw e
length-columns (none ∷ w) cs h = cc
length-columns (some c ∷ w) cs h =
    let (ds, hd, last) = >>=-eq-ok (select_what_to_ydb_columns w) _ h in
    let e : cs ≡ c ∷ ds = cc last in rw e (ap suc (length-columns w ds hd))

module _ {Split : Type 0} (formatter : SqlFormatter Split) where
  length-columns_clause :
      (w : What) (cs : List Column)
      → length cs ≡ length w
      → length (columns_clause formatter w cs).1 ≡ max 1 (length w)
  unfolding columns_clause
  length-columns_clause w [] h = omega arith
  length-columns_clause w (c ∷ cs) h = omega arith

  length-select_clause :
      (w w' : What) (text : Bytes)
      → format_select_clause formatter w ≡ ok (text, w')
      → length w' ≡ max 1 (length w)
  unfolding format_select_clause
  length-select_clause w w' text h =
      let (cs, hc, last) = >>=-eq-ok (select_what_to_ydb_columns w) _ h in
      let e : w' ≡ (columns_clause formatter w cs).1 = cc last in
      rw e (length-columns_clause w cs (length-columns w cs hc))

  -- In a dialect that renders by DefaultSelectQueryRender, a query that MakeSelectQuery returns comes
  -- with one type for each requested column, and with the single type of the constant that is
  -- selected if no column is requested.
  pub length-ydb_types :
      (renders : (parts : SelectQueryParts) (s : Split)
        → formatter.render_select_query_text parts s ≡ default_select_query_render parts)
      (request : Request Split) (filtering : Filtering) (table_name : Bytes) (query : SelectQuery)
      → make_select_query formatter request filtering table_name ≡ ok query
      → length query.ydb_types ≡ max 1 (length request.what)
  length-ydb_types renders request filtering table_name query h =
      let m = make_select_query-Made formatter renders request filtering table_name h in
      length-types m.new_what query.ydb_types m.typed
      ∙ length-select_clause request.what m.new_what m.select_clause m.selected
