-- ===== src/Dialect/Backslash.antt =====
-- SanitiseIdentifier of ClickHouse: a name with a backslash before a quote.
use fq_connector_go.Common.{
  ℕ, Bytes, [], ◌∷◌, ◌++◌, append_assoc, some, ◌≡◌, ◌≢◌, ap, ◌∙◌, arith, All,
}
use fq_connector_go.Dialect.Text.{replace_byte, double_quote}
use fq_connector_go.Dialect.Clickhouse
use fq_connector_go.Dialect.Quoting.{backslash, read_escaped, in_name, read_clickhouse_identifier}

-- A byte that stands for itself in a quoted name of ClickHouse.
abbrev pub IsPlain : ℕ → Type 0
IsPlain c = (c ≢ 0) × (c ≢ double_quote) × (c ≢ backslash)

-- What the name is sanitised to, without the first quote, and what follows it.
abbrev pub sanitised_rest : Bytes → Bytes → Bytes
sanitised_rest name rest =
    replace_byte double_quote (double_quote ∷ double_quote ∷ []) (replace_byte 0 [] name)
    ++ double_quote ∷ rest

read_escaped-broken :
    (unescape : ℕ → ℕ) (before : Bytes) (c : ℕ) (after rest : Bytes)
    → All IsPlain before
    → IsPlain c
    → read_escaped unescape double_quote
        (sanitised_rest (before ++ backslash ∷ double_quote ∷ c ∷ after) rest)
        in_name
      ≡ some (before ++ unescape double_quote ∷ [], c ∷ sanitised_rest after rest)
unfolding replace_byte read_escaped
read_escaped-broken unescape [] c after rest hb hc = ground arith
read_escaped-broken unescape (b ∷ before) c after rest (hb, hbs) hc =
    ground (arith, read_escaped-broken unescape before c after rest hbs hc)

-- ClickHouse reads a backslash in a quoted name as the begin of an escape. A sanitised name that has
-- a quote behind its first backslash, both behind bytes that stand for themselves and before another
-- such byte, is read as the part before the backslash and the byte that the escaped quote stands
-- for; the rest of the name is read as query text.
pub clickhouse_sanitise-breaks :
    (unescape : ℕ → ℕ) (before : Bytes) (c : ℕ) (after rest : Bytes)
    → All IsPlain before
    → IsPlain c
    → read_clickhouse_identifier unescape double_quote
        (Clickhouse.sanitise_identifier (before ++ backslash ∷ double_quote ∷ c ∷ after) ++ rest)
      ≡ some (before ++ unescape double_quote ∷ [], c ∷ sanitised_rest after rest)
unfolding Clickhouse.sanitise_identifier read_clickhouse_identifier
clickhouse_sanitise-breaks unescape before c after rest hb hc =
    ap (λ t. read_escaped unescape double_quote t in_name)
      (append_assoc
        (replace_byte double_quote (double_quote ∷ double_quote ∷ [])
          (replace_byte 0 [] (before ++ backslash ∷ double_quote ∷ c ∷ after)))
        (double_quote ∷ []) rest)
    ∙ read_escaped-broken unescape before c after rest hb hc
