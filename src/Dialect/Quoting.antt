-- ===== src/Dialect/Quoting.antt =====
-- SanitiseIdentifier of the dialects, against readers of quoted identifiers.
use fq_connector_go.Common.{
  ℕ, Bool, true, false, Bytes, [], ◌∷◌, ◌++◌, append_assoc, Option, none, some, ◌≡◌, ◌≢◌, refl,
  arith, ◌==◌, ==_iff, if◌then◌else◌, All,
}
use fq_connector_go.Dialect.Text.{replace_byte, double_quote, backtick}
use fq_connector_go.Dialect.Postgresql
use fq_connector_go.Dialect.Clickhouse
use fq_connector_go.Dialect.Mysql
use fq_connector_go.Dialect.Oracle
use fq_connector_go.Dialect.MsSqlServer
use fq_connector_go.Dialect.Ydb

-- One more byte of the name.
abbrev pub with_byte : ℕ → Option (Bytes × Bytes) → Option (Bytes × Bytes)
with_byte c none = none
with_byte c (some (name, rest)) = some (c ∷ name, rest)

-- How a database reads a quoted name up to its closing quote: a doubled quote stands for one. The
-- flag says that a quote was just read. The result is the name, and the text behind it.
read_name : ℕ → Bytes → Bool → Option (Bytes × Bytes)
read_name q [] false = none
read_name q [] true = some ([], [])
read_name q (c ∷ s) false =
    let close = read_name q s true in
    let next = with_byte c (read_name q s false) in if c == q then close else next
read_name q (c ∷ s) true =
    let next = with_byte q (read_name q s false) in if c == q then next else some ([], c ∷ s)

pub read_identifier : ℕ → Bytes → Option (Bytes × Bytes)
unfolding read_name
read_identifier q [] = none
read_identifier q (c ∷ s) = if c == q then read_name q s false else none

-- Where a reader of ClickHouse is: in the name, behind a quote, behind a backslash.
pub data Place : Type 0 where
  in_name behind_quote behind_backslash : Place

abbrev pub backslash : ℕ
backslash = 92

-- ClickHouse also escapes by a backslash; what byte an escape stands for is left open.
unfoldable pub read_escaped : (ℕ → ℕ) → ℕ → Bytes → Place → Option (Bytes × Bytes)
read_escaped unescape q [] in_name = none
read_escaped unescape q [] behind_quote = some ([], [])
read_escaped unescape q [] behind_backslash = none
read_escaped unescape q (c ∷ s) in_name =
    let close = read_escaped unescape q s behind_quote in
    let escape = read_escaped unescape q s behind_backslash in
    let next = with_byte c (read_escaped unescape q s in_name) in
    if c == q then close else if c == backslash then escape else next
read_escaped unescape q (c ∷ s) behind_quote =
    let next = with_byte q (read_escaped unescape q s in_name) in
    if c == q then next else some ([], c ∷ s)
read_escaped unescape q (c ∷ s) behind_backslash =
    with_byte (unescape c) (read_escaped unescape q s in_name)

unfoldable pub read_clickhouse_identifier : (ℕ → ℕ) → ℕ → Bytes → Option (Bytes × Bytes)
unfolding read_escaped
read_clickhouse_identifier unescape q [] = none
read_clickhouse_identifier unescape q (c ∷ s) =
    if c == q then read_escaped unescape q s in_name else none

-- The text behind a name does not go on with the quote.
abbrev pub StartsWithout : ℕ → Bytes → Type 0
StartsWithout q [] = Unit {0}
StartsWithout q (c ∷ s) = c ≢ q

read_name-close :
    (q : ℕ) (rest : Bytes) → StartsWithout q rest → read_name q (q ∷ rest) false ≡ some ([], rest)
unfolding read_name
read_name-close q [] h = ground arith
read_name-close q (c ∷ rest) h = ground arith

read_name-doubled :
    (q : ℕ) (name rest : Bytes)
    → StartsWithout q rest
    → read_name q (replace_byte q (q ∷ q ∷ []) name ++ q ∷ rest) false ≡ some (name, rest)
unfolding replace_byte read_name
read_name-doubled q [] rest h = unfold replace_byte in (read_name-close q rest h)
read_name-doubled q (c ∷ name) rest h = ground (arith, read_name-doubled q name rest h)

read_name-plain :
    (q : ℕ) (name rest : Bytes)
    → All (λ c. c ≢ q) name
    → StartsWithout q rest
    → read_name q (name ++ q ∷ rest) false ≡ some (name, rest)
unfolding read_name
read_name-plain q [] rest hn h = read_name-close q rest h
read_name-plain q (c ∷ name) rest (hc, hn) h = ground (arith, read_name-plain q name rest hn h)

no_nul : (name : Bytes) → All (λ c. c ≢ 0) name → replace_byte 0 [] name ≡ name
unfolding replace_byte
no_nul [] h = refl
no_nul (c ∷ name) (hc, h) = ground (arith, no_nul name h)

-- The dialects that escape the quote in a name.
pub data Escaping : Type 0 where
  postgresql clickhouse oracle ms_sql_server mysql : Escaping

abbrev pub quote_of : Escaping → ℕ
quote_of mysql = backtick
quote_of _ = double_quote

abbrev pub sanitise_of : Escaping → Bytes → Bytes
sanitise_of postgresql = Postgresql.sanitise_identifier
sanitise_of clickhouse = Clickhouse.sanitise_identifier
sanitise_of oracle = Oracle.sanitise_identifier
sanitise_of ms_sql_server = MsSqlServer.sanitise_identifier
sanitise_of mysql = Mysql.sanitise_identifier

quoted-read :
    (q : ℕ) (name rest : Bytes)
    → StartsWithout q rest
    → read_identifier q ((q ∷ (replace_byte q (q ∷ q ∷ []) name ++ q ∷ [])) ++ rest)
      ≡ some (name, rest)
unfolding read_identifier
quoted-read q name rest h =
    rw (append_assoc (replace_byte q (q ∷ q ∷ []) name) (q ∷ []) rest, (==_iff q q).1 refl)
      (read_name-doubled q name rest h)

read_escaped-close :
    (unescape : ℕ → ℕ) (rest : Bytes)
    → StartsWithout double_quote rest
    → read_escaped unescape double_quote (double_quote ∷ rest) in_name ≡ some ([], rest)
unfolding read_escaped
read_escaped-close unescape [] h = refl
read_escaped-close unescape (c ∷ rest) h = ground arith

read_escaped-doubled :
    (unescape : ℕ → ℕ) (name rest : Bytes)
    → All (λ c. c ≢ backslash) name
    → StartsWithout double_quote rest
    → read_escaped unescape double_quote
        (replace_byte double_quote (double_quote ∷ double_quote ∷ []) name ++ double_quote ∷ rest)
        in_name
      ≡ some (name, rest)
unfolding replace_byte read_escaped
read_escaped-doubled unescape [] rest hn h =
    unfold replace_byte in (read_escaped-close unescape rest h)
read_escaped-doubled unescape (c ∷ name) rest (hc, hn) h =
    ground (arith, read_escaped-doubled unescape name rest hn h)

clickhouse-read :
    (unescape : ℕ → ℕ) (name rest : Bytes)
    → All (λ c. c ≢ backslash) name
    → StartsWithout double_quote rest
    → read_clickhouse_identifier unescape double_quote (
        (double_quote
          ∷ (replace_byte double_quote (double_quote ∷ double_quote ∷ []) name
              ++ double_quote ∷ []))
        ++ rest)
      ≡ some (name, rest)
unfolding read_clickhouse_identifier
clickhouse-read unescape name rest hn h =
    rw
      (append_assoc (replace_byte double_quote (double_quote ∷ double_quote ∷ []) name)
        (double_quote ∷ []) rest)
      (read_escaped-doubled unescape name rest hn h)

-- How the database of a dialect reads a quoted identifier.
abbrev pub read_of : (ℕ → ℕ) → Escaping → Bytes → Option (Bytes × Bytes)
read_of unescape clickhouse = read_clickhouse_identifier unescape double_quote
read_of unescape k = read_identifier (quote_of k)

-- Apart from zero, the byte that a name may not have: a backslash in ClickHouse, which reads it as
-- an escape, and a double quote in Oracle, whose identifiers cannot hold one.
abbrev pub excluded : Escaping → ℕ
excluded clickhouse = backslash
excluded oracle = double_quote
excluded _ = 0

-- In PostgreSQL, ClickHouse, Oracle, MS SQL Server and MySQL a sanitised identifier is read back as
-- that identifier, whatever quotes it holds, and the text behind it, which does not begin with the
-- quote, is what is left: such an identifier cannot end its quotes early. The identifier has no zero
-- byte, no backslash in ClickHouse, whose reader takes it for an escape, and no double quote in
-- Oracle, whose identifiers cannot hold one.
pub sanitise-read :
    (unescape : ℕ → ℕ) (k : Escaping) (name rest : Bytes)
    → All (λ c. c ≢ 0) name
    → All (λ c. c ≢ excluded k) name
    → StartsWithout (quote_of k) rest
    → read_of unescape k (sanitise_of k name ++ rest) ≡ some (name, rest)
unfolding Postgresql.sanitise_identifier Clickhouse.sanitise_identifier Oracle.sanitise_identifier
    MsSqlServer.sanitise_identifier Mysql.sanitise_identifier
sanitise-read unescape postgresql name rest hn hx h =
    rw (no_nul name hn) (quoted-read double_quote name rest h)
sanitise-read unescape clickhouse name rest hn hx h =
    rw (no_nul name hn) (clickhouse-read unescape name rest hx h)
sanitise-read unescape oracle name rest hn hx h =
    rw (no_nul name hn) (quoted-read double_quote name rest h)
sanitise-read unescape ms_sql_server name rest hn hx h =
    rw (no_nul name hn) (quoted-read double_quote name rest h)
sanitise-read unescape mysql name rest hn hx h = quoted-read backtick name rest h

-- YDB's identifiers are not escaped. A sanitised name with a backtick in it is read as the part
-- before the backtick, if no second one follows it, and the rest of the name is read as query text.
pub ydb_sanitise-breaks :
    (before after rest : Bytes)
    → All (λ c. c ≢ backtick) before
    → StartsWithout backtick (after ++ backtick ∷ rest)
    → read_identifier backtick (Ydb.sanitise_identifier (before ++ backtick ∷ after) ++ rest)
      ≡ some (before, after ++ backtick ∷ rest)
unfolding Ydb.sanitise_identifier read_identifier
ydb_sanitise-breaks before after rest hb ha =
    let e : ((before ++ backtick ∷ after) ++ backtick ∷ []) ++ rest
        ≡ before ++ backtick ∷ (after ++ backtick ∷ rest) =
      simp append_assoc in
    rw e (read_name-plain backtick before (after ++ backtick ∷ rest) hb ha)
