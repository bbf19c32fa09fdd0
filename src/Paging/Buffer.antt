-- ===== src/Paging/Buffer.antt =====
-- app/server/paging/columnar_buffer_arrow_ipc_streaming_empty_columns.go, _default.go and
-- columnar_buffer_factory.go: the two buffers that a sink collects rows in, as far as the sink uses
-- them, for a factory in the format ARROW_IPC_STREAMING. The arrow builders and the row
-- transformers are not code of this repository or are generated per data source: they are the
-- parameter `Arrow`.
use fq_connector_go.Common.{
  ℕ, ◌+◌, List, length, Bool, true, false, ◌==◌, if◌then◌else◌, ◌≡◌, arith,
}
use fq_connector_go.Errors.{opaque, Result, ok, err}
use fq_connector_go.Paging.Size.{Acceptor}
use fq_connector_go.Paging.Sink.{Buffers}

-- columnarBufferArrowIPCStreamingEmptyColumns.addRow, on `rowsAdded`.
unfoldable pub add_row_empty : List Acceptor → ℕ → Result (Unit {0}) × ℕ
add_row_empty row rows_added =
    if length row == 1 then (ok tt, rows_added + 1) else (err opaque, rows_added)

pub empty-counts : (row : List Acceptor) (n m : ℕ) → add_row_empty row n ≡ (ok tt, m) → m ≡ n + 1
unfolding add_row_empty
empty-counts row n m h = ground arith

pub make-empty : (n : ℕ) → ◌≡◌ {A = Result ℕ} (ok 0) (ok n) → n ≡ 0
make-empty n h = cc

-- The factory's buffers if no column is read.
abbrev pub empty_columns : Buffers
empty_columns = record {
  Buffer = ℕ;
  make_buffer = ok 0;
  buffer_add_row = add_row_empty;
  total_rows = λ n. n;
  total_rows-make = make-empty;
  total_rows-add = empty-counts;
}

-- array.Builder, with YdbTypesToArrowBuilders for the columns of the request (the first builder, and
-- the rest) and RowTransformer.AppendToArrowBuilders. New builders are empty, and a row that is
-- appended with success is one value more in the first builder.
pub record Arrow : Type 1 where
  pub ArrowBuilder : Type 0
  pub len : ArrowBuilder → ℕ
  pub new_builders : Result (ArrowBuilder × List ArrowBuilder)
  pub append_to_builders :
      List Acceptor
      → ArrowBuilder × List ArrowBuilder
      → Result (Unit {0}) × (ArrowBuilder × List ArrowBuilder)
  pub len-new : (bs : ArrowBuilder × List ArrowBuilder) → new_builders ≡ ok bs → len bs.0 ≡ 0
  pub len-append :
      (row : List Acceptor) (bs cs : ArrowBuilder × List ArrowBuilder)
      → append_to_builders row bs ≡ (ok tt, cs)
      → len cs.0 ≡ len bs.0 + 1

module _ (arrow : Arrow) where
  open arrow use {ArrowBuilder, len, append_to_builders, len-append}

  -- columnarBufferArrowIPCStreamingDefault.addRow
  unfoldable pub add_row_default :
      List Acceptor
      → ArrowBuilder × List ArrowBuilder
      → Result (Unit {0}) × (ArrowBuilder × List ArrowBuilder)
  add_row_default row bs =
      if length row == 1 + length bs.1 then append_to_builders row bs else (err opaque, bs)

  checked-counts :
      (fits : Bool) (row : List Acceptor) (bs cs : ArrowBuilder × List ArrowBuilder)
      → (if fits then append_to_builders row bs else (err opaque, bs)) ≡ (ok tt, cs)
      → len cs.0 ≡ len bs.0 + 1
  checked-counts true row bs cs h = len-append row bs cs h
  checked-counts false row bs cs h = cc

  pub default-counts :
      (row : List Acceptor) (bs cs : ArrowBuilder × List ArrowBuilder)
      → add_row_default row bs ≡ (ok tt, cs)
      → len cs.0 ≡ len bs.0 + 1
  unfolding add_row_default
  default-counts row bs cs h = checked-counts (length row == 1 + length bs.1) row bs cs h

  -- The factory's buffers if there are columns.
  abbrev pub default_columns : Buffers
  default_columns = record {
    Buffer = ArrowBuilder × List ArrowBuilder;
    make_buffer = arrow.new_builders;
    buffer_add_row = add_row_default;
    total_rows = λ bs. len bs.0;
    total_rows-make = arrow.len-new;
    total_rows-add = default-counts;
  }
