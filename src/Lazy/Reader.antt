-- ===== src/Lazy/Reader.antt =====
-- `wrrap_next_batch` and `single_batch` of polars-logfmt/src/lazy/lazy_logfmt_reader.rs: the next batch of
-- a scan, and what it does to `LogFmtReaderState`.
pub mod Accumulate
pub mod Progress
pub mod Samples
mod Tests
use polars_logfmt.Prelude.{
  ℕ, zero, suc, ◌+◌, ◌-◌, Bool, true, false, not, ◌&&◌, ◌||◌, List, [], ◌∷◌, ◌++◌, Option, none,
  some, ltb, leb, ◌==◌, if◌then◌else◌, length,
}
use polars_logfmt.Text.{Bytes}
use polars_logfmt.Logfmt.Formats.{Formats}
use polars_logfmt.Logfmt.Value.{Schema}
use polars_logfmt.Logfmt.Rows.{Row}
use polars_logfmt.Lazy.Lines.{LineReader, LineFilter}
use polars_logfmt.Lazy.Infer.{infer_schema_from_row}
use polars_logfmt.Lazy.Table.{Casts, Column, rows_to_dataframe_filled}
use polars_logfmt.Lazy.Batch.{RowFilter, Batch, is_full, parse_batch_from_reader}

pub record LogFmtReaderState : Type 0 where
  pub reader : Option LineReader
  pub offset : ℕ
  pub finished : Bool

-- The data frames are Polars'. `new_frame` is `DataFrame::new_infer_height`, and `apply_pushdown` is for the
-- predicate and the columns of this scan; `casts` are the conversions of the columns.
pub record DataFrames (fmt : Formats) : Type 1 where
  pub casts : Casts fmt
  pub DataFrame : Type 0
  pub new_frame : List (Bytes × Column fmt casts) → Option DataFrame
  pub apply_pushdown : DataFrame → Option DataFrame
  pub height : DataFrame → ℕ
  pub slice : ℕ → DataFrame → DataFrame

-- `remaining_opt`
abbrev pub remaining : Option ℕ → ℕ → Option ℕ
remaining none accumulated = none
remaining (some bs) accumulated = if leb bs accumulated then some 0 else some (bs - accumulated)

abbrev pub is_some_zero : Option ℕ → Bool
is_some_zero none = false
is_some_zero (some n) = n == 0

abbrev pub or_first {ℓ} : {A : Type ℓ} → Option A → Option A → Option A
or_first none o = o
or_first (some a) o = some a

module _ (fmt : Formats) where
  -- The variables of the loop; `ended` is the early return at the end of the source.
  pub record Accumulated : Type 0 where
    pub rows : List (Row fmt)
    pub first_row : Option (Row fmt)
    pub total_lines_read : ℕ
    pub reader : LineReader
    pub ended : Bool

  pub append_batch : Accumulated → Batch fmt → LineReader → Accumulated
  append_batch acc b rest = record {
    rows = acc.rows ++ b.rows;
    first_row = or_first acc.first_row b.first_row;
    total_lines_read = acc.total_lines_read + b.lines_read;
    reader = rest;
    ended = false;
  }

  -- The loop; a batch is full or the last, so that one turn and the test of the next are enough.
  pub accumulate :
      ℕ
      → Option ℕ
      → Option Schema
      → LineFilter
      → RowFilter fmt
      → Bool
      → Accumulated
      → Option Accumulated
  accumulate zero batch_size schema line_filter row_filter aligned_cols_cnt acc = none
  accumulate (suc fuel) batch_size schema line_filter row_filter aligned_cols_cnt acc =
      let left : Option ℕ = remaining batch_size (length acc.rows) in
      elim (is_some_zero left) [
        | true ↦ some acc
        | false ↦
            elim (parse_batch_from_reader fmt acc.reader left schema line_filter row_filter
              aligned_cols_cnt) [
                | none ↦ none
                | some parsed ↦
                    let (b, eof, rest) = parsed in
                    let acc' : Accumulated = append_batch acc b rest in
                    elim (is_full batch_size (length acc'.rows) || eof) [
                      | true ↦ some (record acc' { ended = eof && (length acc'.rows == 0) })
                      | false ↦
                          accumulate fuel batch_size schema line_filter row_filter aligned_cols_cnt
                            acc'
                    ]
              ]
      ]

  -- `*schema` once a first row is known.
  abbrev known_schema : Option Schema → Option (Row fmt) → Option Schema
  known_schema (some schema) first_row = some schema
  known_schema none none = none
  known_schema none (some row) = some (infer_schema_from_row fmt row)

  module _ (frames : DataFrames fmt) where
    -- The frame of the columns that `rows_to_dataframe_filled` makes.
    abbrev pub filled_frame : List (Row fmt) → Schema → Option frames.DataFrame
    filled_frame rows schema =
        frames.new_frame (rows_to_dataframe_filled fmt frames.casts rows (some schema))

    -- `none` is an error, which ends the scan.
    abbrev pub Returned : Type 0
    Returned = Option (LogFmtReaderState × Option frames.DataFrame)

    abbrev pub cut : Option ℕ → frames.DataFrame → frames.DataFrame
    cut none df = df
    cut (some bs) df = if ltb bs (frames.height df) then frames.slice bs df else df

    abbrev pushed_down : Option ℕ → LogFmtReaderState → Option frames.DataFrame → Returned
    pushed_down batch_size state none = none
    pushed_down batch_size state (some df) = some (state, some (cut batch_size df))

    abbrev to_frame : Option ℕ → LogFmtReaderState → Option frames.DataFrame → Returned
    to_frame batch_size state none = none
    to_frame batch_size state (some df) = pushed_down batch_size state (frames.apply_pushdown df)

    abbrev reaches : Option ℕ → ℕ → Bool
    reaches none raw_rows = false
    reaches (some n) raw_rows = leb n raw_rows

    -- From behind the loop: `n_rows` is the slice.
    pub finish : Option ℕ → Option ℕ → Option Schema → LogFmtReaderState → Accumulated → Returned
    finish n_rows batch_size none state acc = some (
      record {
        reader = some acc.reader;
        offset = state.offset + acc.total_lines_read;
        finished = state.finished || (acc.total_lines_read == 0);
      },
      none,
    )
    finish n_rows batch_size (some used_schema) state acc =
        let state' : LogFmtReaderState = record {
          reader = some acc.reader;
          offset = state.offset + acc.total_lines_read;
          finished =
              state.finished || (reaches n_rows (length acc.rows) || (acc.total_lines_read == 0));
        } in
        to_frame batch_size state' (filled_frame acc.rows used_schema)

    pub after_loop :
        Option ℕ → Option ℕ → Option Schema → LogFmtReaderState → Option Accumulated → Returned
    after_loop n_rows batch_size schema state none = none
    after_loop n_rows batch_size schema state (some acc) =
        if acc.ended
        then some (
          record {
            reader = some acc.reader;
            offset = state.offset + acc.total_lines_read;
            finished = true;
          },
          none,
        )
        else finish n_rows batch_size (known_schema schema acc.first_row) state acc

    -- The batch from `reader`, under the schema that is known before it.
    pub batch_from :
        Option ℕ
        → Option ℕ
        → LineFilter
        → RowFilter fmt
        → Bool
        → LogFmtReaderState
        → LineReader
        → Option Schema
        → Returned
    batch_from n_rows batch_size line_filter row_filter aligned_cols_cnt state reader schema =
        after_loop n_rows batch_size schema state (
          accumulate (suc (length reader)) batch_size schema line_filter row_filter aligned_cols_cnt
            (record {
              rows = [];
              first_row = none;
              total_lines_read = 0;
              reader = reader;
              ended = false;
            }))

    abbrev predicted :
        Option Schema → Option (Option Schema) → (Option Schema → Returned) → Returned
    predicted (some schema) predict go_on = go_on (some schema)
    predicted none none go_on = none
    predicted none (some schema) go_on = go_on schema

    abbrev opened : Option LineReader → Option LineReader → (LineReader → Returned) → Returned
    opened (some reader) open_source go_on = go_on reader
    opened none none go_on = none
    opened none (some reader) go_on = go_on reader

    -- `open_source` is the reader that the source gives, and `predict` what
    -- `predict_schema_from_first_line` returns; a `none` of them is an error.
    unfoldable pub single_batch :
        Option LineReader
        → Option (Option Schema)
        → Option ℕ
        → Option ℕ
        → Option Schema
        → LineFilter
        → RowFilter fmt
        → Bool
        → LogFmtReaderState
        → Returned
    unfolding append_batch accumulate finish after_loop batch_from
    single_batch open_source predict n_rows batch_size schema line_filter row_filter
          aligned_cols_cnt state =
        opened state.reader open_source (λ reader. predicted schema predict (λ schema'.
          batch_from n_rows batch_size line_filter row_filter aligned_cols_cnt state reader
            schema'))

    -- `parallel_batch` gives the state, the schema it leaves, and the frame, if it made one.
    abbrev or_single :
        Option (LogFmtReaderState × Option Schema × Option frames.DataFrame)
        → (LogFmtReaderState → Option Schema → Returned)
        → Returned
    or_single none single = none
    or_single (some (state, schema, some df)) single = some (state, some df)
    or_single (some (state, schema, none)) single = single state schema

    abbrev no_reader : Option LineReader → Bool
    no_reader none = true
    no_reader (some reader) = false

    unfoldable pub wrrap_next_batch :
        (LogFmtReaderState → Option (LogFmtReaderState × Option Schema × Option frames.DataFrame))
        → Bool
        → Option LineReader
        → Option (Option Schema)
        → Option ℕ
        → Option ℕ
        → Option Schema
        → LineFilter
        → RowFilter fmt
        → Bool
        → LogFmtReaderState
        → Returned
    unfolding single_batch
    wrrap_next_batch parallel_batch use_parallel open_source predict n_rows own_batch_size schema
          line_filter row_filter aligned_cols_cnt state =
        let batch_size : Option ℕ = or_first n_rows own_batch_size in
        let single : LogFmtReaderState → Option Schema → Returned = λ state' schema'.
          single_batch open_source predict n_rows batch_size schema' line_filter row_filter
            aligned_cols_cnt state' in
        if state.finished
        then some (state, none)
        else if no_reader state.reader && (use_parallel && (state.offset == 0))
        then or_single (parallel_batch state) single
        else single state schema
