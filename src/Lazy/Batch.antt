-- ===== src/Lazy/Batch.antt =====
-- `parse_batch_from_reader` of polars-logfmt/src/lazy/lazy_logfmt_reader.rs: the rows of the next
-- batch of a single-threaded scan.
pub mod Rows
use polars_logfmt.Prelude.{
  ℕ, ◌+◌, Bool, true, false, not, ◌&&◌, ◌||◌, List, [], ◌∷◌, ◌++◌, Option, none, some, ltb, leb,
  ◌==◌, if◌then◌else◌, length,
}
use polars_logfmt.Text.{Bytes, bytes_eq}
use polars_logfmt.Logfmt.Formats.{Formats}
use polars_logfmt.Logfmt.Value.{Schema}
use polars_logfmt.Logfmt.Rows.{Row, parse_logfmt_line, parse_logfmt_line_with_schema}
use polars_logfmt.Lazy.Lines.{LineReader, LineFilter, is_accepted, checked}

-- `column_keys.contains(k)`
abbrev pub contains_key : List Bytes → Bytes → Bool
contains_key [] k = false
contains_key (key ∷ keys) k = bytes_eq key k || contains_key keys k

abbrev pub is_full : Option ℕ → ℕ → Bool
is_full none rows = false
is_full (some bs) rows = leb bs rows

module _ (fmt : Formats) where
  abbrev pub RowFilter : Type 0
  RowFilter = Option (Row fmt → Bool)

  abbrev pub keeps : RowFilter → Row fmt → Bool
  keeps none row = true
  keeps (some row_filter) row = row_filter row

  -- The variables of the loop.
  pub record Batch : Type 0 where
    pub rows : List (Row fmt)
    pub first_row : Option (Row fmt)
    pub lines_read : ℕ
    pub column_keys : List Bytes

  abbrev keys_of : Row fmt → List Bytes
  keys_of [] = []
  keys_of ((k, v) ∷ row) = k ∷ keys_of row

  -- `row.retain(|k, _| column_keys.contains(k))`
  abbrev retain : List Bytes → Row fmt → Row fmt
  retain column_keys [] = []
  retain column_keys ((k, v) ∷ row) =
      let rest : Row fmt = retain column_keys row in
      if contains_key column_keys k then (k, v) ∷ rest else rest

  abbrev aligned_row : Bool → List Bytes → Row fmt → Row fmt
  aligned_row aligned_cols_cnt column_keys row =
      if aligned_cols_cnt && (ltb 0 (length column_keys) && not (length row == length column_keys))
      then retain column_keys row
      else row

  abbrev learned_keys : Bool → List Bytes → Row fmt → List Bytes
  learned_keys aligned_cols_cnt column_keys row =
      if aligned_cols_cnt && (length column_keys == 0) then keys_of row else column_keys

  abbrev seen_first : Option Schema → Option (Row fmt) → Row fmt → Option (Row fmt)
  seen_first none none row = some row
  seen_first _ first_row row = first_row

  pub parse_row : Option Schema → Bytes → Option (Row fmt)
  parse_row none line = parse_logfmt_line fmt line
  parse_row (some schema) line = parse_logfmt_line_with_schema fmt line (some schema)

  -- From the row of an accepted line on.
  pub push_row : Option Schema → RowFilter → Bool → Row fmt → Batch → Batch
  push_row schema row_filter aligned_cols_cnt row b =
      let seen : Batch = record b {
        first_row = seen_first schema b.first_row row;
        lines_read = b.lines_read + 1;
      } in
      let aligned : Row fmt = aligned_row aligned_cols_cnt b.column_keys row in
      if keeps row_filter row
      then record seen {
        rows = b.rows ++ aligned ∷ [];
        column_keys = learned_keys aligned_cols_cnt b.column_keys aligned;
      }
      else seen

  pub take_parsed : Option Schema → RowFilter → Bool → Option (Row fmt) → Batch → Option Batch
  take_parsed schema row_filter aligned_cols_cnt none b = none
  take_parsed schema row_filter aligned_cols_cnt (some row) b =
      some (push_row schema row_filter aligned_cols_cnt row b)

  -- The body of the loop for a line that was read.
  pub batch_line : Option Schema → LineFilter → RowFilter → Bool → Bytes → Batch → Option Batch
  batch_line schema line_filter row_filter aligned_cols_cnt line b =
      if is_accepted line_filter line
      then take_parsed schema row_filter aligned_cols_cnt (parse_row schema line) b
      else some b

  -- The loop, on the lines that are left: the batch, whether the source ended, and the lines left
  -- unread. `none` is the error of `read_line`.
  pub parse_batch :
      Option ℕ
      → Option Schema
      → LineFilter
      → RowFilter
      → Bool
      → LineReader
      → Batch
      → Option (Batch × Bool × LineReader)
  parse_batch batch_size schema line_filter row_filter aligned_cols_cnt [] b =
      some (b, not (is_full batch_size (length b.rows)), [])
  parse_batch batch_size schema line_filter row_filter aligned_cols_cnt (line ∷ lines) b =
      elim (is_full batch_size (length b.rows)) [
        | true ↦ some (b, false, line ∷ lines)
        | false ↦
            elim (checked line (batch_line schema line_filter row_filter aligned_cols_cnt line b)) [
              | none ↦ none
              | some b' ↦
                  parse_batch batch_size schema line_filter row_filter aligned_cols_cnt lines b'
            ]
      ]

  unfoldable pub parse_batch_from_reader :
      LineReader
      → Option ℕ
      → Option Schema
      → LineFilter
      → RowFilter
      → Bool
      → Option (Batch × Bool × LineReader)
  unfolding parse_row push_row take_parsed batch_line parse_batch
  parse_batch_from_reader reader batch_size schema line_filter row_filter aligned_cols_cnt =
      parse_batch batch_size schema line_filter row_filter aligned_cols_cnt reader
        (record { rows = []; first_row = none; lines_read = 0; column_keys = [] })
