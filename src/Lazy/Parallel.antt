-- ===== src/Lazy/Parallel.antt =====
-- `parse_frames` of polars-logfmt/src/lazy/lazy_logfmt_reader.rs where the scan has no
-- slice, so that `row_cap` is `None`; Lazy.RowCap has the slice.
pub mod Batch
pub mod Keys
pub mod Lines
pub mod First
pub mod Whole
pub mod Run
pub mod Outcome
pub mod Rows
mod Tests
mod RowsTests
use polars_logfmt.Prelude.{
  ℕ, zero, suc, ◌+◌, Bool, true, false, ◌&&◌, ◌||◌, List, [], ◌∷◌, Option, none, some, ltb, ◌==◌,
  if◌then◌else◌, length,
}
use polars_logfmt.Text.{Bytes}
use polars_logfmt.Logfmt.Formats.{Formats}
use polars_logfmt.Logfmt.Integers.{ℤ}
use polars_logfmt.Logfmt.Scan.{◌>>=◌}
use polars_logfmt.Logfmt.Value.{Schema}
use polars_logfmt.Logfmt.Rows.{Row, parse_logfmt_line}
use polars_logfmt.Vfs.{SeekableVfsFile}
use polars_logfmt.Lazy.Lines.{LineFilter, LineReader, split_lines, checked, is_accepted}
use polars_logfmt.Lazy.Infer.{infer_schema_from_row}
use polars_logfmt.Lazy.Table.{text_lt}
use polars_logfmt.Lazy.Units.{UnitSource}
use polars_logfmt.Lazy.Frames.{FrameRange, frames_from_seekable}
use polars_logfmt.Lazy.Frames.Read.{FrameRead}
use polars_logfmt.Lazy.Workers.{worker_slices}
use polars_logfmt.Lazy.Columns.{DataFrameMaker, push_line_to_column_mutable_array}
use polars_logfmt.Lazy.Columns.Finish.{FrameColumn, to_df, build}
use polars_logfmt.Lazy.Reader.{LogFmtReaderState}

-- A key in its place among sorted ones.
pub sort_in : Bytes → List Bytes → List Bytes
sort_in k [] = k ∷ []
sort_in k (key ∷ keys) =
    let rest : List Bytes = sort_in k keys in if text_lt key k then key ∷ rest else k ∷ key ∷ keys

module _ (fmt : Formats) (timestamp_micros : fmt.DateTime → ℤ) where
  -- `first_row.keys().cloned().sorted()`
  pub sorted_keys : Row fmt → List Bytes
  sorted_keys [] = []
  sorted_keys ((k, v) ∷ row) = sort_in k (sorted_keys row)

  -- What the lines change: `first_row` is set back at each frame.
  pub record Loop : Type 0 where
    pub first_row : Option (Row fmt)
    pub column_keys : List Bytes
    pub df_maker : DataFrameMaker fmt timestamp_micros

  abbrev parsed_row : Bytes → Option (Option (Row fmt))
  parsed_row line = parse_logfmt_line fmt line >>= λ row. some (some row)

  -- `first_row` at a line; a `none` outside is a panic of the scanner.
  pub first_row_at : Option Schema → Bytes → Loop → Option (Option (Row fmt))
  first_row_at schema line l = elim l.first_row [
    | some row ↦ some (some row)
    | none ↦ elim schema [
      | none ↦ parsed_row line
      | some known ↦ if length l.column_keys == 0 then parsed_row line else some none
    ]
  ]

  abbrev pub learn_keys : Bool → Option (Row fmt) → List Bytes → List Bytes
  learn_keys aligned_cols_cnt none column_keys = column_keys
  learn_keys aligned_cols_cnt (some row) column_keys =
      if aligned_cols_cnt && (length column_keys == 0) then sorted_keys row else column_keys

  -- `df_maker.column_keys`, from those of the worker.
  abbrev pub give_keys : Bool → List Bytes → List Bytes → List Bytes
  give_keys aligned_cols_cnt column_keys maker_keys =
      if aligned_cols_cnt && ((length maker_keys == 0) && ltb 0 (length column_keys))
      then column_keys
      else maker_keys

  -- `df_maker.schema`
  abbrev pub give_schema : Option (Row fmt) → Option Schema → Option Schema
  give_schema first_row (some schema) = some schema
  give_schema none none = none
  give_schema (some row) none = some (infer_schema_from_row fmt row)

  -- A line that is accepted, once `first_row` is known. The hint that sizes the builders is left out.
  pub take_line : Bool → Bytes → Option (Row fmt) → Loop → Option Loop
  take_line aligned_cols_cnt line first_row l =
      let keys : List Bytes = learn_keys aligned_cols_cnt first_row l.column_keys in
      push_line_to_column_mutable_array fmt timestamp_micros line (record l.df_maker {
        column_keys = give_keys aligned_cols_cnt keys l.df_maker.column_keys;
        schema = give_schema first_row l.df_maker.schema;
      })
      >>= λ m. some (record { first_row = first_row; column_keys = keys; df_maker = m })

  module _ (schema : Option Schema) (line_filter : LineFilter) (aligned_cols_cnt : Bool) where
    -- The body of the loop for a line that was read.
    pub frame_line : Bytes → Loop → Option Loop
    frame_line line l =
        if is_accepted line_filter line
        then (first_row_at schema line l >>= λ first_row.
            take_line aligned_cols_cnt line first_row l)
        else some l

    -- The loop, on the lines of a frame.
    pub frame_lines : LineReader → Loop → Option Loop
    frame_lines [] l = some l
    frame_lines (line ∷ lines) l = checked line (frame_line line l) >>= frame_lines lines

    -- `process_one`, from behind the read: `none` is an error or a panic.
    pub process_one : FrameRead → Loop → Option Loop
    process_one FrameRead.failed l = none
    process_one FrameRead.skipped l = some l
    process_one (FrameRead.found len buf) l =
        frame_lines (split_lines buf) (record l { first_row = none })

  -- What the scan calls of a `DataFrame`. `apply_pushdown` is for the predicate and the columns of this
  -- scan; `accumulate_dataframes_vertical` is Polars'.
  pub record Accumulates : Type 1 where
    pub DataFrame : Type 0
    pub new_infer_height : List (FrameColumn fmt timestamp_micros) → Option DataFrame
    pub default_frame : DataFrame
    pub width : DataFrame → ℕ
    pub height : DataFrame → ℕ
    pub apply_pushdown : DataFrame → Option DataFrame
    pub accumulate_dataframes_vertical : List DataFrame → Option DataFrame

  module _ (frames : Accumulates) where
    abbrev pub pushed : frames.DataFrame → Option frames.DataFrame
    pushed df = if ltb 0 (frames.width df) then frames.apply_pushdown df else some df

    -- `parts`
    abbrev pub part : frames.DataFrame → List frames.DataFrame
    part df = if ltb 0 (frames.width df) && ltb 0 (frames.height df) then df ∷ [] else []

    abbrev pub joined : List frames.DataFrame → frames.DataFrame
    joined [] = frames.default_frame
    joined (df ∷ dfs) = elim (frames.accumulate_dataframes_vertical (df ∷ dfs)) [
      | none ↦ frames.default_frame
      | some all ↦ all
    ]

    -- From the columns that the maker gives at the last range.
    pub last_frame : List (FrameColumn fmt timestamp_micros) → Option frames.DataFrame
    last_frame columns =
        frames.new_infer_height columns >>= λ df. pushed df >>= λ df'. some (joined (part df'))

    module _ {H : Type 0} (read_frame : FrameRange → H → H × FrameRead) (schema : Option Schema)
        (line_filter : LineFilter) (aligned_cols_cnt : Bool) where
      -- The loop over the ranges: the frame is made at the last of them.
      pub parse_ranges : List FrameRange → H → Loop → Option frames.DataFrame
      parse_ranges [] handle l = some (joined [])
      parse_ranges (range ∷ []) handle l =
          process_one schema line_filter aligned_cols_cnt (read_frame range handle).1 l >>= λ l'.
          to_df fmt timestamp_micros l'.df_maker >>= λ made. last_frame made.1
      parse_ranges (range ∷ next ∷ ranges) handle l =
          process_one schema line_filter aligned_cols_cnt (read_frame range handle).1 l
          >>= parse_ranges (next ∷ ranges) (read_frame range handle).0

      unfoldable pub parse_frames : List FrameRange → H → Option frames.DataFrame
      unfolding sort_in sorted_keys first_row_at take_line frame_line frame_lines process_one
          last_frame parse_ranges
      parse_frames ranges handle = parse_ranges ranges handle (record {
        first_row = none;
        column_keys = [];
        df_maker = build fmt timestamp_micros schema;
      })
