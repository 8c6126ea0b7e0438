-- ===== src/Lazy/Parallel/Tests.antt =====
-- Two units with three lines, one of them blank.
use polars_logfmt.Prelude.{
  ℕ, zero, suc, true, false, List, [], ◌∷◌, ◌++◌, ◌≡◌, refl, Option, none, some, length,
}
use polars_logfmt.Text.{Bytes, codes}
use polars_logfmt.Text.Utf8.{is_utf8}
use polars_logfmt.Text.Search.{trim}
use polars_logfmt.Maps.{get, insert}
use polars_logfmt.Logfmt.Samples.{few_formats}
use polars_logfmt.Logfmt.Integers.{ℤ, pos, i64_from_str}
use polars_logfmt.Logfmt.Value.{Schema, parse_value, is_true_word, is_false_word}
use polars_logfmt.Logfmt.Rows.{Row, parse_logfmt_line}
use polars_logfmt.Logfmt.Scan.{Pair, handle_parse_logfmt_line_with_schema_base}
use polars_logfmt.Lazy.Lines.{split_lines, is_accepted, LineReader}
use polars_logfmt.Lazy.Units.{UnitSource}
use polars_logfmt.Lazy.Infer.{infer_schema_from_row}
use polars_logfmt.Lazy.Workers.{worker_slices}
use polars_logfmt.Lazy.Frames.{FrameRange}
use polars_logfmt.Lazy.Frames.Read.{FrameRead}
use polars_logfmt.Lazy.Reader.{LogFmtReaderState}
use polars_logfmt.Lazy.Columns.{int64, string, i64, text, push_line_to_column_mutable_array}
use polars_logfmt.Lazy.Columns.Finish.{FrameColumn, build, to_df}
use polars_logfmt.Lazy.Columns.Finish.Ready.{names, AreColumns}
use polars_logfmt.Lazy.Parallel.{Accumulates, sorted_keys, last_frame, parse_frames}
use polars_logfmt.Lazy.Parallel.Batch.{read_unit_frame, unit_frames, framed_units, parallel_batch}
use polars_logfmt.Lazy.Parallel.Lines.{lines_read}
use polars_logfmt.Lazy.Parallel.First.{used_schema}
use polars_logfmt.Lazy.Parallel.Outcome.{Leaves, parallel_batch-Leaves}
use polars_logfmt.Lazy.Parallel.Run.{parse_frames-columns}

abbrev micros : ℕ → ℤ
micros t = pos t

-- Frames that are their columns.
abbrev rows_of_first : List (FrameColumn few_formats micros) → ℕ
rows_of_first [] = 0
rows_of_first (c ∷ columns) = length c.values

abbrev first_of :
    List (List (FrameColumn few_formats micros)) → Option (List (FrameColumn few_formats micros))
first_of [] = none
first_of (df ∷ dfs) = some df

abbrev column_frames : Accumulates few_formats micros
column_frames = record {
  DataFrame = List (FrameColumn few_formats micros);
  new_infer_height = λ columns. some columns;
  default_frame = [];
  width = length;
  height = rows_of_first;
  apply_pushdown = λ df. some df;
  accumulate_dataframes_vertical = first_of;
}

abbrev line_of_b : Bytes
line_of_b = codes "b=x a=1" ++ b'\n' ∷ []

abbrev units : UnitSource
units zero = some (some (b'\n' ∷ line_of_b))
units (suc zero) = some (some (codes "a=2"))
units _ = some none

abbrev read_unit_at : FrameRange → ℕ → ℕ × FrameRead
read_unit_at range handle = (handle, read_unit_frame units range)

abbrev unit_lines : LineReader
unit_lines = (b'\n' ∷ []) ∷ line_of_b ∷ codes "a=2" ∷ []

abbrev pairs : List Pair
pairs = (codes "a", codes "1") ∷ []

units-read : lines_read read_unit_at (unit_frames 2 0) 0 ≡ some unit_lines
unfolding lines_read unit_frames read_unit_frame split_lines
units-read = refl

parse_frames-columns_example :
    (row : Row few_formats) × (columns : List (FrameColumn few_formats micros)) × (parse_logfmt_line
        few_formats line_of_b
      ≡ some row)
    × (parse_frames few_formats micros column_frames read_unit_at none none true (unit_frames 2 0) 0
        ≡ last_frame few_formats micros column_frames columns)
    × (names few_formats micros columns ≡ sorted_keys few_formats micros row)
    × AreColumns few_formats micros 2 (some (used_schema few_formats none row)) columns
unfolding is_utf8 is_accepted trim handle_parse_logfmt_line_with_schema_base get
parse_frames-columns_example =
    parse_frames-columns few_formats micros column_frames read_unit_at none none (unit_frames 2 0) 0
      unit_lines line_of_b (codes "a=2" ∷ []) (codes "b", codes "x") pairs units-read
      (refl, (refl, (refl, tt))) refl refl (refl, (refl, tt))
      (((codes "a", codes "2") ∷ [], refl, (refl, tt)), tt)

abbrev begun : LogFmtReaderState
begun = record { reader = none; offset = 0; finished = false }

abbrev both_columns : List (FrameColumn few_formats micros)
both_columns =
    (record { name = codes "a"; dtype = int64; values = some (i64 (pos 1)) ∷ [] })
    ∷ (record { name = codes "b"; dtype = string; values = some (text (codes "x")) ∷ [] })
    ∷ []

-- Two units for two workers. The second has no `b`, so that its frame has one column.
units_in_parallel :
    parallel_batch few_formats micros column_frames read_unit_at
      (λ w. some w)
      none
      true
      (λ probe. some none)
      2
      (framed_units (some 2))
      none
      begun
    ≡ some (record { reader = none; offset = 0; finished = true }, none, some both_columns)
unfolding parallel_batch parse_frames unit_frames read_unit_frame split_lines is_utf8 is_accepted
    trim handle_parse_logfmt_line_with_schema_base worker_slices parse_logfmt_line
    push_line_to_column_mutable_array build insert get infer_schema_from_row parse_value
    i64_from_str is_true_word is_false_word to_df
units_in_parallel = refl

parallel_batch-Leaves_example :
    Leaves few_formats micros column_frames begun
      (record { reader = none; offset = 0; finished = true })
      (some both_columns)
    × ((known : Schema) → none ≡ some known → none ≡ some known)
parallel_batch-Leaves_example =
    parallel_batch-Leaves few_formats micros column_frames read_unit_at (λ w. some w) none true
      (λ probe. some none) 2 (framed_units (some 2)) none none begun
      (record { reader = none; offset = 0; finished = true }) (some both_columns) units_in_parallel
