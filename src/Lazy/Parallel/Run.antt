-- ===== src/Lazy/Parallel/Run.antt =====
-- A worker makes the frame of the lines of all its frames.
use polars_logfmt.Prelude.{
  ◌+◌, true, List, [], ◌∷◌, ◌≡◌, refl, sym, ap, ◌∙◌, Option, some, arith, inl, length,
}
use polars_logfmt.Text.{Bytes}
use polars_logfmt.Maps.{Distinct}
use polars_logfmt.Logfmt.Formats.{Formats}
use polars_logfmt.Logfmt.Integers.{ℤ}
use polars_logfmt.Logfmt.Scan.{Pair, ◌>>=◌, handle_parse_logfmt_line_with_schema_base}
use polars_logfmt.Logfmt.Value.{Schema}
use polars_logfmt.Logfmt.Rows.{Row, parse_logfmt_line}
use polars_logfmt.Lazy.Lines.{LineReader, LineFilter}
use polars_logfmt.Lazy.Batch.Rows.{AreUtf8}
use polars_logfmt.Lazy.Frames.{FrameRange}
use polars_logfmt.Lazy.Frames.Read.{FrameRead}
use polars_logfmt.Lazy.Columns.Finish.{FrameColumn, build}
use polars_logfmt.Lazy.Columns.Finish.Ready.{names, AreColumns}
use polars_logfmt.Lazy.Columns.Finish.Run.{AreScanned, push_lines-to_df}
use polars_logfmt.Lazy.Parallel.{sorted_keys, Accumulates, last_frame, parse_frames}
use polars_logfmt.Lazy.Parallel.Keys.{first_row-keys}
use polars_logfmt.Lazy.Parallel.First.{used_schema}
use polars_logfmt.Lazy.Parallel.Whole.{parse_ranges-whole}
use polars_logfmt.Lazy.Parallel.Lines.{accepted, lines_read, fresh}

-- A worker whose frames are read, their lines valid UTF-8, where columns are aligned and the scanner reads each
-- line that the scan takes as pairs with different keys, the first as one pair at least: however
-- the lines are dealt over the frames, it makes the frame of one column for each key of the first line, in
-- the order of the keys, with a cell for each line that the scan takes, of the type that the schema gives
-- the key; without a schema it takes that of the first line.
pub parse_frames-columns :
    (fmt : Formats) (timestamp_micros : fmt.DateTime → ℤ)
    (frames : Accumulates fmt timestamp_micros) {H : Type 0}
    (read_frame : FrameRange → H → H × FrameRead) (schema : Option Schema)
    (line_filter : LineFilter) (ranges : List FrameRange) (handle : H) (lines : LineReader)
    (first : Bytes) (later : List Bytes) (call : Pair) (calls : List Pair)
    → lines_read read_frame ranges handle ≡ some lines
    → AreUtf8 lines
    → accepted line_filter lines ≡ first ∷ later
    → handle_parse_logfmt_line_with_schema_base first ≡ some (call ∷ calls)
    → Distinct (call ∷ calls)
    → AreScanned later
    → (row : Row fmt) × (columns : List (FrameColumn fmt timestamp_micros)) × (parse_logfmt_line fmt
          first
        ≡ some row)
      × (parse_frames fmt timestamp_micros frames read_frame schema line_filter true ranges handle
          ≡ last_frame fmt timestamp_micros frames columns)
      × (names fmt timestamp_micros columns ≡ sorted_keys fmt timestamp_micros row)
      × AreColumns fmt timestamp_micros
          (length later + 1)
          (some (used_schema fmt schema row))
          columns
unfolding parse_frames build lines_read
parse_frames-columns fmt timestamp_micros frames read_frame schema line_filter [] handle lines first
      later call calls read us starts scanned distinct scanned_later =
    let none_read : lines ≡ [] = cc (read) in absurd (ground (arith, starts, none_read))
parse_frames-columns fmt timestamp_micros frames read_frame schema line_filter (range ∷ ranges)
      handle lines first later call calls read us starts scanned distinct scanned_later =
    let (row, k, keys, parsed, are, distinct_keys, carried) =
      first_row-keys fmt timestamp_micros first call calls scanned in
    let (m, m', columns, whole, made, named, even) =
      push_lines-to_df fmt timestamp_micros (some (used_schema fmt schema row)) k keys first
        (call ∷ calls) later scanned distinct distinct_keys carried scanned_later in
    (
      row,
      columns,
      parsed,
      parse_ranges-whole fmt timestamp_micros schema line_filter first later row k keys parsed are m
            whole frames read_frame range ranges handle lines
            (fresh fmt timestamp_micros schema line_filter) read us (inl (refl, starts))
          ∙ ap (λ o. o >>= λ r. last_frame fmt timestamp_micros frames r.1) made,
      named ∙ sym are,
      even,
    )
