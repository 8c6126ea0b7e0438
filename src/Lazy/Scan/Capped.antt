-- ===== src/Lazy/Scan/Capped.antt =====
-- A scan with a slice has the first rows of its source.
use polars_logfmt.Prelude.{
  ℕ, ◌≤◌, ◌<◌, Bool, true, false, List, [], ◌++◌, ◌⊎◌, ◌≡◌, Option, none, some, leb, length,
}
use polars_logfmt.Logfmt.Formats.{Formats}
use polars_logfmt.Logfmt.Value.{Schema}
use polars_logfmt.Logfmt.Rows.{Row}
use polars_logfmt.Lazy.Lines.{LineReader, LineFilter}
use polars_logfmt.Lazy.Batch.{RowFilter}
use polars_logfmt.Lazy.Batch.Rows.{AreUtf8, rows_of}
use polars_logfmt.Lazy.Reader.{
  LogFmtReaderState, DataFrames, filled_frame, Accumulated, wrrap_next_batch,
}
use polars_logfmt.Lazy.Reader.Progress.{MakesFrames, shown, columns, accumulated}
use polars_logfmt.Lazy.Scan.{Stacks}

-- The frame that is made of the rows, or the empty frame, if they make no column.
abbrev pub IsFrameOf :
    {fmt : Formats} {frames : DataFrames fmt}
    → Stacks fmt frames
    → Schema
    → List (Row fmt)
    → frames.DataFrame
    → Type 0
IsFrameOf {fmt} {frames} stacks schema rows out =
    (filled_frame fmt frames rows schema ≡ some out)
    ⊎ ((columns fmt frames rows schema ≡ []) × (out ≡ stacks.default_frame))

module _ (fmt : Formats) (frames : DataFrames fmt) (makes : MakesFrames fmt frames)
    (parallel_batch : LogFmtReaderState
      → Option (LogFmtReaderState × Option Schema × Option frames.DataFrame))
    (own_batch_size : Option ℕ) (schema : Schema) (line_filter : LineFilter)
    (row_filter : RowFilter fmt) (n : ℕ) where
  -- The rows that a reader still gives.
  abbrev left : LineReader → List (Row fmt)
  left reader = rows_of fmt (some schema) line_filter row_filter reader

  abbrev pub next : LogFmtReaderState → Option (LogFmtReaderState × Option frames.DataFrame)
  next =
      wrrap_next_batch fmt frames parallel_batch true none none (some n) own_batch_size
        (some schema) line_filter row_filter false

  abbrev at : LineReader → ℕ → Bool → LogFmtReaderState
  at reader offset finished = record { reader = some reader; offset = offset; finished = finished }

  abbrev batch_acc : LineReader → Option (Accumulated fmt)
  batch_acc reader =
      accumulated fmt frames parallel_batch true schema line_filter row_filter (some n) reader

  data Next (reader : LineReader) (offset : ℕ) : Type 0 where
    ends :
        (state : LogFmtReaderState)
        → next (at reader offset false) ≡ some (state, none)
        → left reader ≡ []
        → Next reader offset
    goes :
        (rest : LineReader) (offset' : ℕ) (batch : List (Row fmt)) (df : frames.DataFrame)
        → next (at reader offset false) ≡ some (at rest offset' (leb n (length batch)), some df)
        → filled_frame fmt frames batch schema ≡ some df
        → frames.height df ≡ shown (columns fmt frames batch schema) (length batch)
        → batch ++ left rest ≡ left reader
        → 0 < length batch
        → length batch ≤ n
        → (leb n (length batch) ≡ false → rest ≡ [])
        → AreUtf8 rest
        → Next reader offset
