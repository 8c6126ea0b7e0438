-- ===== src/Lazy/Scan/Whole.antt =====
-- A scan without a slice has all the rows of its source.
use polars_logfmt.Prelude.{ℕ, Bool, List, [], ◌∷◌, ◌≡◌, Option, none, some}
use polars_logfmt.Logfmt.Formats.{Formats}
use polars_logfmt.Logfmt.Value.{Schema}
use polars_logfmt.Lazy.Lines.{LineFilter}
use polars_logfmt.Lazy.Batch.{RowFilter}
use polars_logfmt.Lazy.Reader.{LogFmtReaderState, DataFrames}
use polars_logfmt.Lazy.Reader.Progress.{next_batch, scan_batches}
use polars_logfmt.Lazy.Scan.{Stacks, Scanned, done, failed, out_frame}

module _ (fmt : Formats) (frames : DataFrames fmt) (stacks : Stacks fmt frames) where
  -- How a scan ends with frames that go together, or do not.
  abbrev pub ended : Option (Option frames.DataFrame) → Scanned fmt frames stacks
  ended none = failed
  ended (some acc) = done (out_frame fmt frames stacks acc)

  module _
      (parallel_batch : LogFmtReaderState
        → Option (LogFmtReaderState × Option Schema × Option frames.DataFrame))
      (use_parallel : Bool) (schema : Schema) (line_filter : LineFilter)
      (row_filter : RowFilter fmt) (batch_size : Option ℕ) where
    abbrev batches_from : ℕ → LogFmtReaderState → Option (List frames.DataFrame)
    batches_from =
        scan_batches fmt frames parallel_batch use_parallel schema line_filter row_filter batch_size

    abbrev next : LogFmtReaderState → Option (LogFmtReaderState × Option frames.DataFrame)
    next =
        next_batch fmt frames parallel_batch use_parallel schema line_filter row_filter batch_size

    -- What the next batch is, of a scan that ends.
    data First (fuel : ℕ) (state : LogFmtReaderState) (dfs : List frames.DataFrame) : Type 0 where
      last :
          (state' : LogFmtReaderState)
          → next state ≡ some (state', none)
          → dfs ≡ []
          → First fuel state dfs
      one :
          (state' : LogFmtReaderState) (df : frames.DataFrame) (dfs' : List frames.DataFrame)
          → next state ≡ some (state', some df)
          → batches_from fuel state' ≡ some dfs'
          → dfs ≡ df ∷ dfs'
          → First fuel state dfs
