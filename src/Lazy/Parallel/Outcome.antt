-- ===== src/Lazy/Parallel/Outcome.antt =====
-- What a parallel batch leaves behind.
use polars_logfmt.Prelude.{ℕ, Bool, true, List, [], ◌∷◌, ◌≡◌, Option, none, some, ◌∙◌}
use polars_logfmt.Logfmt.Formats.{Formats}
use polars_logfmt.Logfmt.Integers.{ℤ}
use polars_logfmt.Logfmt.Value.{Schema}
use polars_logfmt.Lazy.Lines.{LineFilter}
use polars_logfmt.Lazy.Frames.{FrameRange}
use polars_logfmt.Lazy.Frames.Read.{FrameRead}
use polars_logfmt.Lazy.Workers.{worker_slices}
use polars_logfmt.Lazy.Reader.{LogFmtReaderState}
use polars_logfmt.Lazy.Parallel.{Accumulates}
use polars_logfmt.Lazy.Parallel.Batch.{
  Collected, Returned, finished, accumulated, collected, worked_from, dealt, with_schema,
  parallel_batch,
}

module _ (fmt : Formats) (timestamp_micros : fmt.DateTime → ℤ)
    (frames : Accumulates fmt timestamp_micros) where
  -- With a frame the scan is finished; without one nothing is changed.
  abbrev pub Leaves : LogFmtReaderState → LogFmtReaderState → Option frames.DataFrame → Type 0
  Leaves state state' none = state' ≡ state
  Leaves state state' (some df) = state' ≡ record state { finished = true }

  abbrev Left :
      LogFmtReaderState
      → LogFmtReaderState
      → Option Schema
      → Option Schema
      → Option frames.DataFrame
      → Type 0
  Left state state' schema schema' frame = Leaves state state' frame × (schema' ≡ schema)

  none-Left :
      (state state' : LogFmtReaderState) (schema schema' : Option Schema)
      (frame : Option frames.DataFrame)
      → ◌≡◌ {A = Returned fmt timestamp_micros frames}
          (some (state, schema, none))
          (some (state', schema', frame))
      → Left state state' schema schema' frame
  none-Left state state' schema schema' none h = (cc (h), cc (h))
  none-Left state state' schema schema' (some df) h = cc

  some-Left :
      (state state' : LogFmtReaderState) (schema schema' : Option Schema) (df : frames.DataFrame)
      (frame : Option frames.DataFrame)
      → ◌≡◌ {A = Returned fmt timestamp_micros frames}
          (some (record state { finished = true }, schema, some df))
          (some (state', schema', frame))
      → Left state state' schema schema' frame
  some-Left state state' schema schema' df none h = cc
  some-Left state state' schema schema' df (some df') h = (cc (h), cc (h))

  finished-Left :
      (state state' : LogFmtReaderState) (schema schema' : Option Schema)
      (made frame : Option frames.DataFrame)
      → finished fmt timestamp_micros frames state schema made ≡ some (state', schema', frame)
      → Left state state' schema schema' frame
  finished-Left state state' schema schema' none frame h =
      none-Left state state' schema schema' frame h
  finished-Left state state' schema schema' (some df) frame h =
      some-Left state state' schema schema' df frame h

  accumulated-Left :
      (state state' : LogFmtReaderState) (schema schema' : Option Schema)
      (frame : Option frames.DataFrame) (results : Collected fmt timestamp_micros frames)
      → accumulated fmt timestamp_micros frames state schema results ≡ some (state', schema', frame)
      → Left state state' schema schema' frame
  accumulated-Left state state' schema schema' frame (Collected.all []) h =
      none-Left state state' schema schema' frame h
  accumulated-Left state state' schema schema' frame (Collected.all (df ∷ dfs)) h =
      finished-Left state state' schema schema' (frames.accumulate_dataframes_vertical (df ∷ dfs))
        frame h
  accumulated-Left state state' schema schema' frame Collected.not_cloned h =
      none-Left state state' schema schema' frame h
  accumulated-Left state state' schema schema' frame Collected.failed h = cc

  module _ {H : Type 0} (read_frame : FrameRange → H → H × FrameRead) (clone_handle : ℕ → Option H)
      (line_filter : LineFilter) (aligned_cols_cnt : Bool) where
    dealt-Left :
        (state state' : LogFmtReaderState) (schema schema' : Option Schema)
        (frame : Option frames.DataFrame) (slices : Option (List (List FrameRange)))
        → dealt fmt timestamp_micros frames read_frame clone_handle line_filter aligned_cols_cnt
            state schema slices
          ≡ some (state', schema', frame)
        → Left state state' schema schema' frame
    dealt-Left state state' schema schema' frame none h =
        none-Left state state' schema schema' frame h
    dealt-Left state state' schema schema' frame (some slices) h =
        accumulated-Left state state' schema schema' frame
          (collected fmt timestamp_micros frames (
            worked_from fmt timestamp_micros frames read_frame clone_handle line_filter
              aligned_cols_cnt schema 0 slices))
          h

    -- A parallel batch that returns without a frame leaves the state of the reader as it was, so that the
    -- scan with one thread goes on from there; one that returns a frame finishes the scan, and changes
    -- nothing else. The schema that it leaves is the one that was known, if one was.
    pub parallel_batch-Leaves :
        {P : Type 0} (predict : P → Option (Option Schema)) (max_inflight : ℕ)
        (framed : Option (List FrameRange × P)) (schema schema' : Option Schema)
        (state state' : LogFmtReaderState) (frame : Option frames.DataFrame)
        → parallel_batch fmt timestamp_micros frames read_frame clone_handle line_filter
            aligned_cols_cnt predict max_inflight framed schema state
          ≡ some (state', schema', frame)
        → Leaves state state' frame
          × ((known : Schema) → schema ≡ some known → schema' ≡ some known)
    unfolding parallel_batch
    parallel_batch-Leaves predict max_inflight none schema schema' state state' frame h =
        let (left, same) = none-Left state state' schema schema' frame h in
        (left, λ known is_known. same ∙ is_known)
    parallel_batch-Leaves predict max_inflight (some (ranges, probe)) (some s) schema' state state'
          frame h =
        let (left, same) =
          dealt-Left state state' (some s) schema' frame (worker_slices max_inflight ranges) h in
        (left, λ known is_known. same ∙ is_known)
    parallel_batch-Leaves predict max_inflight (some (ranges, probe)) none schema' state state'
          frame h =
        go (predict probe) h
      where
        go :
            (found : Option (Option Schema))
            → with_schema fmt timestamp_micros frames read_frame clone_handle line_filter
                aligned_cols_cnt max_inflight ranges state found
              ≡ some (state', schema', frame)
            → Leaves state state' frame
              × ((known : Schema) → none ≡ some known → schema' ≡ some known)
        go none h' = cc
        go (some s) h' =
            let (left, same) =
              dealt-Left state state' s schema' frame (worker_slices max_inflight ranges) h' in
            (left, λ known is_known. cc)
