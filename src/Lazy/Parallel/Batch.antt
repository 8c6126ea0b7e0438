-- ===== src/Lazy/Parallel/Batch.antt =====
-- `_parallel_batch` of polars-logfmt/src/lazy/lazy_logfmt_reader.rs where the scan has no slice: the frames
-- of a file or of units are dealt out, each worker makes a frame, and the frames are put together.
use polars_logfmt.Prelude.{
  ℕ, zero, suc, ◌+◌, Bool, true, false, List, [], ◌∷◌, Option, none, some, ltb, if◌then◌else◌,
  length,
}
use polars_logfmt.Logfmt.Formats.{Formats}
use polars_logfmt.Logfmt.Integers.{ℤ}
use polars_logfmt.Logfmt.Value.{Schema}
use polars_logfmt.Vfs.{SeekableVfsFile}
use polars_logfmt.Lazy.Lines.{LineFilter}
use polars_logfmt.Lazy.Units.{UnitSource, UnitsReader, new}
use polars_logfmt.Lazy.Frames.{FrameRange, frames_from_seekable}
use polars_logfmt.Lazy.Frames.Read.{FrameRead}
use polars_logfmt.Lazy.Workers.{worker_slices}
use polars_logfmt.Lazy.Reader.{LogFmtReaderState}
use polars_logfmt.Lazy.Parallel.{Accumulates, parse_frames}

-- `UnitFrames::read_frame`
unfoldable pub read_unit_frame : UnitSource → FrameRange → FrameRead
read_unit_frame read_unit range = elim (read_unit range.idx) [
  | none ↦ FrameRead.failed
  | some unit ↦ elim unit [
    | none ↦ FrameRead.skipped
    | some bytes ↦ FrameRead.found (length bytes) bytes
  ]
]

-- The frames of `n` units, from the unit `idx` on.
unfoldable pub unit_frames : ℕ → ℕ → List FrameRange
unit_frames zero idx = []
unit_frames (suc n) idx =
    (record { idx = idx; start = 0; len = 0; is_zst = false; comp_start = 0; comp_len = 0 })
    ∷ unit_frames n (idx + 1)

-- The frames of a file, from the handle that probes it, with that handle behind; `none` where there is no
-- file, or no clone of its handle, or no frames.
abbrev pub framed_file : {S : Type 0} → SeekableVfsFile S → Option S → Option (List FrameRange × S)
framed_file file none = none
framed_file file (some probe) =
    let (probe', frames) = frames_from_seekable file probe in
    elim frames [ none ↦ none | some ranges ↦ some (ranges, probe') ]

-- The frames of a `UnitSource` that counts its units, with the reader that probes them.
abbrev pub framed_units : Option ℕ → Option (List FrameRange × UnitsReader)
framed_units none = none
framed_units (some count) = some (unit_frames count 0, new)

module _ (fmt : Formats) (timestamp_micros : fmt.DateTime → ℤ)
    (frames : Accumulates fmt timestamp_micros) where
  -- What a worker returns; a panic of it is `failed` too, and ends the scan.
  pub data Worked : Type 0 where
    made : frames.DataFrame → Worked
    not_cloned failed : Worked

  -- `PolarsResult<Vec<DataFrame>>`
  pub data Collected : Type 0 where
    all : List frames.DataFrame → Collected
    not_cloned failed : Collected

  -- Frames without rows are left out.
  abbrev pub with_frame : frames.DataFrame → Collected → Collected
  with_frame df (Collected.all dfs) =
      Collected.all (if ltb 0 (frames.height df) then df ∷ dfs else dfs)
  with_frame df Collected.not_cloned = Collected.not_cloned
  with_frame df Collected.failed = Collected.failed

  -- `collect`: of several errors the first in the order of the workers, where rayon may keep another.
  unfoldable pub collected : List Worked → Collected
  collected [] = Collected.all []
  collected (Worked.made df ∷ results) = with_frame df (collected results)
  collected (Worked.not_cloned ∷ results) = Collected.not_cloned
  collected (Worked.failed ∷ results) = Collected.failed

  -- The state, the schema that is left, and the frame, if there is one; `none` is an error.
  abbrev pub Returned : Type 0
  Returned = Option (LogFmtReaderState × Option Schema × Option frames.DataFrame)

  abbrev pub finished : LogFmtReaderState → Option Schema → Option frames.DataFrame → Returned
  finished state schema none = some (state, schema, none)
  finished state schema (some df) = some (record state { finished = true }, schema, some df)

  abbrev pub accumulated : LogFmtReaderState → Option Schema → Collected → Returned
  accumulated state schema (Collected.all []) = some (state, schema, none)
  accumulated state schema (Collected.all (df ∷ dfs)) =
      finished state schema (frames.accumulate_dataframes_vertical (df ∷ dfs))
  accumulated state schema Collected.not_cloned = some (state, schema, none)
  accumulated state schema Collected.failed = none

  -- `*schema`, from what `predict_schema_from_first_line_handle` returns, if it is asked.
  abbrev pub predicted : Option Schema → Option (Option Schema) → Option (Option Schema)
  predicted (some schema) predict = some (some schema)
  predicted none predict = predict

  module _ {H : Type 0} (read_frame : FrameRange → H → H × FrameRead) (clone_handle : ℕ → Option H)
      (line_filter : LineFilter) (aligned_cols_cnt : Bool) where
    -- Worker `w` on its chunk.
    unfoldable pub worked : Option Schema → ℕ → List FrameRange → Worked
    worked schema w ranges = elim (clone_handle w) [
      | none ↦ Worked.not_cloned
      | some handle ↦
          elim (parse_frames fmt timestamp_micros frames read_frame schema line_filter
            aligned_cols_cnt ranges handle) [ none ↦ Worked.failed | some df ↦ Worked.made df ]
    ]

    unfoldable pub worked_from : Option Schema → ℕ → List (List FrameRange) → List Worked
    worked_from schema w [] = []
    worked_from schema w (ranges ∷ slices) =
        worked schema w ranges ∷ worked_from schema (w + 1) slices

    abbrev pub dealt :
        LogFmtReaderState → Option Schema → Option (List (List FrameRange)) → Returned
    dealt state schema none = some (state, schema, none)
    dealt state schema (some slices) =
        accumulated state schema (collected (worked_from schema 0 slices))

    abbrev pub with_schema :
        ℕ → List FrameRange → LogFmtReaderState → Option (Option Schema) → Returned
    with_schema max_inflight ranges state none = none
    with_schema max_inflight ranges state (some schema) =
        dealt state schema (worker_slices max_inflight ranges)

    -- `predict` is `predict_schema_from_first_line_handle` on the probe as the frames left it.
    unfoldable pub parallel_batch :
        {P : Type 0}
        → (P → Option (Option Schema))
        → ℕ
        → Option (List FrameRange × P)
        → Option Schema
        → LogFmtReaderState
        → Returned
    unfolding collected worked worked_from
    parallel_batch predict max_inflight none schema state = some (state, schema, none)
    parallel_batch predict max_inflight (some (ranges, probe)) schema state =
        with_schema max_inflight ranges state (predicted schema (predict probe))
