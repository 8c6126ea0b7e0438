-- ===== src/Lazy/Scan.antt =====
-- `scan` of `impl AnonymousScan for LazyLogFmtReader` in polars-logfmt/src/lazy/lazy_logfmt_reader.rs: all
-- batches of a source as one frame.
pub mod Steps
pub mod Alike
pub mod Together
pub mod Whole
pub mod Capped
mod Tests
use polars_logfmt.Prelude.{
  ℕ, zero, suc, Bool, true, false, ◌&&◌, List, [], ◌∷◌, Option, none, some, ltb, leb, ◌==◌,
  if◌then◌else◌,
}
use polars_logfmt.Text.{Bytes, bytes_eq}
use polars_logfmt.Logfmt.Formats.{Formats}
use polars_logfmt.Logfmt.Value.{Schema}
use polars_logfmt.Lazy.Lines.{LineReader}
use polars_logfmt.Lazy.Reader.{LogFmtReaderState, DataFrames}

-- What the scan calls of a `DataFrame` beside the operations of a batch.
pub record Stacks (fmt : Formats) (frames : DataFrames fmt) : Type 0 where
  pub width : frames.DataFrame → ℕ
  pub get_column_names : frames.DataFrame → List Bytes
  pub vstack_mut : frames.DataFrame → frames.DataFrame → Option frames.DataFrame
  pub default_frame : frames.DataFrame

-- `acc_names == df_names`
abbrev pub names_eq : List Bytes → List Bytes → Bool
names_eq [] [] = true
names_eq [] (y ∷ ys) = false
names_eq (x ∷ xs) [] = false
names_eq (x ∷ xs) (y ∷ ys) = bytes_eq x y && names_eq xs ys

module _ (fmt : Formats) (frames : DataFrames fmt) (stacks : Stacks fmt frames) where
  -- How a scan ends: `unfinished` is the end of the fuel.
  pub data Scanned : Type 0 where
    done : frames.DataFrame → Scanned
    failed unfinished : Scanned

  -- `acc` with one more frame; `none` is an error.
  abbrev pub stacked : Option frames.DataFrame → frames.DataFrame → Option (Option frames.DataFrame)
  stacked none df = some (some df)
  stacked (some acc_df) df =
      if names_eq (stacks.get_column_names acc_df) (stacks.get_column_names df)
      then elim (stacks.vstack_mut acc_df df) [ none ↦ none | some both ↦ some (some both) ]
      else none

  abbrev pub has_rows : Option ℕ → Option frames.DataFrame → Bool
  has_rows none acc = false
  has_rows (some n_rows) none = false
  has_rows (some n_rows) (some df) = leb n_rows (frames.height df)

  -- From behind the loop.
  abbrev pub out_frame : Option frames.DataFrame → frames.DataFrame
  out_frame none = stacks.default_frame
  out_frame (some df) = df

  abbrev pub sliced : Option ℕ → frames.DataFrame → frames.DataFrame
  sliced none df = df
  sliced (some n_rows) df = if ltb n_rows (frames.height df) then frames.slice n_rows df else df

  module _ (n_rows : Option ℕ)
      (next : LogFmtReaderState → Option (LogFmtReaderState × Option frames.DataFrame)) where
    -- The loop, on one call of `wrrap_next_batch` for each unit of fuel.
    pub scan_loop : ℕ → LogFmtReaderState → Option frames.DataFrame → Scanned
    scan_loop zero state acc = unfinished
    scan_loop (suc fuel) state acc = elim (next state) [
      | none ↦ failed
      | some returned ↦
          let (state', frame) = returned in
          elim frame [
            | none ↦ done (sliced n_rows (out_frame acc))
            | some df ↦ elim (stacks.width df == 0) [
              | true ↦ scan_loop fuel state' acc
              | false ↦ elim (stacked acc df) [
                | none ↦ failed
                | some acc' ↦ elim (has_rows n_rows acc') [
                  | true ↦ done (sliced n_rows (out_frame acc'))
                  | false ↦ scan_loop fuel state' acc'
                ]
              ]
            ]
          ]
    ]

  abbrev fresh : Option LineReader → LogFmtReaderState
  fresh probe = record { reader = probe; offset = 0; finished = false }

  -- `infer` is what `infer_schema_from_source` returns, `clones` whether a fresh handle can be had, and
  -- `next` is `wrrap_next_batch` under the schema that is known.
  abbrev scan_from :
      ℕ
      → Option ℕ
      → Bool
      → (Schema → LogFmtReaderState → Option (LogFmtReaderState × Option frames.DataFrame))
      → Option LineReader
      → Option Schema
      → Scanned
  scan_from fuel n_rows clones next probe none = failed
  scan_from fuel n_rows clones next probe (some schema) =
      if clones then scan_loop n_rows (next schema) fuel (fresh probe) none else failed

  -- The schema, and the stream to go on from.
  abbrev probed :
      Option Schema
      → Option (Option Schema × Option LineReader)
      → Option LineReader
      → Option LineReader × Option Schema
  probed (some schema) infer left = (left, some schema)
  probed none none left = (left, none)
  probed none (some (schema, probe)) left = (probe, schema)

  -- The state of the reader itself loses its stream.
  unfoldable pub scan :
      ℕ
      → Option ℕ
      → Option Schema
      → Option (Option Schema × Option LineReader)
      → Bool
      → (Schema → LogFmtReaderState → Option (LogFmtReaderState × Option frames.DataFrame))
      → LogFmtReaderState
      → LogFmtReaderState × Scanned
  unfolding scan_loop
  scan fuel n_rows own_schema infer clones next state =
      let (probe, schema) = probed own_schema infer state.reader in
      (record state { reader = none }, scan_from fuel n_rows clones next probe schema)
