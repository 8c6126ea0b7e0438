-- ===== src/Lazy/Reader/Progress.antt =====
-- A scan by batches goes through the whole source.
use polars_logfmt.Prelude.{
  ℕ, zero, suc, ◌+◌, ◌<◌, ◌≤◌, Bool, true, false, inl, inr, List, [], ◌∷◌, ◌++◌, ◌≡◌, refl, sym, ap,
  ◌∙◌, Option, none, some, ◌==◌, length, length-append, arith, Bool-cases,
}
use polars_logfmt.Text.{Bytes}
use polars_logfmt.Logfmt.Formats.{Formats}
use polars_logfmt.Logfmt.Value.{Schema}
use polars_logfmt.Logfmt.Rows.{Row}
use polars_logfmt.Lazy.Lines.{LineReader, LineFilter}
use polars_logfmt.Lazy.Batch.{RowFilter, is_full}
use polars_logfmt.Lazy.Batch.Rows.{AreUtf8, Within, rows_of}
use polars_logfmt.Lazy.Columns.Finish.Ready.{AllDistinct}
use polars_logfmt.Lazy.Table.{Column, rows_to_dataframe_filled}
use polars_logfmt.Lazy.Table.Shape.{names, AreHigh, rows_to_dataframe_filled-shape}
use polars_logfmt.Lazy.Table.Keys.{rows_to_dataframe_filled-AllDistinct}
use polars_logfmt.Lazy.Workers.{concat}
use polars_logfmt.Logfmt.Scan.{◌>>=◌}
use polars_logfmt.Lazy.Reader.{
  LogFmtReaderState, DataFrames, filled_frame, is_some_zero, cut, Accumulated, accumulate,
  after_loop, wrrap_next_batch,
}
use polars_logfmt.Lazy.Reader.Accumulate.{at_start, IsNext, accumulate-IsNext}

-- Batches that are not empty and not larger than they may be.
abbrev pub AreBatches : {fmt : Formats} → Option ℕ → List (List (Row fmt)) → Type 0
AreBatches batch_size [] = Unit {0}
AreBatches batch_size (batch ∷ batches) =
    (0 < length batch) × Within batch_size (length batch) × AreBatches batch_size batches

-- How many rows a frame of columns of `n` cells shows: none, if there is no column.
abbrev pub shown {ℓ} : {A : Type ℓ} → List A → ℕ → ℕ
shown [] n = 0
shown (c ∷ columns) n = n

-- What Polars does in a scan without predicate and projection: columns of different names that are equally long
-- make a frame with as many rows, and a frame without columns has no rows.
pub record MakesFrames (fmt : Formats) (frames : DataFrames fmt) : Type 0 where
  pub made :
      (n : ℕ) (columns : List (Bytes × Column fmt frames.casts))
      → AllDistinct (names fmt frames.casts columns)
      → AreHigh fmt frames.casts n columns
      → (df : frames.DataFrame) × (frames.new_frame columns ≡ some df)
        × (frames.height df ≡ shown columns n)
  pub pushed : (df : frames.DataFrame) → frames.apply_pushdown df ≡ some df

shown_le {ℓ} : {A : Type ℓ} (columns : List A) (n : ℕ) → shown columns n ≤ n
shown_le [] n = omega arith
shown_le (c ∷ columns) n = omega arith

module _ (fmt : Formats) (frames : DataFrames fmt) where
  abbrev pub columns : List (Row fmt) → Schema → List (Bytes × Column fmt frames.casts)
  columns rows schema = rows_to_dataframe_filled fmt frames.casts rows (some schema)

  pub made-filled :
      (makes : MakesFrames fmt frames) (rows : List (Row fmt)) (schema : Schema)
      → (df : frames.DataFrame) × (filled_frame fmt frames rows schema ≡ some df)
        × (frames.height df ≡ shown (columns rows schema) (length rows))
        × (frames.height df ≤ length rows)
  made-filled makes rows schema =
      let (high, keys) = rows_to_dataframe_filled-shape fmt frames.casts rows (some schema) in
      let (df, is_new, measured) =
        makes.made (length rows) (columns rows schema)
          (rows_to_dataframe_filled-AllDistinct fmt frames.casts rows schema) high in
      (df, is_new, measured, omega (arith, measured, shown_le (columns rows schema) (length rows)))

  abbrev pub cons_frame :
      frames.DataFrame → Option (List frames.DataFrame) → Option (List frames.DataFrame)
  cons_frame df none = none
  cons_frame df (some dfs) = some (df ∷ dfs)

  -- The frames that `rows_to_dataframe_filled` makes of some batches.
  abbrev pub frames_of : Schema → List (List (Row fmt)) → Option (List frames.DataFrame)
  frames_of schema [] = some []
  frames_of schema (batch ∷ batches) =
      let rest = frames_of schema batches in
      filled_frame fmt frames batch schema >>= λ df. cons_frame df rest

  pub cut-height :
      (n : Option ℕ) (k : ℕ) (df : frames.DataFrame)
      → frames.height df ≤ k
      → Within n k
      → cut fmt frames n df ≡ df
  cut-height none k df le within = refl
  cut-height (some bs) k df le within = ground (arith, le, within)

pub is_full-nil :
    (batch_size : Option ℕ) → is_some_zero batch_size ≡ false → is_full batch_size 0 ≡ false
is_full-nil none h = refl
is_full-nil (some bs) h = ground (arith, h)

module _ (fmt : Formats) (frames : DataFrames fmt)
    (parallel_batch : LogFmtReaderState
      → Option (LogFmtReaderState × Option Schema × Option frames.DataFrame))
    (use_parallel : Bool) (schema : Schema) (line_filter : LineFilter) (row_filter : RowFilter fmt)
    (batch_size : Option ℕ) where
  -- The rows that a reader still gives.
  abbrev pub left : LineReader → List (Row fmt)
  left reader = rows_of fmt (some schema) line_filter row_filter reader

  -- `next_batch` of a scan without a slice.
  abbrev pub next_batch : LogFmtReaderState → Option (LogFmtReaderState × Option frames.DataFrame)
  next_batch =
      wrrap_next_batch fmt frames parallel_batch use_parallel none none none batch_size
        (some schema) line_filter row_filter false

  -- The state of a scan between two batches.
  abbrev pub scanning : LineReader → ℕ → LogFmtReaderState
  scanning reader offset = record { reader = some reader; offset = offset; finished = false }

  -- How a batch leaves the scan.
  pub data Next (reader : LineReader) (offset : ℕ) : Type 0 where
    ends :
        (state : LogFmtReaderState)
        → next_batch (scanning reader offset) ≡ some (state, none)
        → left reader ≡ []
        → Next reader offset
    goes :
        (rest : LineReader) (offset' : ℕ) (batch : List (Row fmt)) (df : frames.DataFrame)
        → next_batch (scanning reader offset) ≡ some (scanning rest offset', some df)
        → filled_frame fmt frames batch schema ≡ some df
        → batch ++ left rest ≡ left reader
        → 0 < length batch
        → Within batch_size (length batch)
        → AreUtf8 rest
        → Next reader offset

  -- What the batch makes of what was accumulated.
  unfoldable pub accumulated : LineReader → Option (Accumulated fmt)
  accumulated reader =
      accumulate fmt (suc (length reader)) batch_size (some schema) line_filter row_filter false
        (at_start fmt reader)

  next_batch-ended :
      (reader : LineReader) (offset : ℕ) (acc : Accumulated fmt)
      → accumulated reader ≡ some acc
      → acc.ended ≡ true
      → next_batch (scanning reader offset)
        ≡ some (
          record {
            reader = some acc.reader;
            offset = offset + acc.total_lines_read;
            finished = true;
          },
          none,
        )
  unfolding wrrap_next_batch accumulated
  next_batch-ended reader offset acc returns ended =
      ap (after_loop fmt frames none batch_size (some schema) (scanning reader offset)) returns
      ∙ rw (ended, after_loop) refl

  next_batch-goes :
      (makes : MakesFrames fmt frames) (reader : LineReader) (offset : ℕ) (acc : Accumulated fmt)
      (df : frames.DataFrame)
      → accumulated reader ≡ some acc
      → acc.ended ≡ false
      → filled_frame fmt frames acc.rows schema ≡ some df
      → frames.height df ≤ length acc.rows
      → Within batch_size (length acc.rows)
      → 0 < acc.total_lines_read
      → next_batch (scanning reader offset)
        ≡ some (scanning acc.reader (offset + acc.total_lines_read), some df)
  unfolding wrrap_next_batch accumulated
  next_batch-goes makes reader offset acc df returns ended filled le within some_lines =
      ap (after_loop fmt frames none batch_size (some schema) (scanning reader offset)) returns
      ∙ ground (
        arith,
        ended,
        filled,
        makes.pushed df,
        cut-height fmt frames batch_size (length acc.rows) df le within,
        some_lines,
      )

  pub nil_of_length : (rows : List (Row fmt)) → (length rows == 0) ≡ true → rows ≡ []
  nil_of_length [] h = refl
  nil_of_length (row ∷ rows) h = absurd (ground (arith, h))

  pub Next-of :
      (makes : MakesFrames fmt frames) (reader : LineReader) (offset : ℕ)
      → is_some_zero batch_size ≡ false
      → AreUtf8 reader
      → Next reader offset
  unfolding IsNext accumulated rows_of
  Next-of makes reader offset some_rows u =
      let (acc, returns, (rows, within, stopped, ended, lines_le, rest_u)) =
        accumulate-IsNext fmt (some schema) line_filter row_filter (length reader) batch_size reader
          u in
      let (df, filled, measured, le) = made-filled fmt frames makes acc.rows schema in
      elim (Bool-cases (length acc.rows == 0)) [
        | inl no_rows ↦
            let nil : acc.rows ≡ [] = nil_of_length acc.rows no_rows in
            let room : is_full batch_size (length acc.rows) ≡ false =
              ap (λ r. is_full batch_size (length r)) nil ∙ is_full-nil batch_size some_rows in
            let at_end : acc.reader ≡ [] = ground (arith, stopped, room) in
            ends _
              (next_batch-ended reader offset acc returns (ground (arith, ended, room, no_rows)))
              (sym rows ∙ ap (λ r. r ++ left acc.reader) nil ∙ ap left at_end)
        | inr has_rows ↦
            let some_lines : 0 < acc.total_lines_read = ground (arith, has_rows, lines_le) in
            goes acc.reader (offset + acc.total_lines_read) acc.rows df
              (next_batch-goes makes reader offset acc df returns (ground (arith, ended, has_rows))
                filled le within some_lines)
              filled rows (ground (arith, has_rows)) within rest_u
      ]

  -- The frames of a scan: `next_batch` until it gives none.
  unfoldable pub scan_batches : ℕ → LogFmtReaderState → Option (List frames.DataFrame)
  scan_batches zero state = none
  scan_batches (suc fuel) state = elim (next_batch state) [
    | none ↦ none
    | some returned ↦
        let (state', frame) = returned in
        elim frame [
          | none ↦ some []
          | some df ↦ cons_frame fmt frames df (scan_batches fuel state')
        ]
  ]

  pub scan_batches-left :
      (makes : MakesFrames fmt frames) (fuel : ℕ) (reader : LineReader) (offset : ℕ)
      → is_some_zero batch_size ≡ false
      → AreUtf8 reader
      → length (left reader) < fuel
      → (batches : List (List (Row fmt))) × (dfs : List frames.DataFrame) × (scan_batches fuel
            (scanning reader offset)
          ≡ some dfs)
        × (frames_of fmt frames schema batches ≡ some dfs)
        × (concat batches ≡ left reader)
        × AreBatches batch_size batches
  unfolding scan_batches
  scan_batches-left makes zero reader offset some_rows u enough = absurd (omega (arith, enough))
  scan_batches-left makes (suc fuel) reader offset some_rows u enough =
      elim (Next-of makes reader offset some_rows u) [
        | ends state none_left nil ↦ ([], [], rw (none_left, scan_batches) refl, refl, sym nil, tt)
        | goes rest offset' batch df returned filled rows some_in within rest_u ↦
            let shorter : length (left rest) < fuel =
              omega (arith, ap length rows, length-append batch (left rest), some_in, enough) in
            let (batches, dfs, scanned, made, same, are) =
              scan_batches-left makes fuel rest offset' some_rows rest_u shorter in
            (
              batch ∷ batches,
              df ∷ dfs,
              rw (returned, scan_batches, scanned) refl,
              rw (filled, made) refl,
              ap (λ r. batch ++ r) same ∙ rows,
              (some_in, within, are),
            )
      ]
