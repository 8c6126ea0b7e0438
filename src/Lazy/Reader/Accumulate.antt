-- ===== src/Lazy/Reader/Accumulate.antt =====
-- One batch of the single-threaded scan is the next rows of the reader.
use polars_logfmt.Prelude.{
  ℕ, suc, ◌≤◌, true, false, not, ◌&&◌, ◌⊎◌, inl, inr, [], ◌++◌, ◌≡◌, refl, Option, none, some, ◌==◌,
  length, arith, Bool-cases,
}
use polars_logfmt.Logfmt.Formats.{Formats}
use polars_logfmt.Logfmt.Value.{Schema}
use polars_logfmt.Lazy.Lines.{LineReader, LineFilter}
use polars_logfmt.Lazy.Batch.{RowFilter, is_full}
use polars_logfmt.Lazy.Batch.Rows.{AreUtf8, Within, rows_of, parse_batch_from_reader-rows}
use polars_logfmt.Lazy.Reader.{remaining, is_some_zero, Accumulated, append_batch, accumulate}

-- Nothing is accumulated when the loop begins.
remaining-zero : (batch_size : Option ℕ) → remaining batch_size 0 ≡ batch_size
remaining-zero none = refl
remaining-zero (some bs) = ground arith

is_full-zero :
    (batch_size : Option ℕ) → is_some_zero batch_size ≡ true → is_full batch_size 0 ≡ true
is_full-zero none h = cc
is_full-zero (some bs) h = ground (arith, h)

Within-zero : (batch_size : Option ℕ) → Within batch_size 0
Within-zero none = tt
Within-zero (some bs) = omega arith

abbrev pub at_start : (fmt : Formats) → LineReader → Accumulated fmt
at_start fmt reader = record {
  rows = [];
  first_row = none;
  total_lines_read = 0;
  reader = reader;
  ended = false;
}

module _ (fmt : Formats) (schema : Option Schema) (line_filter : LineFilter)
    (row_filter : RowFilter fmt) where
  -- The loop accumulates the next rows of the reader; it is full, or has read the reader to its end, and
  -- reports the end if there was no row.
  unfoldable pub IsNext : Option ℕ → LineReader → Accumulated fmt → Type 0
  IsNext batch_size reader acc =
      (acc.rows ++ rows_of fmt schema line_filter row_filter acc.reader
        ≡ rows_of fmt schema line_filter row_filter reader)
      × Within batch_size (length acc.rows)
      × ((is_full batch_size (length acc.rows) ≡ true) ⊎ (acc.reader ≡ []))
      × (acc.ended ≡ (not (is_full batch_size (length acc.rows)) && (length acc.rows == 0)))
      × (length acc.rows ≤ acc.total_lines_read)
      × AreUtf8 acc.reader

  pub accumulate-IsNext :
      (fuel : ℕ) (batch_size : Option ℕ) (reader : LineReader)
      → AreUtf8 reader
      → (acc : Accumulated fmt) × (accumulate fmt
            (suc fuel)
            batch_size
            schema
            line_filter
            row_filter
            false
            (at_start fmt reader)
          ≡ some acc)
        × IsNext batch_size reader acc
  unfolding accumulate append_batch IsNext
  accumulate-IsNext fuel batch_size reader u = elim (Bool-cases (is_some_zero batch_size)) [
    | inl zero_rows ↦
        let full = is_full-zero batch_size zero_rows in
        (
          at_start fmt reader,
          ground (arith, zero_rows, remaining-zero batch_size),
          (refl, Within-zero batch_size, inl full, ground (arith, full), omega arith, u),
        )
    | inr some_rows ↦
        let (b, eof, rest, returns, rows, within, lines_le, ends, at_end, rest_u) =
          parse_batch_from_reader-rows fmt reader batch_size schema line_filter row_filter u in
        (
          record (append_batch fmt (at_start fmt reader) b rest) {
            ended = eof && (length b.rows == 0);
          },
          ground (arith, some_rows, remaining-zero batch_size, returns, ends),
          (
            rows,
            within,
            ground (arith, ends, at_end),
            ground (arith, ends),
            omega (arith, lines_le),
            rest_u,
          ),
        )
  ]
