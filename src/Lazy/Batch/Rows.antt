-- ===== src/Lazy/Batch/Rows.antt =====
-- The rows of a batch are the next rows of the source.
use polars_logfmt.Prelude.{
  ℕ, ◌+◌, ◌≤◌, Bool, true, false, not, List, [], ◌∷◌, ◌++◌, ◌≡◌, refl, ap, ◌∙◌, Option, none, some,
  if◌then◌else◌, length, length-append, append_assoc, append-nil, arith, Bool-cases, inl, inr,
}
use polars_logfmt.Text.{Bytes}
use polars_logfmt.Text.Utf8.{Utf8}
use polars_logfmt.Logfmt.Formats.{Formats}
use polars_logfmt.Logfmt.Value.{Schema}
use polars_logfmt.Logfmt.Rows.{Row, parse_logfmt_line}
use polars_logfmt.Logfmt.Rows.Laws.{parse-get}
use polars_logfmt.Lazy.Lines.{LineReader, LineFilter, is_accepted, checked}
use polars_logfmt.Lazy.Batch.{
  RowFilter, keeps, Batch, is_full, parse_row, push_row, take_parsed, batch_line, parse_batch,
  parse_batch_from_reader,
}

abbrev pub AreUtf8 : LineReader → Type 0
AreUtf8 [] = Unit {0}
AreUtf8 (line ∷ lines) = Utf8 line × AreUtf8 lines

abbrev pub Within : Option ℕ → ℕ → Type 0
Within none rows = Unit {0}
Within (some bs) rows = rows ≤ bs

parse_row-total :
    (fmt : Formats) (schema : Option Schema) (line : Bytes)
    → Utf8 line
    → (row : Row fmt) × (parse_row fmt schema line ≡ some row)
unfolding parse_row parse_logfmt_line
parse_row-total fmt none line u =
    let (calls, row, reading, returns, values) = parse-get fmt line none u in (row, returns)
parse_row-total fmt (some schema) line u =
    let (calls, row, reading, returns, values) = parse-get fmt line (some schema) u in
    (row, returns)

Within-zero : (batch_size : Option ℕ) → Within batch_size 0
Within-zero none = tt
Within-zero (some bs) = omega arith

module _ (fmt : Formats) (schema : Option Schema) (line_filter : LineFilter)
    (row_filter : RowFilter fmt) where
  abbrev row_or_none : Option (Row fmt) → List (Row fmt)
  row_or_none none = []
  row_or_none (some row) = if keeps fmt row_filter row then row ∷ [] else []

  -- The rows that a line gives: one, if the line is accepted and its row passes the filter.
  pub line_rows : Bytes → List (Row fmt)
  line_rows line =
      if is_accepted line_filter line then row_or_none (parse_row fmt schema line) else []

  unfoldable pub rows_of : LineReader → List (Row fmt)
  rows_of [] = []
  rows_of (line ∷ lines) = line_rows line ++ rows_of lines

  batch_line-rows :
      (line : Bytes) (b : Batch fmt)
      → Utf8 line
      → (b' : Batch fmt) × (checked line (batch_line fmt schema line_filter row_filter false line b)
          ≡ some b')
        × (b'.rows ≡ b.rows ++ line_rows line)
        × (length b'.rows ≤ length b.rows + 1)
        × (length b'.rows + b.lines_read ≤ b'.lines_read + length b.rows)
  unfolding batch_line take_parsed push_row line_rows
  batch_line-rows line b u =
      let (row, parsed) = parse_row-total fmt schema line u in
      elim (Bool-cases (is_accepted line_filter line)) [
        | inr skipped ↦ (
          b,
          ground (arith, skipped, u),
          ground (arith, skipped, append-nil b.rows),
          omega arith,
          omega arith,
        )
        | inl accepted ↦
            let b' : Batch fmt = push_row fmt schema row_filter false row b in
            (
              b',
              ground (arith, accepted, u, parsed),
              ground (arith, accepted, parsed, append-nil b.rows),
              ground (arith, length-append b.rows (row ∷ [])),
              ground (arith, length-append b.rows (row ∷ [])),
            )
      ]

  -- What a batch, its end and the rest of the reader owe to the batch and the lines before.
  abbrev Continues : Option ℕ → LineReader → Batch fmt → Batch fmt → Bool → LineReader → Type 0
  Continues batch_size lines b b' eof rest =
      (b'.rows ++ rows_of rest ≡ b.rows ++ rows_of lines)
      × Within batch_size (length b'.rows)
      × (length b'.rows + b.lines_read ≤ b'.lines_read + length b.rows)
      × (eof ≡ not (is_full batch_size (length b'.rows)))
      × (eof ≡ true → rest ≡ [])
      × AreUtf8 rest

  Within-next :
      (batch_size : Option ℕ) (n m : ℕ)
      → is_full batch_size n ≡ false
      → m ≤ n + 1
      → Within batch_size m
  Within-next none n m room le = tt
  Within-next (some bs) n m room le = ground (arith, room, le)

  parse_batch-Continues :
      (batch_size : Option ℕ) (lines : LineReader) (b : Batch fmt)
      → AreUtf8 lines
      → Within batch_size (length b.rows)
      → (b' : Batch fmt) × (eof : Bool) × (rest : LineReader) × (parse_batch fmt batch_size schema
            line_filter row_filter false lines b
          ≡ some (b', eof, rest))
        × Continues batch_size lines b b' eof rest
  unfolding parse_batch rows_of
  parse_batch-Continues batch_size [] b u within = (
    b,
    not (is_full batch_size (length b.rows)),
    [],
    refl,
    (refl, within, omega arith, refl, (λ e. refl), tt),
  )
  parse_batch-Continues batch_size (line ∷ lines) b (u, us) within =
      elim (Bool-cases (is_full batch_size (length b.rows))) [
        | inl full ↦ (
          b,
          false,
          line ∷ lines,
          ground (arith, full),
          (refl, within, omega arith, ground (arith, full), (λ e. cc), (u, us)),
        )
        | inr room ↦
            let (b1, goes, is_rows, le_rows, le_lines) = batch_line-rows line b u in
            let (b', eof, rest, returns, (rows, within', lines_le, ends, at_end, rest_u)) =
              parse_batch-Continues batch_size lines b1 us
                (Within-next batch_size (length b.rows) (length b1.rows) room le_rows) in
            (
              b',
              eof,
              rest,
              ground (arith, room, goes, returns),
              (
                rows
                    ∙ ap (λ r. r ++ rows_of lines) is_rows
                    ∙ append_assoc b.rows (line_rows line) (rows_of lines),
                within',
                omega (arith, lines_le, le_lines),
                ends,
                at_end,
                rest_u,
              ),
            )
      ]

-- On a reader whose lines are valid UTF-8, a batch without aligned columns is returned. Its rows before
-- those that the rest of the reader gives are the rows of the reader, so that no row is lost or read
-- twice from batch to batch; it has at most `batch_size` rows and at least as many lines as rows; and
-- the end of the source is reported just when the batch is not full, with nothing left to read.
pub parse_batch_from_reader-rows :
    (fmt : Formats) (reader : LineReader) (batch_size : Option ℕ) (schema : Option Schema)
    (line_filter : LineFilter) (row_filter : RowFilter fmt)
    → AreUtf8 reader
    → (b : Batch fmt) × (eof : Bool) × (rest : LineReader) × (parse_batch_from_reader fmt reader
          batch_size schema line_filter row_filter false
        ≡ some (b, eof, rest))
      × (b.rows ++ rows_of fmt schema line_filter row_filter rest
          ≡ rows_of fmt schema line_filter row_filter reader)
      × Within batch_size (length b.rows)
      × (length b.rows ≤ b.lines_read)
      × (eof ≡ not (is_full batch_size (length b.rows)))
      × (eof ≡ true → rest ≡ [])
      × AreUtf8 rest
unfolding parse_batch_from_reader
parse_batch_from_reader-rows fmt reader batch_size schema line_filter row_filter u =
    let (b, eof, rest, returns, (rows, within, lines_le, ends, at_end, rest_u)) =
      parse_batch-Continues fmt schema line_filter row_filter batch_size reader
        (record { rows = []; first_row = none; lines_read = 0; column_keys = [] }) u
        (Within-zero batch_size) in
    (b, eof, rest, returns, rows, within, omega (arith, lines_le), ends, at_end, rest_u)
