-- ===== src/Lazy/Parallel/Lines.antt =====
-- The lines of all frames of a worker go to its maker, one after another.
use polars_logfmt.Prelude.{
  true, List, [], ◌∷◌, ◌++◌, ◌≡◌, refl, ap, ◌∙◌, Option, none, some, arith, Option-cases, inl, inr,
  if◌then◌else◌,
}
use polars_logfmt.Text.{Bytes}
use polars_logfmt.Text.Utf8.{Utf8}
use polars_logfmt.Logfmt.Formats.{Formats}
use polars_logfmt.Logfmt.Integers.{ℤ}
use polars_logfmt.Logfmt.Scan.{◌>>=◌}
use polars_logfmt.Logfmt.Scan.Total.{handle-Reads}
use polars_logfmt.Logfmt.Value.{Schema}
use polars_logfmt.Logfmt.Rows.{Row, parse_logfmt_line}
use polars_logfmt.Logfmt.Rows.Laws.{parse-get}
use polars_logfmt.Lazy.Lines.{LineReader, LineFilter, split_lines, is_accepted}
use polars_logfmt.Lazy.Batch.Rows.{AreUtf8}
use polars_logfmt.Lazy.Frames.{FrameRange}
use polars_logfmt.Lazy.Frames.Read.{FrameRead}
use polars_logfmt.Lazy.Columns.{DataFrameMaker, push_line_to_column_mutable_array}
use polars_logfmt.Lazy.Columns.Finish.{build}
use polars_logfmt.Lazy.Columns.Finish.Grow.{push_line-Extends, >>=-eq-some}
use polars_logfmt.Lazy.Parallel.{
  Loop, first_row_at, learn_keys, give_keys, give_schema, take_line, frame_line,
}

-- The lines that a scan takes.
abbrev pub accepted : LineFilter → LineReader → List Bytes
accepted line_filter [] = []
accepted line_filter (line ∷ lines) =
    let rest : List Bytes = accepted line_filter lines in
    if is_accepted line_filter line then line ∷ rest else rest

-- The lines of a frame; a frame that is skipped has none.
abbrev pub lines_in : FrameRead → Option LineReader
lines_in FrameRead.failed = none
lines_in FrameRead.skipped = some []
lines_in (FrameRead.found len buf) = some (split_lines buf)

-- The lines of the frames that a handle reads, or `none` where a read fails.
unfoldable pub lines_read :
    {H : Type 0} → (FrameRange → H → H × FrameRead) → List FrameRange → H → Option LineReader
lines_read read_frame [] handle = some []
lines_read read_frame (range ∷ ranges) handle = lines_in (read_frame range handle).1 >>= λ front.
    lines_read read_frame ranges (read_frame range handle).0 >>= λ back. some (front ++ back)

pub lines_read-split :
    {H : Type 0} (read_frame : FrameRange → H → H × FrameRead) (range : FrameRange)
    (ranges : List FrameRange) (handle : H) (lines : LineReader)
    → lines_read read_frame (range ∷ ranges) handle ≡ some lines
    → (front : LineReader) × (back : LineReader) × (lines_in (read_frame range handle).1
        ≡ some front)
      × (lines_read read_frame ranges (read_frame range handle).0 ≡ some back)
      × (front ++ back ≡ lines)
unfolding lines_read
lines_read-split read_frame range ranges handle lines read =
    let (front, here, then_back) =
      >>=-eq-some (lines_in (read_frame range handle).1) _ lines read in
    let (back, there, joined) =
      >>=-eq-some (lines_read read_frame ranges (read_frame range handle).0) _ lines then_back in
    (front, back, here, there, ground (arith, joined))

pub accepted-append :
    (line_filter : LineFilter) (front back : LineReader)
    → accepted line_filter (front ++ back) ≡ accepted line_filter front ++ accepted line_filter back
accepted-append line_filter [] back = refl
accepted-append line_filter (line ∷ front) back =
    ground (arith, accepted-append line_filter front back)

pub AreUtf8-append :
    (front back : LineReader) → AreUtf8 (front ++ back) → AreUtf8 front × AreUtf8 back
AreUtf8-append [] back are = (tt, are)
AreUtf8-append (line ∷ front) back (u, are) =
    let (us, vs) = AreUtf8-append front back are in ((u, us), vs)

module _ (fmt : Formats) (timestamp_micros : fmt.DateTime → ℤ) (schema : Option Schema)
    (line_filter : LineFilter) where
  -- The state before the first line.
  abbrev pub fresh : Loop fmt timestamp_micros
  fresh = record {
    first_row = none;
    column_keys = [];
    df_maker = build fmt timestamp_micros schema;
  }

  parse-total :
      (line : Bytes) → Utf8 line → (row : Row fmt) × (parse_logfmt_line fmt line ≡ some row)
  unfolding parse_logfmt_line
  parse-total line u =
      let (calls, row, reading, returns, values) = parse-get fmt line none u in (row, returns)

  first_row_at-total :
      (line : Bytes) (l : Loop fmt timestamp_micros)
      → Utf8 line
      → (first_row : Option (Row fmt)) × (first_row_at fmt timestamp_micros schema line l
          ≡ some first_row)
  unfolding first_row_at
  first_row_at-total line l u =
      elim (Option-cases (first_row_at fmt timestamp_micros schema line l)) [
        | inr found ↦ found
        | inl missing ↦
            let (row, parsed) = parse-total line u in absurd (ground (arith, missing, parsed))
      ]

  module _ (k : Bytes) (keys : List Bytes) (used : Schema) where
    -- The state behind a line that was taken.
    pub record IsReady (l : Loop fmt timestamp_micros) : Type 0 where
      pub keys_known : l.column_keys ≡ k ∷ keys
      pub maker_keys : l.df_maker.column_keys ≡ k ∷ keys
      pub maker_schema : l.df_maker.schema ≡ some used

    learn_keys-known :
        (first_row : Option (Row fmt)) (column_keys : List Bytes)
        → column_keys ≡ k ∷ keys
        → learn_keys fmt timestamp_micros true first_row column_keys ≡ k ∷ keys
    learn_keys-known first_row column_keys known = ground (arith, known)

    give_keys-known :
        (column_keys maker_keys : List Bytes)
        → maker_keys ≡ k ∷ keys
        → give_keys fmt timestamp_micros true column_keys maker_keys ≡ maker_keys
    give_keys-known column_keys maker_keys known = ground (arith, known)

    give_schema-known :
        (first_row : Option (Row fmt)) (maker_schema : Option Schema)
        → maker_schema ≡ some used
        → give_schema fmt timestamp_micros first_row maker_schema ≡ maker_schema
    give_schema-known first_row (some known) h = refl
    give_schema-known first_row none h = cc

    -- A line that is taken then goes to the maker as it is.
    take_line-IsReady :
        (line : Bytes) (first_row : Option (Row fmt)) (l : Loop fmt timestamp_micros)
        (m : DataFrameMaker fmt timestamp_micros)
        → IsReady l
        → push_line_to_column_mutable_array fmt timestamp_micros line l.df_maker ≡ some m
        → take_line fmt timestamp_micros true line first_row l
          ≡ some (record { first_row = first_row; column_keys = k ∷ keys; df_maker = m })
    unfolding take_line
    take_line-IsReady line first_row l m ready pushed =
        let learned = learn_keys fmt timestamp_micros true first_row l.column_keys in
        let same_keys = give_keys-known learned l.df_maker.column_keys ready.maker_keys in
        let same_schema = give_schema-known first_row l.df_maker.schema ready.maker_schema in
        ap
          (λ ks.
            push_line_to_column_mutable_array fmt timestamp_micros line (record l.df_maker {
              column_keys = ks;
              schema = give_schema fmt timestamp_micros first_row l.df_maker.schema;
            })
            >>= λ m'. some (record { first_row = first_row; column_keys = learned; df_maker = m' }))
          same_keys
        ∙ ap
            (λ known.
              push_line_to_column_mutable_array fmt timestamp_micros line
                (record l.df_maker { schema = known })
              >>= λ m'.
                  some (record { first_row = first_row; column_keys = learned; df_maker = m' }))
            same_schema
        ∙ ap
            (λ o. o >>= λ m'.
              some (record { first_row = first_row; column_keys = learned; df_maker = m' }))
            pushed
        ∙ ap (λ ks. some (record { first_row = first_row; column_keys = ks; df_maker = m }))
            (learn_keys-known first_row l.column_keys ready.keys_known)

    pub push_line-keeps :
        (line : Bytes) (m m' : DataFrameMaker fmt timestamp_micros)
        → Utf8 line
        → push_line_to_column_mutable_array fmt timestamp_micros line m ≡ some m'
        → (m'.schema ≡ m.schema) × (m'.column_keys ≡ m.column_keys)
    push_line-keeps line m m' u pushed =
        let (calls, scanned, reading) = handle-Reads line u in
        let (same_schema, same_keys, extends, named) =
          push_line-Extends fmt timestamp_micros m m' line calls scanned pushed in
        (same_schema, same_keys)

    pub frame_line-IsReady :
        (line : Bytes) (l : Loop fmt timestamp_micros) (m : DataFrameMaker fmt timestamp_micros)
        → Utf8 line
        → is_accepted line_filter line ≡ true
        → IsReady l
        → push_line_to_column_mutable_array fmt timestamp_micros line l.df_maker ≡ some m
        → (l' : Loop fmt timestamp_micros) × (frame_line fmt timestamp_micros schema line_filter
              true line l
            ≡ some l')
          × IsReady l'
          × (l'.df_maker ≡ m)
    unfolding frame_line
    frame_line-IsReady line l m u is_taken ready pushed =
        let (first_row, found) = first_row_at-total line l u in
        let (same_schema, same_keys) = push_line-keeps line l.df_maker m u pushed in
        (
          record { first_row = first_row; column_keys = k ∷ keys; df_maker = m },
          rw is_taken (
              ap (λ o. o >>= λ r. take_line fmt timestamp_micros true line r l) found
              ∙ take_line-IsReady line first_row l m ready pushed),
          record {
            keys_known = refl;
            maker_keys = same_keys ∙ ready.maker_keys;
            maker_schema = same_schema ∙ ready.maker_schema;
          },
          refl,
        )
