-- ===== src/Lazy/Parallel/First.antt =====
-- The first line that a worker takes gives its maker the keys and the schema.
use polars_logfmt.Prelude.{true, List, [], ◌∷◌, ◌≡◌, refl, ap, ◌∙◌, Option, none, some, arith}
use polars_logfmt.Text.{Bytes}
use polars_logfmt.Logfmt.Formats.{Formats}
use polars_logfmt.Logfmt.Integers.{ℤ}
use polars_logfmt.Logfmt.Scan.{◌>>=◌}
use polars_logfmt.Logfmt.Value.{Schema}
use polars_logfmt.Logfmt.Rows.{Row, parse_logfmt_line}
use polars_logfmt.Lazy.Lines.{LineFilter, is_accepted}
use polars_logfmt.Lazy.Infer.{infer_schema_from_row}
use polars_logfmt.Lazy.Columns.{DataFrameMaker, push_line_to_column_mutable_array}
use polars_logfmt.Lazy.Columns.Finish.{build}
use polars_logfmt.Lazy.Parallel.{
  Loop, sorted_keys, first_row_at, give_keys, give_schema, take_line, frame_line,
}
use polars_logfmt.Lazy.Parallel.Lines.{fresh, IsReady}

-- The schema that a worker types its columns by: the one that is known, or that of its first row.
abbrev pub used_schema : (fmt : Formats) → Option Schema → Row fmt → Schema
used_schema fmt (some schema) row = schema
used_schema fmt none row = infer_schema_from_row fmt row

module _ (fmt : Formats) (timestamp_micros : fmt.DateTime → ℤ) (schema : Option Schema)
    (line_filter : LineFilter) (first : Bytes) (row : Row fmt) (k : Bytes) (keys : List Bytes)
    (parsed : parse_logfmt_line fmt first ≡ some row)
    (are : sorted_keys fmt timestamp_micros row ≡ k ∷ keys) where
  abbrev pub used : Schema
  used = used_schema fmt schema row

  abbrev pub start : DataFrameMaker fmt timestamp_micros
  start = record (build fmt timestamp_micros (some used)) { column_keys = k ∷ keys }

  used-given : give_schema fmt timestamp_micros (some row) schema ≡ some used
  used-given = go schema
    where
      go :
          (s : Option Schema)
          → give_schema fmt timestamp_micros (some row) s ≡ some (used_schema fmt s row)
      go (some s) = refl
      go none = refl

  keys-given : give_keys fmt timestamp_micros true (k ∷ keys) [] ≡ k ∷ keys
  keys-given = ground arith

  abbrev pub Ready : Loop fmt timestamp_micros → Type 0
  Ready l = IsReady fmt timestamp_micros schema line_filter k keys used l

  first_seen :
      first_row_at fmt timestamp_micros schema first (fresh fmt timestamp_micros schema line_filter)
      ≡ some (some row)
  unfolding first_row_at build
  first_seen = go schema
    where
      go :
          (s : Option Schema)
          → first_row_at fmt timestamp_micros s first (fresh fmt timestamp_micros s line_filter)
            ≡ some (some row)
      go (some s) = rw parsed refl
      go none = rw parsed refl

  -- The first line gives the maker its keys and its schema.
  take_line-first :
      (m : DataFrameMaker fmt timestamp_micros)
      → push_line_to_column_mutable_array fmt timestamp_micros first start ≡ some m
      → take_line fmt timestamp_micros true first
          (some row)
          (fresh fmt timestamp_micros schema line_filter)
        ≡ some (record { first_row = some row; column_keys = k ∷ keys; df_maker = m })
  unfolding take_line build
  take_line-first m pushed =
      ap
        (λ ks.
          push_line_to_column_mutable_array fmt timestamp_micros first
            (record (build fmt timestamp_micros schema) {
              column_keys = give_keys fmt timestamp_micros true ks [];
              schema = give_schema fmt timestamp_micros (some row) schema;
            })
          >>= λ m'. some (record { first_row = some row; column_keys = ks; df_maker = m' }))
        are
      ∙ ap
          (λ ks.
            push_line_to_column_mutable_array fmt timestamp_micros first
              (record (build fmt timestamp_micros schema) {
                column_keys = ks;
                schema = give_schema fmt timestamp_micros (some row) schema;
              })
            >>= λ m'. some (record { first_row = some row; column_keys = k ∷ keys; df_maker = m' }))
          keys-given
      ∙ ap
          (λ s.
            push_line_to_column_mutable_array fmt timestamp_micros first
              (record (build fmt timestamp_micros schema) { column_keys = k ∷ keys; schema = s })
            >>= λ m'. some (record { first_row = some row; column_keys = k ∷ keys; df_maker = m' }))
          used-given
      ∙ ap
          (λ o. o >>= λ m'.
            some (record { first_row = some row; column_keys = k ∷ keys; df_maker = m' }))
          pushed

  pub frame_line-first :
      (m : DataFrameMaker fmt timestamp_micros)
      → is_accepted line_filter first ≡ true
      → push_line_to_column_mutable_array fmt timestamp_micros first start ≡ some m
      → frame_line fmt timestamp_micros schema line_filter true first
          (fresh fmt timestamp_micros schema line_filter)
        ≡ some (record { first_row = some row; column_keys = k ∷ keys; df_maker = m })
  unfolding frame_line
  frame_line-first m is_taken pushed = rw is_taken (
      ap
        (λ o. o >>= λ r.
          take_line fmt timestamp_micros true first r
            (fresh fmt timestamp_micros schema line_filter))
        first_seen
      ∙ take_line-first m pushed)
