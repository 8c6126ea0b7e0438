-- ===== src/TimeFilter/Tests.antt =====
-- The filters by time at a concrete range.
use polars_logfmt.Prelude.{leb, true, ◌≡◌, refl, List, [], ◌∷◌, some, none, if◌then◌else◌}
use polars_logfmt.Text.{codes, bytes_eq}
use polars_logfmt.Maps.{get}
use polars_logfmt.Logfmt.Formats.{Formats}
use polars_logfmt.Logfmt.Samples.{few_formats}
use polars_logfmt.Logfmt.Value.{ParsedValue, as_string}
use polars_logfmt.Logfmt.Rows.{Row}
use polars_logfmt.Logfmt.Integers.{pos}
use polars_logfmt.Lazy.Table.{Casts}
use polars_logfmt.Lazy.Table.Shape.{any_has_key}
use polars_logfmt.TimeFilter.{row_in_time_range, filter_df_by_time_range}
use polars_logfmt.TimeFilter.Ranges.{text_column, filter_rows, kept, filter_df_by_time_range-rows}

-- A format that knows two times.
abbrev hours : Formats
hours = record few_formats {
  parse_from_rfc3339 = λ v.
      if bytes_eq v (codes "01") then some 1 else if bytes_eq v (codes "05") then some 5 else none;
}

abbrev three_rows : List (Row hours)
three_rows =
    ((codes "t", ParsedValue.string (codes "01")) ∷ [])
    ∷ ((codes "t", ParsedValue.string (codes "05")) ∷ [])
    ∷ ((codes "u", ParsedValue.string (codes "01")) ∷ [])
    ∷ []

first_row_kept :
    kept hours leb 0 3 (codes "t") three_rows
    ≡ ((codes "t", ParsedValue.string (codes "01")) ∷ []) ∷ []
unfolding get as_string row_in_time_range
first_row_kept = refl

abbrev hour_casts : Casts hours
hour_casts = record {
  f64_to_i64 = λ f. pos 0;
  i64_to_f64 = λ i. hours.f64_zero;
  duration_to_f64 = λ d. hours.f64_zero;
  f64_one = hours.f64_zero;
  f64_is_zero = λ f. true;
  timestamp_micros = λ t. pos t;
}

-- A column that no row has filters nothing.
no_column_kept :
    filter_df_by_time_range hours leb
      (text_column hours hour_casts)
      (λ df bs. some (filter_rows df bs))
      three_rows
      (codes "v")
      0
      3
    ≡ some three_rows
no_column_kept = filter_df_by_time_range-rows hours hour_casts leb 0 3 (codes "v") three_rows

filter_df_by_time_range-rows_example :
    filter_df_by_time_range hours leb
      (text_column hours hour_casts)
      (λ df bs. some (filter_rows df bs))
      three_rows
      (codes "t")
      0
      3
    ≡ some (
        if any_has_key hours hour_casts three_rows (codes "t")
        then kept hours leb 0 3 (codes "t") three_rows
        else three_rows)
filter_df_by_time_range-rows_example =
    filter_df_by_time_range-rows hours hour_casts leb 0 3 (codes "t") three_rows
