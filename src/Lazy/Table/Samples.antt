-- ===== src/Lazy/Table/Samples.antt =====
-- Two ragged rows, and conversions between numbers.
use polars_logfmt.Prelude.{false, List, [], ◌∷◌}
use polars_logfmt.Text.{codes}
use polars_logfmt.Logfmt.Samples.{few_formats}
use polars_logfmt.Logfmt.Integers.{pos}
use polars_logfmt.Logfmt.Value.{ParsedValue}
use polars_logfmt.Logfmt.Rows.{Row}
use polars_logfmt.Lazy.Table.{Casts}

abbrev pub few_casts : Casts few_formats
few_casts = record {
  f64_to_i64 = λ f. pos f;
  i64_to_f64 = λ i. 0;
  duration_to_f64 = λ d. 0;
  f64_one = 1;
  f64_is_zero = λ f. false;
  timestamp_micros = λ t. pos t;
}

abbrev pub ragged : List (Row few_formats)
ragged =
    ((codes "b", ParsedValue.integer (pos 3)) ∷ (codes "a", ParsedValue.string (codes "x")) ∷ [])
    ∷ ((codes "a", ParsedValue.string (codes "y")) ∷ [])
    ∷ []
