-- ===== src/Logfmt/Samples.antt =====
-- Texts, rows and formats that the runs share.
use polars_logfmt.Prelude.{ℕ, [], ◌∷◌, none, some, if◌then◌else◌}
use polars_logfmt.Text.{Bytes, codes, bytes_eq}
use polars_logfmt.Logfmt.Formats.{Formats}
use polars_logfmt.Logfmt.Integers.{pos}
use polars_logfmt.Logfmt.Value.{ParsedValue}
use polars_logfmt.Logfmt.Rows.{Row}

abbrev pub line : Bytes
line = codes "level=INFO status=200 msg=\"a \\\" b\" lost =x broken"

-- Formats that know one duration, and no time.
abbrev pub few_formats : Formats
few_formats = record {
  DateTime = ℕ;
  parse_from_rfc3339 = λ _. none;
  to_rfc3339 = λ _. [];
  F64 = ℕ;
  f64_from_str = λ _. none;
  f64_to_string = λ _. [];
  f64_zero = 0;
  parse_duration =
      λ v. if bytes_eq v (codes "1s") then some (record { secs = 1; nanos = 0 }) else none;
  format_duration = λ _. codes "1s";
}

abbrev pub line_row : Row few_formats
line_row =
    (codes "level", ParsedValue.string (codes "INFO"))
    ∷ (codes "status", ParsedValue.integer (pos 200))
    ∷ (codes "msg", ParsedValue.string (codes "a \\\" b"))
    ∷ (codes "lost", ParsedValue.string (codes "x"))
    ∷ []
