-- ===== src/Logfmt/Formats.antt =====
-- What logfmt.rs takes from outside: chrono's RFC 3339 times, humantime's durations, and floats,
-- which are abstract here.
use polars_logfmt.Prelude.{ℕ, Option}
use polars_logfmt.Text.{Bytes}

-- `std::time::Duration`
pub record Duration : Type 0 where
  pub secs : ℕ
  pub nanos : ℕ

pub record Formats : Type 1 where
  -- `DateTime<FixedOffset>`, `DateTime::parse_from_rfc3339`, `to_rfc3339`
  pub DateTime : Type 0
  pub parse_from_rfc3339 : Bytes → Option DateTime
  pub to_rfc3339 : DateTime → Bytes
  -- `f64`, `f64::from_str`, `to_string`, `0.0`
  pub F64 : Type 0
  pub f64_from_str : Bytes → Option F64
  pub f64_to_string : F64 → Bytes
  pub f64_zero : F64
  -- `humantime::parse_duration`, `humantime::format_duration`
  pub parse_duration : Bytes → Option Duration
  pub format_duration : Duration → Bytes
