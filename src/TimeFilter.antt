-- ===== src/TimeFilter.antt =====
-- polars-logfmt/src/time_filter.rs: rows and frames between two times.
pub mod Ranges
mod Tests
use polars_logfmt.Prelude.{Bool, true, false, ◌&&◌, List, [], ◌∷◌, Option, none, some}
use polars_logfmt.Text.{Bytes}
use polars_logfmt.Maps.{get}
use polars_logfmt.Logfmt.Formats.{Formats}
use polars_logfmt.Logfmt.Value.{ParsedValue, as_string}
use polars_logfmt.Logfmt.Rows.{Row}

-- What `series.get(idx)` gives, as far as the filter tells it apart: a text, owned or not, or
-- anything else.
pub data AnyValue : Type 0 where
  string string_owned : Bytes → AnyValue
  other : AnyValue

-- `le` is the `<=` of `DateTime`.
module _ (fmt : Formats) (le : fmt.DateTime → fmt.DateTime → Bool) where
  abbrev pub parse_rfc3339 : Bytes → Option fmt.DateTime
  parse_rfc3339 value = fmt.parse_from_rfc3339 value

  -- `is_some_and(|time| time >= *start && time <= *end)`
  abbrev pub is_between : fmt.DateTime → fmt.DateTime → Option fmt.DateTime → Bool
  is_between start end none = false
  is_between start end (some time) = le start time && le time end

  abbrev pub time_of : Option (ParsedValue fmt) → Option fmt.DateTime
  time_of none = none
  time_of (some value) = parse_rfc3339 (as_string fmt value)

  unfoldable pub row_in_time_range : Row fmt → Bytes → fmt.DateTime → fmt.DateTime → Bool
  row_in_time_range row column start end = is_between start end (time_of (get column row))

  pub keep : fmt.DateTime → fmt.DateTime → AnyValue → Bool
  keep start end (string value) = is_between start end (parse_rfc3339 value)
  keep start end (string_owned value) = is_between start end (parse_rfc3339 value)
  keep start end other = false

  pub mask : fmt.DateTime → fmt.DateTime → List AnyValue → List Bool
  mask start end [] = []
  mask start end (value ∷ series) = keep start end value ∷ mask start end series

  -- The frame is Polars': `column` finds a column's values, and `filter` keeps the rows of a mask.
  unfoldable pub filter_df_by_time_range {ℓ} :
      {DataFrame : Type ℓ}
      → (DataFrame → Bytes → Option (List AnyValue))
      → (DataFrame → List Bool → Option DataFrame)
      → DataFrame
      → Bytes
      → fmt.DateTime
      → fmt.DateTime
      → Option DataFrame
  unfolding keep mask
  filter_df_by_time_range column filter df name start end = elim (column df name) [
    | none ↦ some df
    | some series ↦ filter df (mask start end series)
  ]
