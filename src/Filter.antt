-- ===== src/Filter.antt =====
-- polars-logfmt/src/filter.rs: a filter on one key of a row, read from a text.
pub mod Laws
pub mod RoundTrip
mod Tests
use polars_logfmt.Prelude.{
  Bool, true, false, not, List, [], ◌∷◌, Option, none, some, if◌then◌else◌, ◌||◌,
}
use polars_logfmt.Text.{Bytes, bytes_eq, codes}
use polars_logfmt.Text.Search.{trim, is_empty, split_once, contains}
use polars_logfmt.Maps.{get}
use polars_logfmt.Logfmt.Formats.{Formats}
use polars_logfmt.Logfmt.Value.{ParsedValue, as_string}
use polars_logfmt.Logfmt.Rows.{Row}

pub data FilterSpec : Type 0 where
  always : FilterSpec
  eq not_eq contains_text not_contains : Bytes → Bytes → FilterSpec

-- The error carries the text that its message shows.
pub data Result : Type 0 where
  ok : FilterSpec → Result
  invalid : Bytes → Result

abbrev Kind : Type 0
Kind = Bytes → Bytes → FilterSpec

-- The body of the loop for one operator.
pub by_operator : Kind → Bytes → Bytes × Bytes → Result
by_operator kind spec (key, value) =
    if is_empty (trim key) || is_empty (trim value)
    then invalid spec
    else ok (kind (trim key) (trim value))

pub try_operators : Bytes → List (Bytes × Kind) → Result
try_operators spec [] = invalid spec
try_operators spec ((op, kind) ∷ ops) = elim (split_once spec op) [
  | some parts ↦ by_operator kind spec parts
  | none ↦ try_operators spec ops
]

abbrev pub operators : List (Bytes × Kind)
operators =
    (codes "!~", not_contains)
    ∷ (codes "~", contains_text)
    ∷ (codes "!=", not_eq)
    ∷ (codes "=", eq)
    ∷ []

unfoldable pub parse_filter_spec : Option Bytes → Result
unfolding by_operator try_operators
parse_filter_spec none = ok always
parse_filter_spec (some spec) =
    if is_empty (trim spec) then ok always else try_operators (trim spec) operators

module _ (fmt : Formats) where
  abbrev is_some_and : (Bytes → Bool) → Option (ParsedValue fmt) → Bool
  is_some_and p none = false
  is_some_and p (some current) = p (as_string fmt current)

  abbrev is_none_or : (Bytes → Bool) → Option (ParsedValue fmt) → Bool
  is_none_or p none = true
  is_none_or p (some current) = p (as_string fmt current)

  unfoldable pub filter_row : Row fmt → FilterSpec → Bool
  filter_row row always = true
  filter_row row (eq key value) = is_some_and (λ s. bytes_eq s value) (get key row)
  filter_row row (not_eq key value) = is_none_or (λ s. not (bytes_eq s value)) (get key row)
  filter_row row (contains_text key value) = is_some_and (λ s. contains s value) (get key row)
  filter_row row (not_contains key value) = is_none_or (λ s. not (contains s value)) (get key row)
