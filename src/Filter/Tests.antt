-- ===== src/Filter/Tests.antt =====
-- Runs of the filters, and the theorems about them at concrete texts.
use polars_logfmt.Prelude.{◌≡◌, refl, true, false, some}
use polars_logfmt.Text.{codes}
use polars_logfmt.Text.Search.{split_once, trim, contains}
use polars_logfmt.Logfmt.Value.{as_string}
use polars_logfmt.Logfmt.Integers.{i64_to_string}
use polars_logfmt.Maps.{get}
use polars_logfmt.Logfmt.Samples.{few_formats, line_row}
use polars_logfmt.Filter.{not_eq, not_contains, contains_text, parse_filter_spec, filter_row, ok}
use polars_logfmt.Filter.Laws.{IsContains, parse_filter_spec-tilde}
use polars_logfmt.Filter.RoundTrip.{parse_filter_spec-write_spec}

filters :
    (filter_row few_formats line_row (not_eq (codes "status") (codes "200")) ≡ false)
    × (filter_row few_formats line_row (contains_text (codes "msg") (codes "b")) ≡ true)
    × (filter_row few_formats line_row (not_contains (codes "absent") (codes "b")) ≡ true)
unfolding filter_row get as_string i64_to_string contains
filters = (refl, refl, refl)

-- A value that starts in a home directory makes the filter a search, under another key.
home : parse_filter_spec (some (codes "home=~/x")) ≡ ok (contains_text (codes "home=") (codes "/x"))
unfolding parse_filter_spec split_once trim
home = refl

parse_filter_spec-write_spec_example :
    parse_filter_spec (some (codes "status!=200")) ≡ ok (not_eq (codes "status") (codes "200"))
parse_filter_spec-write_spec_example =
    parse_filter_spec-write_spec (not_eq (codes "status") (codes "200"))
      ((refl, (refl, (refl, (refl, (refl, (refl, tt)))))), (refl, (refl, (refl, tt))))

home-split : split_once (trim (codes "home=~/x")) (codes "~") ≡ some (codes "home=", codes "/x")
unfolding split_once trim
home-split = refl

parse_filter_spec-tilde_example : IsContains (parse_filter_spec (some (codes "home=~/x")))
parse_filter_spec-tilde_example =
    parse_filter_spec-tilde (codes "home=~/x") (codes "home=", codes "/x") home-split
