-- ===== src/Logfmt/Rows.antt =====
-- `handle_parse_logfmt_line_with_schema`, `parse_logfmt_line_with_schema` and `parse_logfmt_line` of
-- polars-logfmt/src/logfmt.rs: the row of a line.
pub mod Laws
use polars_logfmt.Prelude.{List, [], ◌∷◌, Option, none, some}
use polars_logfmt.Text.{Bytes}
use polars_logfmt.Maps.{Map, insert}
use polars_logfmt.Logfmt.Formats.{Formats}
use polars_logfmt.Logfmt.Scan.{Pair, handle_parse_logfmt_line_with_schema_base, ◌>>=◌}
use polars_logfmt.Logfmt.Value.{ParsedValue, Schema, parse_value}

module _ (fmt : Formats) where
  abbrev pub Row : Type 0
  Row = Map (ParsedValue fmt)

  -- The calls of `callback`, in order.
  unfoldable pub parse_values : Option Schema → List Pair → List (Bytes × ParsedValue fmt)
  parse_values schema [] = []
  parse_values schema ((key, value) ∷ calls) =
      (key, parse_value fmt schema key value) ∷ parse_values schema calls

  unfoldable pub handle_parse_logfmt_line_with_schema :
      Bytes → Option Schema → Option (List (Bytes × ParsedValue fmt))
  unfolding parse_values
  handle_parse_logfmt_line_with_schema line schema =
      handle_parse_logfmt_line_with_schema_base line >>= λ calls. some (parse_values schema calls)

  -- `map.insert` at each call.
  unfoldable pub insert_all : List (Bytes × ParsedValue fmt) → Row → Row
  insert_all [] map = map
  insert_all ((key, value) ∷ calls) map = insert_all calls (insert key value map)

  unfoldable pub parse_logfmt_line_with_schema : Bytes → Option Schema → Option Row
  unfolding handle_parse_logfmt_line_with_schema insert_all
  parse_logfmt_line_with_schema line schema =
      handle_parse_logfmt_line_with_schema line schema >>= λ calls. some (insert_all calls [])

  unfoldable pub parse_logfmt_line : Bytes → Option Row
  unfolding parse_logfmt_line_with_schema
  parse_logfmt_line line = parse_logfmt_line_with_schema line none
