-- ===== src/Lazy/Infer.antt =====
-- `infer_schema_from_row`, `merge_schema_field` and `infer_schema_from_reader` of
-- polars-logfmt/src/lazy.rs: the schema of a source, from its first lines.
pub mod Types
pub mod Replay
use polars_logfmt.Prelude.{
  ℕ, ◌+◌, Bool, true, false, List, [], ◌∷◌, ◌++◌, Option, none, some, ltb, if◌then◌else◌,
}
use polars_logfmt.Text.{Bytes}
use polars_logfmt.Text.Search.{trim, is_empty}
use polars_logfmt.Maps.{get, insert}
use polars_logfmt.Logfmt.Formats.{Formats}
use polars_logfmt.Logfmt.Value.{ParsedValue, SchemaField, Schema}
use polars_logfmt.Logfmt.Rows.{Row, parse_logfmt_line}
use polars_logfmt.Lazy.Lines.{LineReader, LineFilter, passes, checked}

-- `==` of `SchemaField`
abbrev pub same_field : SchemaField → SchemaField → Bool
same_field SchemaField.string SchemaField.string = true
same_field SchemaField.integer SchemaField.integer = true
same_field SchemaField.float SchemaField.float = true
same_field SchemaField.boolean SchemaField.boolean = true
same_field SchemaField.date_time SchemaField.date_time = true
same_field SchemaField.duration SchemaField.duration = true
same_field SchemaField.auto SchemaField.auto = true
same_field _ _ = false

abbrev widen : SchemaField → SchemaField → SchemaField
widen SchemaField.integer SchemaField.float = SchemaField.float
widen SchemaField.float SchemaField.integer = SchemaField.float
widen _ _ = SchemaField.string

unfoldable pub merge_schema_field : SchemaField → SchemaField → SchemaField
merge_schema_field a b = if same_field a b then a else widen a b

-- `merged.entry(k).and_modify(…).or_insert(v)`
abbrev merged_entry : Option SchemaField → SchemaField → SchemaField
merged_entry none v = v
merged_entry (some seen) v = merge_schema_field seen v

unfoldable pub merge_schema : Schema → Schema → Schema
merge_schema merged [] = merged
merge_schema merged ((k, v) ∷ row_schema) =
    merge_schema (insert k (merged_entry (get k merged) v) merged) row_schema

module _ (fmt : Formats) where
  unfoldable pub field_of : ParsedValue fmt → SchemaField
  field_of (ParsedValue.string _) = SchemaField.string
  field_of (ParsedValue.integer _) = SchemaField.integer
  field_of (ParsedValue.float _) = SchemaField.float
  field_of (ParsedValue.boolean _) = SchemaField.boolean
  field_of (ParsedValue.date_time _) = SchemaField.date_time
  field_of (ParsedValue.duration _) = SchemaField.duration

  -- `schema.insert` for each entry of the row, from the last to the first: a row has each key once,
  -- so that the order does not matter.
  unfoldable pub infer_schema_from_row : Row fmt → Schema
  unfolding field_of
  infer_schema_from_row [] = []
  infer_schema_from_row ((k, v) ∷ row) = insert k (field_of v) (infer_schema_from_row row)

  abbrev merge_row : Option Schema → Schema → Schema
  merge_row none row_schema = row_schema
  merge_row (some merged) row_schema = merge_schema merged row_schema

  -- The variables of the loop: `schema`, `rows` and `consumed`.
  pub record Probe : Type 0 where
    pub schema : Option Schema
    pub rows : ℕ
    pub consumed : Bytes

  abbrev take_row : Option (Row fmt) → Probe → Option Probe
  take_row none p = none
  take_row (some row) p = some (record p {
    schema = some (merge_row p.schema (infer_schema_from_row row));
    rows = p.rows + 1;
  })

  -- The body of the loop for a line that was read.
  pub probe_line : LineFilter → Bytes → Probe → Option Probe
  probe_line filter line p =
      let seen : Probe = record p { consumed = p.consumed ++ line } in
      if is_empty (trim line)
      then some seen
      else if passes filter line
      then take_row (parse_logfmt_line fmt line) seen
      else some seen

  -- The loop, on the lines that are left; the result has those that it leaves unread. `none` is the
  -- error of `read_line`.
  pub probe_lines : LineFilter → ℕ → LineReader → Probe → Option (Probe × LineReader)
  probe_lines filter n_rows [] p = some (p, [])
  probe_lines filter n_rows (line ∷ lines) p = elim (ltb p.rows n_rows) [
    | false ↦ some (p, line ∷ lines)
    | true ↦ elim (checked line (probe_line filter line p)) [
      | none ↦ none
      | some q ↦ probe_lines filter n_rows lines q
    ]
  ]

  unfoldable pub infer_schema_from_reader :
      LineFilter → ℕ → LineReader → Option (Probe × LineReader)
  unfolding probe_line probe_lines
  infer_schema_from_reader filter n_rows lines =
      probe_lines filter n_rows lines (record { schema = none; rows = 0; consumed = [] })
