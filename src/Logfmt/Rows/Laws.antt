-- ===== src/Logfmt/Rows/Laws.antt =====
-- What a row holds of its line.
use mathlib.Core.Option
use mathlib.Core.Path.{subst}
use polars_logfmt.Prelude.{
  List, [], ◌∷◌, ◌≡◌, refl, sym, ◌∙◌, ap, Option, none, some, if◌then◌else◌, arith,
}
use polars_logfmt.Text.{Bytes, bytes_eq, bytes_eq_iff}
use polars_logfmt.Text.Utf8.{Utf8}
use polars_logfmt.Maps.{get, insert, get-insert, get-nil}
use polars_logfmt.Logfmt.Formats.{Formats}
use polars_logfmt.Logfmt.Scan.{Pair}
use polars_logfmt.Logfmt.Scan.Grammar.{Reads}
use polars_logfmt.Logfmt.Scan.Total.{handle-Reads}
use polars_logfmt.Logfmt.Value.{ParsedValue, SchemaField, Schema, parse_value, parse_as}
use polars_logfmt.Logfmt.Rows.{
  Row, parse_values, handle_parse_logfmt_line_with_schema, insert_all,
  parse_logfmt_line_with_schema,
}

-- The value that stands last under a key.
abbrev pub last_value : Bytes → List Pair → Option Bytes
last_value k [] = none
last_value k ((key, value) ∷ calls) = elim (last_value k calls) [
  | some later ↦ some later
  | none ↦ if bytes_eq key k then some value else none
]

-- The values that a schema type allows. A time or a duration that cannot be read stays a text.
abbrev pub HasType : (fmt : Formats) → SchemaField → ParsedValue fmt → Type 0
HasType fmt SchemaField.string (ParsedValue.string _) = Unit {0}
HasType fmt SchemaField.auto (ParsedValue.string _) = Unit {0}
HasType fmt SchemaField.integer (ParsedValue.integer _) = Unit {0}
HasType fmt SchemaField.float (ParsedValue.float _) = Unit {0}
HasType fmt SchemaField.boolean (ParsedValue.boolean _) = Unit {0}
HasType fmt SchemaField.date_time (ParsedValue.date_time _) = Unit {0}
HasType fmt SchemaField.date_time (ParsedValue.string _) = Unit {0}
HasType fmt SchemaField.duration (ParsedValue.duration _) = Unit {0}
HasType fmt SchemaField.duration (ParsedValue.string _) = Unit {0}
HasType fmt _ _ = ⊥

module _ (fmt : Formats) where
  abbrev pub row_value : Option Schema → Bytes → List Pair → Option (ParsedValue fmt)
  row_value schema k calls = Option.map (parse_value fmt schema k) (last_value k calls)

  abbrev or_old : Option (ParsedValue fmt) → Option (ParsedValue fmt) → Option (ParsedValue fmt)
  or_old none old = old
  or_old (some v) old = some v

  get-insert_all :
      (schema : Option Schema) (k : Bytes) (calls : List Pair) (row : Row fmt)
      → get k (insert_all fmt (parse_values fmt schema calls) row)
        ≡ or_old (row_value schema k calls) (get k row)
  unfolding insert_all parse_values
  get-insert_all schema k [] row = refl
  get-insert_all schema k ((key, value) ∷ calls) row =
      let parsed = parse_value fmt schema key value in
      ground (
        arith,
        get-insert_all schema k calls (insert key parsed row),
        get-insert k key parsed row,
        bytes_eq_iff key k,
      )

  or_old-nil : (k : Bytes) (o : Option (ParsedValue fmt)) → or_old o (get k []) ≡ o
  or_old-nil k none = get-nil k
  or_old-nil k (some v) = refl

  parse_as-HasType :
      (field : SchemaField) (value : Bytes) → HasType fmt field (parse_as fmt (some field) value)
  unfolding parse_as
  parse_as-HasType SchemaField.string value = ground arith
  parse_as-HasType _ value = ground arith

  -- The row of a valid line is computed without a fault. It holds, under each key, the last value that
  -- the line gives the key, read under the schema's type for it or, with no schema, by its form; and
  -- nothing under any other key.
  pub parse-get :
      (line : Bytes) (schema : Option Schema)
      → Utf8 line
      → (calls : List Pair) × (row : Row fmt) × Reads line calls
        × (parse_logfmt_line_with_schema fmt line schema ≡ some row)
        × ((k : Bytes) → get k row ≡ row_value schema k calls)
  unfolding parse_logfmt_line_with_schema handle_parse_logfmt_line_with_schema
  parse-get line schema u =
      let (calls, returns, reading) = handle-Reads line u in
      (
        calls,
        insert_all fmt (parse_values fmt schema calls) [],
        reading,
        rw returns,
        λ k. get-insert_all schema k calls [] ∙ or_old-nil k (row_value schema k calls),
      )

  parse_value-HasType :
      (schema : Schema) (k : Bytes) (field : SchemaField) (text : Option Bytes)
      (value : ParsedValue fmt)
      → get k schema ≡ some field
      → Option.map (parse_value fmt (some schema) k) text ≡ some value
      → HasType fmt field value
  unfolding parse_value
  parse_value-HasType schema k field none value typed h = cc
  parse_value-HasType schema k field (some text) value typed h =
      let parsed : parse_as fmt (get k schema) text ≡ value = cc in
      let read = ap (λ (o : Option SchemaField). parse_as fmt o text) (sym typed) ∙ parsed in
      subst (HasType fmt field) read (parse_as-HasType field text)

  -- Every value of a row whose key the schema types has that type.
  pub parse-HasType :
      (line : Bytes) (schema : Schema) (row : Row fmt) (k : Bytes) (field : SchemaField)
      (value : ParsedValue fmt)
      → Utf8 line
      → parse_logfmt_line_with_schema fmt line (some schema) ≡ some row
      → get k schema ≡ some field
      → get k row ≡ some value
      → HasType fmt field value
  parse-HasType line schema row k field value u parsed typed found =
      let (calls, row', reading, returns, values) = parse-get line (some schema) u in
      let same : row' ≡ row = cc (returns, parsed) in
      parse_value-HasType schema k field (last_value k calls) value typed
        (sym (values k) ∙ ap (get k) same ∙ found)
