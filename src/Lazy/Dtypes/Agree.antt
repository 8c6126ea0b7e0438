-- ===== src/Lazy/Dtypes/Agree.antt =====
-- The types that a scan declares, and those of the columns it makes.
use polars_logfmt.Prelude.{
  List, [], ◌∷◌, ◌≡◌, ◌≢◌, ◌↔◌, refl, sym, ap, ◌∙◌, Option, none, some, Bool-cases, inl, inr,
}
use polars_logfmt.Text.{Bytes, bytes_eq}
use polars_logfmt.Maps.{get}
use polars_logfmt.Logfmt.Formats.{Formats}
use polars_logfmt.Logfmt.Value.{SchemaField, Schema}
use polars_logfmt.Logfmt.Rows.{Row}
use polars_logfmt.Lazy.Columns.{
  DataType, int64, float64, boolean, datetime, string, type_of, field_in,
}
use polars_logfmt.Lazy.Columns.Finish.{series_type}
use polars_logfmt.Lazy.Table.{
  Casts, Column, strings, ints, floats, bools, datetimes, inferred_type, column_of,
}
use polars_logfmt.Lazy.Dtypes.{dtype, logfmt_schema_to_polars_schema}

-- The type of a column of `rows_to_dataframe_filled`.
abbrev pub column_dtype : {fmt : Formats} {casts : Casts fmt} → Column fmt casts → DataType
column_dtype (strings cells) = string
column_dtype (ints cells) = int64
column_dtype (floats cells) = float64
column_dtype (bools cells) = boolean
column_dtype (datetimes cells) = datetime

abbrev dtype_of : Option SchemaField → Option DataType
dtype_of none = none
dtype_of (some field) = some (dtype field)

get-logfmt_schema_to_polars_schema :
    (schema : Schema) (key : Bytes)
    → get key (logfmt_schema_to_polars_schema schema) ≡ dtype_of (get key schema)
unfolding get logfmt_schema_to_polars_schema
get-logfmt_schema_to_polars_schema [] key = refl
get-logfmt_schema_to_polars_schema ((k, v) ∷ schema) key = elim (Bool-cases (bytes_eq k key)) [
  | inl here ↦ rw here refl
  | inr other ↦ rw other (get-logfmt_schema_to_polars_schema schema key)
]

parallel-agrees : (field : SchemaField) → dtype field ≡ series_type (type_of (some field))
parallel-agrees SchemaField.string = refl
parallel-agrees SchemaField.integer = refl
parallel-agrees SchemaField.float = refl
parallel-agrees SchemaField.boolean = refl
parallel-agrees SchemaField.date_time = refl
parallel-agrees SchemaField.duration = refl
parallel-agrees SchemaField.auto = refl

module _ (fmt : Formats) (casts : Casts fmt) (key : Bytes) (rows : List (Row fmt)) where
  filled-agrees :
      (field : SchemaField)
      → field ≢ SchemaField.auto
      → (column_dtype (column_of fmt casts (inferred_type fmt casts (some field) key rows) key rows)
          ≡ dtype field)
        ↔ (field ≢ SchemaField.duration)
  unfolding column_of inferred_type
  filled-agrees SchemaField.string typed = ((λ same e. cc), λ ne. refl)
  filled-agrees SchemaField.integer typed = ((λ same e. cc), λ ne. refl)
  filled-agrees SchemaField.float typed = ((λ same e. cc), λ ne. refl)
  filled-agrees SchemaField.boolean typed = ((λ same e. cc), λ ne. refl)
  filled-agrees SchemaField.date_time typed = ((λ same e. cc), λ ne. refl)
  filled-agrees SchemaField.duration typed = ((λ same e. cc), λ ne. absurd (ne refl))
  filled-agrees SchemaField.auto typed = absurd (typed refl)

-- Under a schema with a type for a key that is not the automatic one, the type that a scan declares for the
-- key is that of the column of the parallel scan, and it is that of the column which
-- `rows_to_dataframe_filled` makes just if the type is not a duration.
pub declared_types :
    (fmt : Formats) (casts : Casts fmt) (schema : Schema) (key : Bytes) (field : SchemaField)
    (rows : List (Row fmt))
    → get key schema ≡ some field
    → field ≢ SchemaField.auto
    → (t : DataType) × (get key (logfmt_schema_to_polars_schema schema) ≡ some t)
      × (series_type (type_of (field_in (some schema) key)) ≡ t)
      × ((column_dtype (
              column_of fmt casts
                (inferred_type fmt casts (field_in (some schema) key) key rows)
                key
                rows)
            ≡ t)
          ↔ (field ≢ SchemaField.duration))
declared_types fmt casts schema key field rows known typed = (
  dtype field,
  get-logfmt_schema_to_polars_schema schema key ∙ ap dtype_of known,
  ap (λ o. series_type (type_of o)) known ∙ sym (parallel-agrees field),
  rw known (filled-agrees fmt casts key rows field typed),
)
