-- ===== src/Lazy/Dtypes.antt =====
-- `logfmt_schema_to_polars_schema` of polars-logfmt/src/lazy.rs and `schema` of `impl AnonymousScan for
-- LazyLogFmtReader` in polars-logfmt/src/lazy/lazy_logfmt_reader.rs: the types that a scan declares.
pub mod Agree
mod Tests
use polars_logfmt.Prelude.{ℕ, List, [], ◌∷◌, Option, none, some}
use polars_logfmt.Text.{Bytes}
use polars_logfmt.Logfmt.Value.{SchemaField, Schema, unwrap_or}
use polars_logfmt.Lazy.Lines.{LineReader}
use polars_logfmt.Lazy.Columns.{DataType, int64, float64, boolean, datetime, string}

-- `dtype`, in both functions.
abbrev pub dtype : SchemaField → DataType
dtype SchemaField.string = string
dtype SchemaField.integer = int64
dtype SchemaField.float = float64
dtype SchemaField.boolean = boolean
dtype SchemaField.date_time = datetime
dtype SchemaField.duration = int64
dtype SchemaField.auto = string

-- The fields of a `SchemaRef`.
unfoldable pub logfmt_schema_to_polars_schema : Schema → List (Bytes × DataType)
logfmt_schema_to_polars_schema [] = []
logfmt_schema_to_polars_schema ((k, v) ∷ map) = (k, dtype v) ∷ logfmt_schema_to_polars_schema map

abbrev of_inferred : Option (Option Schema × Option LineReader) → Option (List (Bytes × DataType))
of_inferred none = none
of_inferred (some (none, probe)) = none
of_inferred (some (some schema, probe)) = some (logfmt_schema_to_polars_schema schema)

abbrev of_predicted :
    Option (Option Schema)
    → Option (Option Schema × Option LineReader)
    → Option (List (Bytes × DataType))
of_predicted none infer = none
of_predicted (some (some schema)) infer = some (logfmt_schema_to_polars_schema schema)
of_predicted (some none) infer = of_inferred infer

-- `predict` is `predict_schema_from_first_line` and `infer` is `infer_schema_from_source`, on the number of
-- rows to probe; `none` is an error.
unfoldable pub schema :
    (ℕ → Option (Option Schema))
    → (ℕ → Option (Option Schema × Option LineReader))
    → Option Schema
    → ℕ
    → Option ℕ
    → Option (List (Bytes × DataType))
unfolding logfmt_schema_to_polars_schema
schema predict infer (some own_schema) own_length infer_schema_length =
    some (logfmt_schema_to_polars_schema own_schema)
schema predict infer none own_length infer_schema_length =
    let length : ℕ = unwrap_or own_length infer_schema_length in
    of_predicted (predict length) (infer length)
