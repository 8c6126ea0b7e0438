-- ===== src/Lazy/Dtypes/Tests.antt =====
-- A duration and an integer.
use polars_logfmt.Prelude.{◌≡◌, ◌≢◌, ◌↔◌, refl, [], ◌∷◌, some}
use polars_logfmt.Text.{codes}
use polars_logfmt.Maps.{get}
use polars_logfmt.Logfmt.Samples.{few_formats}
use polars_logfmt.Logfmt.Value.{SchemaField, Schema}
use polars_logfmt.Lazy.Columns.{DataType, type_of, field_in}
use polars_logfmt.Lazy.Columns.Finish.{series_type}
use polars_logfmt.Lazy.Table.{inferred_type, column_of}
use polars_logfmt.Lazy.Table.Samples.{few_casts, ragged}
use polars_logfmt.Lazy.Dtypes.{logfmt_schema_to_polars_schema}
use polars_logfmt.Lazy.Dtypes.Agree.{column_dtype, declared_types}

abbrev timed : Schema
timed = (codes "b", SchemaField.integer) ∷ (codes "took", SchemaField.duration) ∷ []

declared_types_example :
    (t : DataType) × (get (codes "took") (logfmt_schema_to_polars_schema timed) ≡ some t)
    × (series_type (type_of (field_in (some timed) (codes "took"))) ≡ t)
    × ((column_dtype (
            column_of few_formats few_casts
              (inferred_type few_formats few_casts
                (field_in (some timed) (codes "took"))
                (codes "took")
                ragged)
              (codes "took")
              ragged)
          ≡ t)
        ↔ (SchemaField.duration ≢ SchemaField.duration))
unfolding get
declared_types_example =
    declared_types few_formats few_casts timed (codes "took") SchemaField.duration ragged refl
      (λ e. cc)
