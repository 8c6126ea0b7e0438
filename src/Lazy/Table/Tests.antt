-- ===== src/Lazy/Table/Tests.antt =====
-- The columns of two ragged rows.
use polars_logfmt.Prelude.{◌≡◌, refl, [], ◌∷◌, none, some, length, if◌then◌else◌}
use polars_logfmt.Text.{Bytes, codes}
use polars_logfmt.Maps.{get}
use polars_logfmt.Logfmt.Samples.{few_formats}
use polars_logfmt.Logfmt.Integers.{pos}
use polars_logfmt.Logfmt.Value.{as_string}
use polars_logfmt.Lazy.Batch.{contains_key}
use polars_logfmt.Lazy.Infer.{field_of}
use polars_logfmt.Lazy.Table.{ints, strings, rows_to_dataframe_filled}
use polars_logfmt.Lazy.Table.Samples.{few_casts, ragged}
use polars_logfmt.Lazy.Table.Texts.{texts_under, rows_to_dataframe, rows_to_dataframe-get}
use polars_logfmt.Lazy.Table.Shape.{AreHigh, names, any_has_key, rows_to_dataframe_filled-shape}

-- A value that is missing is a zero here, where the parallel scan puts a null.
ragged-columns :
    rows_to_dataframe_filled few_formats few_casts ragged none
    ≡ (codes "a", strings (codes "x" ∷ codes "y" ∷ []))
      ∷ (codes "b", ints (pos 3 ∷ pos 0 ∷ []))
      ∷ []
unfolding rows_to_dataframe_filled get as_string field_of
ragged-columns = refl

rows_to_dataframe_filled-shape_example :
    AreHigh few_formats few_casts
      (length ragged)
      (rows_to_dataframe_filled few_formats few_casts ragged none)
    × ((key : Bytes)
        → contains_key
            (names few_formats few_casts
              (rows_to_dataframe_filled few_formats few_casts ragged none))
            key
          ≡ any_has_key few_formats few_casts ragged key)
rows_to_dataframe_filled-shape_example =
    rows_to_dataframe_filled-shape few_formats few_casts ragged none

rows_to_dataframe-get_example : get (codes "b") (rows_to_dataframe few_formats few_casts ragged) ≡ (
    if any_has_key few_formats few_casts ragged (codes "b")
    then some (texts_under few_formats few_casts (codes "b") ragged)
    else none)
rows_to_dataframe-get_example = rows_to_dataframe-get few_formats few_casts ragged (codes "b")
