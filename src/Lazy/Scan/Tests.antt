-- ===== src/Lazy/Scan/Tests.antt =====
-- Scans of a reader of two rows.
use polars_logfmt.Prelude.{
  ◌≡◌, refl, true, false, List, [], ◌∷◌, ◌++◌, Option, none, some, length, if◌then◌else◌,
}
use polars_logfmt.Logfmt.Samples.{few_formats}
use polars_logfmt.Logfmt.Rows.{Row}
use polars_logfmt.Text.{Bytes, codes}
use polars_logfmt.Maps.{get}
use polars_logfmt.Logfmt.Integers.{pos}
use polars_logfmt.Logfmt.Value.{ParsedValue}
use polars_logfmt.Lazy.Infer.{field_of}
use polars_logfmt.Lazy.Table.{
  rows_to_dataframe_filled, InferredType, Column, strings, ints, floats, bools, datetimes,
}
use polars_logfmt.Lazy.Table.Samples.{few_casts}
use polars_logfmt.Lazy.Reader.Samples.{typed, Columns, column_frames}
use polars_logfmt.Lazy.Scan.{Stacks}
use polars_logfmt.Lazy.Scan.Alike.{Shape, same_shape, shape_names, kind, shape_in, are_alike}

abbrev FewColumn : Type 0
FewColumn = Column few_formats few_casts

abbrev kind_of : FewColumn → InferredType
kind_of column = kind few_formats column_frames column

abbrev shape_of_columns : Columns → Shape
shape_of_columns df = shape_in few_formats column_frames df

abbrev append_column : FewColumn → FewColumn → FewColumn
append_column (strings xs) (strings ys) = strings (xs ++ ys)
append_column (ints xs) (ints ys) = ints (xs ++ ys)
append_column (floats xs) (floats ys) = floats (xs ++ ys)
append_column (bools xs) (bools ys) = bools (xs ++ ys)
append_column (datetimes xs) (datetimes ys) = datetimes (xs ++ ys)
append_column column _ = column

abbrev append_columns : Columns → Columns → Columns
append_columns [] df = []
append_columns (c ∷ cs) [] = c ∷ cs
append_columns ((name, column) ∷ cs) ((name', column') ∷ cs') =
    (name, append_column column column') ∷ append_columns cs cs'

abbrev vstack : Columns → Columns → Option Columns
vstack a b =
    if same_shape (shape_of_columns a) (shape_of_columns b) then some (append_columns a b) else none

abbrev column_stacks : Stacks few_formats column_frames
column_stacks = record {
  width = length;
  get_column_names = λ df. shape_names (shape_of_columns df);
  vstack_mut = vstack;
  default_frame = [];
}

abbrev row_of : Bytes → List (Row few_formats)
row_of key = ((key, ParsedValue.integer (pos 1)) ∷ []) ∷ []

-- Batches of other keys are not alike, but one without pairs between two that are alike does not matter.
other_keys-are_alike :
    (are_alike few_formats column_frames typed (row_of (codes "a") ∷ row_of (codes "b") ∷ []) none
      ≡ false)
    × (are_alike few_formats column_frames typed
          (row_of (codes "a") ∷ ([] ∷ []) ∷ row_of (codes "a") ∷ [])
          none
        ≡ true)
unfolding are_alike rows_to_dataframe_filled get field_of
other_keys-are_alike = (refl, refl)
