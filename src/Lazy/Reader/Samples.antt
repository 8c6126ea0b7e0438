-- ===== src/Lazy/Reader/Samples.antt =====
-- A reader of two rows, and data frames that are their columns.
use polars_logfmt.Prelude.{ℕ, refl, List, [], ◌∷◌, ◌++◌, ◌≡◌, some, take}
use polars_logfmt.Text.{Bytes, codes}
use polars_logfmt.Text.Utf8.{is_utf8}
use polars_logfmt.Logfmt.Samples.{few_formats}
use polars_logfmt.Logfmt.Value.{Schema, SchemaField}
use polars_logfmt.Lazy.Lines.{LineReader}
use polars_logfmt.Lazy.Batch.Rows.{AreUtf8}
use polars_logfmt.Lazy.Table.{Column, strings, ints, floats, bools, datetimes}
use polars_logfmt.Lazy.Table.Shape.{height, AreHigh}
use polars_logfmt.Lazy.Table.Samples.{few_casts}
use polars_logfmt.Lazy.Reader.{DataFrames}
use polars_logfmt.Lazy.Reader.Progress.{MakesFrames, shown}

abbrev pub lines : LineReader
lines = (codes "a=1" ++ b'\n' ∷ []) ∷ (b'\n' ∷ []) ∷ codes "a=2" ∷ []

pub lines-AreUtf8 : AreUtf8 lines
unfolding is_utf8
lines-AreUtf8 = (refl, (refl, (refl, tt)))

abbrev pub typed : Schema
typed = (codes "a", SchemaField.integer) ∷ []

abbrev pub Columns : Type 0
Columns = List (Bytes × Column few_formats few_casts)

abbrev pub rows_in : Columns → ℕ
rows_in [] = 0
rows_in ((name, column) ∷ columns) = height few_formats few_casts column

abbrev take_cells : ℕ → Column few_formats few_casts → Column few_formats few_casts
take_cells n (strings cells) = strings (take n cells)
take_cells n (ints cells) = ints (take n cells)
take_cells n (floats cells) = floats (take n cells)
take_cells n (bools cells) = bools (take n cells)
take_cells n (datetimes cells) = datetimes (take n cells)

abbrev take_rows : ℕ → Columns → Columns
take_rows n [] = []
take_rows n ((name, column) ∷ columns) = (name, take_cells n column) ∷ take_rows n columns

-- Frames that are their columns.
abbrev pub column_frames : DataFrames few_formats
column_frames = record {
  casts = few_casts;
  DataFrame = Columns;
  new_frame = λ columns. some columns;
  apply_pushdown = λ df. some df;
  height = rows_in;
  slice = take_rows;
}

rows_in-high :
    (n : ℕ) (columns : Columns)
    → AreHigh few_formats few_casts n columns
    → rows_in columns ≡ shown columns n
rows_in-high n [] high = refl
rows_in-high n ((name, column) ∷ columns) (is_high, high) = is_high

pub column_frames-MakesFrames : MakesFrames few_formats column_frames
column_frames-MakesFrames = record {
  made = λ n columns distinct high. (columns, refl, rows_in-high n columns high);
  pushed = λ df. refl;
}
