-- ===== src/Lazy/Parallel/RowsTests.antt =====
-- A parallel batch of two units with one key.
use polars_logfmt.Prelude.{
  ℕ, zero, suc, ◌+◌, ◌<◌, Bool, true, false, ◌&&◌, if◌then◌else◌, ◌∙◌, List, [], ◌∷◌, ◌++◌, ◌≡◌,
  refl, ap, Option, none, some, length, arith,
}
use polars_logfmt.Text.{Bytes, bytes_eq, bytes_eq_iff, codes}
use polars_logfmt.Text.Search.{trim}
use polars_logfmt.Text.Utf8.{is_utf8}
use polars_logfmt.Maps.{get, insert}
use polars_logfmt.Logfmt.Samples.{few_formats}
use polars_logfmt.Logfmt.Integers.{ℤ, pos, i64_from_str}
use polars_logfmt.Logfmt.Value.{ParsedValue, SchemaField, Schema, parse_value}
use polars_logfmt.Logfmt.Rows.{parse_logfmt_line}
use polars_logfmt.Logfmt.Scan.{handle_parse_logfmt_line_with_schema_base}
use polars_logfmt.Lazy.Lines.{split_lines, is_accepted}
use polars_logfmt.Lazy.Reader.{LogFmtReaderState}
use polars_logfmt.Lazy.Units.{UnitSource}
use polars_logfmt.Lazy.Workers.{worker_slices}
use polars_logfmt.Lazy.Frames.{FrameRange}
use polars_logfmt.Lazy.Frames.Read.{FrameRead}
use polars_logfmt.Lazy.Columns.{DataType, int64, float64, boolean, datetime, duration, string}
use polars_logfmt.Lazy.Columns.Finish.{FrameColumn}
use polars_logfmt.Lazy.Columns.Finish.Ready.{AreColumns}
use polars_logfmt.Lazy.Parallel.{Accumulates, sorted_keys, sort_in}
use polars_logfmt.Lazy.Parallel.Batch.{read_unit_frame, unit_frames, parallel_batch}
use polars_logfmt.Lazy.Parallel.Lines.{lines_read}
use polars_logfmt.Lazy.Parallel.Rows.{
  heights, columns_shape, shape_under, AllShaped, KeepsColumns, IsRead, taken, parallel_batch-rows,
}

abbrev micros : ℕ → ℤ
micros t = pos t

-- Frames that are the names and the types of their columns, and their height.
abbrev Shape : Type 0
Shape = List (Bytes × DataType) × ℕ

abbrev rows_of_first : List (FrameColumn few_formats micros) → ℕ
rows_of_first [] = 0
rows_of_first (c ∷ columns) = length c.values

abbrev sum : List Shape → ℕ
sum [] = 0
sum ((columns, n) ∷ shapes) = n + sum shapes

abbrev same_type : DataType → DataType → Bool
same_type int64 int64 = true
same_type float64 float64 = true
same_type boolean boolean = true
same_type datetime datetime = true
same_type duration duration = true
same_type string string = true
same_type _ _ = false

abbrev same_columns : List (Bytes × DataType) → List (Bytes × DataType) → Bool
same_columns [] [] = true
same_columns [] (c ∷ columns) = false
same_columns (c ∷ columns) [] = false
same_columns ((name, t) ∷ columns) ((name', t') ∷ columns') =
    bytes_eq name name' && (same_type t t' && same_columns columns columns')

same_columns_refl : (columns : List (Bytes × DataType)) → same_columns columns columns ≡ true
same_columns_refl [] = refl
same_columns_refl ((name, t) ∷ columns) =
    ground (arith, bytes_eq_iff name name, same_columns_refl columns)

abbrev all_same : List (Bytes × DataType) → List Shape → Bool
all_same columns [] = true
all_same columns ((columns', n) ∷ shapes) = same_columns columns' columns && all_same columns shapes

-- Columns of other names or types do not stack.
abbrev stack : List Shape → Option Shape
stack [] = none
stack ((columns, n) ∷ shapes) =
    if all_same columns shapes then some (columns, n + sum shapes) else none

abbrev shape_in : List (FrameColumn few_formats micros) → List (Bytes × DataType)
shape_in [] = []
shape_in (c ∷ columns) = (c.name, c.dtype) ∷ shape_in columns

abbrev shapes : Accumulates few_formats micros
shapes = record {
  DataFrame = Shape;
  new_infer_height = λ columns. some (shape_in columns, rows_of_first columns);
  default_frame = ([], 0);
  width = λ df. length df.0;
  height = λ df. df.1;
  apply_pushdown = λ df. some df;
  accumulate_dataframes_vertical = stack;
}

shape_of :
    (n : ℕ) (schema : Option Schema) (columns : List (FrameColumn few_formats micros))
    → AreColumns few_formats micros n schema columns
    → 0 < length columns
    → (rows_of_first columns ≡ n) × (0 < length (shape_in columns))
shape_of n schema [] even some_column = absurd (omega (arith, some_column))
shape_of n schema (c ∷ columns) (high, typed, even) some_column = (high, omega arith)

heights-sum : (dfs : List Shape) → sum dfs ≡ heights few_formats micros shapes dfs
heights-sum [] = refl
heights-sum ((keys, n) ∷ dfs) = omega (arith, heights-sum dfs)

shape_in-columns_shape :
    (columns : List (FrameColumn few_formats micros))
    → shape_in columns ≡ columns_shape few_formats micros shapes columns
shape_in-columns_shape [] = refl
shape_in-columns_shape (c ∷ columns) = ap (◌∷◌ (c.name, c.dtype)) (shape_in-columns_shape columns)

all_same-AllShaped :
    (shape : List (Bytes × DataType)) (dfs : List Shape)
    → AllShaped few_formats micros shapes (λ df. df.0) shape dfs
    → all_same shape dfs ≡ true
all_same-AllShaped shape [] are = refl
all_same-AllShaped shape ((columns, n) ∷ dfs) (is, are) =
    rw
      (
        ap (λ c. same_columns c shape) is ∙ same_columns_refl shape,
        all_same-AllShaped shape dfs are,
      )
      refl

shapes-KeepsColumns : KeepsColumns few_formats micros shapes
shapes-KeepsColumns = record {
  shape_of = λ df. df.0;
  made = λ n schema columns distinct even some_column.
      let (high, wide) = shape_of n schema columns even some_column in
      ((shape_in columns, rows_of_first columns), refl, high, wide, shape_in-columns_shape columns);
  unfiltered = λ df. refl;
  stacked = λ shape df dfs (is_shaped, are_shaped). (
    (df.0, df.1 + sum dfs),
    rw (ap (λ c. all_same c dfs) is_shaped ∙ all_same-AllShaped shape dfs are_shaped) refl,
    ap (λ n. df.1 + n) (heights-sum dfs),
    is_shaped,
  );
}

abbrev units : UnitSource
units zero = some (some (codes "a=1"))
units (suc zero) = some (some (codes "a=2" ++ b'\n' ∷ b'\n' ∷ codes "a=3"))
units _ = some none

abbrev read_unit_at : FrameRange → ℕ → ℕ × FrameRead
read_unit_at range handle = (handle, read_unit_frame units range)

abbrev begun : LogFmtReaderState
begun = record { reader = none; offset = 0; finished = false }

abbrev unit_range : ℕ → FrameRange
unit_range idx = record {
  idx = idx;
  start = 0;
  len = 0;
  is_zst = false;
  comp_start = 0;
  comp_len = 0;
}

abbrev IsReadHere : ℕ → Type 0
IsReadHere w =
    IsRead few_formats micros shapes shapes-KeepsColumns read_unit_at (λ v. some v) none
      (codes "a" ∷ []) w (unit_range w ∷ [])

first_worker-IsRead : IsReadHere 0
unfolding lines_read read_unit_frame split_lines is_utf8 is_accepted trim
    handle_parse_logfmt_line_with_schema_base get parse_logfmt_line insert parse_value i64_from_str
    sorted_keys sort_in
first_worker-IsRead = record {
  handle = 0;
  lines = codes "a=1" ∷ [];
  first = codes "a=1";
  later = [];
  call = (codes "a", codes "1");
  calls = [];
  row = (codes "a", ParsedValue.integer (pos 1)) ∷ [];
  cloned = refl;
  read = refl;
  utf8 = (refl, tt);
  starts = refl;
  scanned = refl;
  distinct = (refl, tt);
  scanned_later = tt;
  parsed = refl;
  has_keys = refl;
}

second_worker-IsRead : IsReadHere 1
unfolding lines_read read_unit_frame split_lines is_utf8 is_accepted trim
    handle_parse_logfmt_line_with_schema_base get parse_logfmt_line insert parse_value i64_from_str
    sorted_keys sort_in
second_worker-IsRead = record {
  handle = 1;
  lines = (codes "a=2" ++ b'\n' ∷ []) ∷ (b'\n' ∷ []) ∷ codes "a=3" ∷ [];
  first = codes "a=2" ++ b'\n' ∷ [];
  later = codes "a=3" ∷ [];
  call = (codes "a", codes "2");
  calls = [];
  row = (codes "a", ParsedValue.integer (pos 2)) ∷ [];
  cloned = refl;
  read = refl;
  utf8 = (refl, (refl, (refl, tt)));
  starts = refl;
  scanned = refl;
  distinct = (refl, tt);
  scanned_later = (((codes "a", codes "3") ∷ [], refl, (refl, tt)), tt);
  parsed = refl;
  has_keys = refl;
}

two_slices :
    worker_slices 2 (unit_frames 2 0) ≡ some ((unit_range 0 ∷ []) ∷ (unit_range 1 ∷ []) ∷ [])
unfolding worker_slices unit_frames
two_slices = refl

parallel_batch-rows_example :
    (df : Shape) × (parallel_batch few_formats micros shapes read_unit_at
        (λ v. some v)
        none
        true
        (λ (probe : ℕ). some (some ((codes "a", SchemaField.integer) ∷ [])))
        2
        (some (unit_frames 2 0, 0))
        none
        begun
      ≡ some
          (record begun { finished = true }, some ((codes "a", SchemaField.integer) ∷ []), some df))
    × (df.1
        ≡ taken few_formats micros shapes shapes-KeepsColumns read_unit_at
            (λ v. some v)
            none
            (codes "a" ∷ [])
            0
            ((unit_range 0 ∷ []) ∷ (unit_range 1 ∷ []) ∷ [])
            (first_worker-IsRead, (second_worker-IsRead, tt)))
    × (shapes-KeepsColumns.shape_of df
        ≡ shape_under few_formats micros shapes
            ((codes "a", SchemaField.integer) ∷ [])
            (codes "a" ∷ []))
parallel_batch-rows_example =
    parallel_batch-rows few_formats micros shapes shapes-KeepsColumns read_unit_at (λ v. some v)
      none (codes "a" ∷ []) (λ (probe : ℕ). some (some ((codes "a", SchemaField.integer) ∷ []))) 2
      (unit_frames 2 0) 0 none ((codes "a", SchemaField.integer) ∷ []) begun (unit_range 0 ∷ [])
      ((unit_range 1 ∷ []) ∷ []) refl two_slices (first_worker-IsRead, (second_worker-IsRead, tt))
