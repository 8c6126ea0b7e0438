-- ===== src/Lazy/Columns/Finish.antt =====
-- `mutal_array_to_to_columns` and `to_df` of `DataFrameMaker` in the mode of the parallel scan: the builders
-- become the columns of a frame.
pub mod Ready
pub mod Shape
pub mod Grow
pub mod Run
mod Tests
use polars_logfmt.Prelude.{ℕ, List, [], ◌∷◌, ◌++◌, Option, none, some, get_elem?, if◌then◌else◌}
use polars_logfmt.Text.{Bytes}
use polars_logfmt.Logfmt.Formats.{Formats}
use polars_logfmt.Logfmt.Integers.{ℤ}
use polars_logfmt.Logfmt.Scan.{◌>>=◌}
use polars_logfmt.Logfmt.Value.{Schema}
use polars_logfmt.Lazy.Batch.{contains_key}
use polars_logfmt.Lazy.Columns.{
  DataType, int64, float64, boolean, datetime, duration, string, ColumnInfo, Builder, Arrays,
  array_of, with_array, position, set_at, DataFrameMaker, push_line_to_column_mutable_array,
}

-- The type of the series that a builder gives: the microseconds of a duration stay integers.
abbrev pub series_type : DataType → DataType
series_type int64 = int64
series_type float64 = float64
series_type boolean = boolean
series_type datetime = datetime
series_type duration = int64
series_type string = string

module _ (fmt : Formats) (timestamp_micros : fmt.DateTime → ℤ) where
  pub record FrameColumn : Type 0 where
    pub name : Bytes
    pub dtype : DataType
    pub values : Builder fmt timestamp_micros

  -- The variables of the loop over `column_keys`; `taken` are the keys whose builders have been replaced
  -- by empty ones without a name.
  pub record Finished : Type 0 where
    pub arrays : Arrays fmt timestamp_micros
    pub taken : List Bytes
    pub columns : List FrameColumn

  -- The column of a builder; `none` is the panic of an index out of range.
  pub finish_column : ColumnInfo → Finished → Option Finished
  finish_column ci f =
      get_elem? (array_of fmt timestamp_micros ci.data_type f.arrays) ci.index >>= λ b.
      set_at ci.index [] (array_of fmt timestamp_micros ci.data_type f.arrays) >>= λ bs.
      some (record {
        arrays = with_array fmt timestamp_micros ci.data_type bs f.arrays;
        taken = ci.name ∷ f.taken;
        columns =
            f.columns
            ++ (record {
              name = if contains_key f.taken ci.name then [] else ci.name;
              dtype = series_type ci.data_type;
              values = b;
            })
              ∷ [];
      })

  abbrev pub finish_at : List ColumnInfo → Finished → Option ℕ → Option Finished
  finish_at infos f none = some f
  finish_at infos f (some at) = get_elem? infos at >>= λ ci. finish_column ci f

  pub finish_keys : List ColumnInfo → List Bytes → Finished → Option Finished
  finish_keys infos [] f = some f
  finish_keys infos (key ∷ keys) f =
      finish_at infos f (position key infos) >>= finish_keys infos keys

  -- The columns of the frame, which Polars refuses if they are not equally long, or two have one name.
  unfoldable pub to_df :
      DataFrameMaker fmt timestamp_micros
      → Option (DataFrameMaker fmt timestamp_micros × List FrameColumn)
  unfolding finish_column finish_keys set_at
  to_df m =
      finish_keys m.column_infos m.column_keys
        (record { arrays = m.arrays; taken = []; columns = [] })
      >>= λ f. some (record m { arrays = f.arrays }, f.columns)

  -- `DataFrameMakerBuilder::build`
  unfoldable pub build : Option Schema → DataFrameMaker fmt timestamp_micros
  build schema = record {
    schema = schema;
    column_keys = [];
    column_infos = [];
    row_seen = [];
    rows_pushed = 0;
    arrays = record {
      array_i64s = [];
      array_timestamps = [];
      array_duration = [];
      array_f64s = [];
      array_bools = [];
      array_strings = [];
    };
  }

  -- `push_line` for each line.
  unfoldable pub push_lines :
      List Bytes
      → DataFrameMaker fmt timestamp_micros
      → Option (DataFrameMaker fmt timestamp_micros)
  unfolding push_line_to_column_mutable_array
  push_lines [] m = some m
  push_lines (line ∷ lines) m =
      push_line_to_column_mutable_array fmt timestamp_micros line m >>= push_lines lines
