-- ===== src/Lazy/Columns.antt =====
-- `DataFrameMaker` of polars-logfmt/src/lazy/lazy_logfmt_reader.rs in the mode of the parallel scan: the
-- builders of the columns, and what a line does to them.
pub mod Slots
pub mod Even
pub mod Push
pub mod Lines
pub mod Whole
mod Tests
pub mod Nulls
pub mod Finish
use polars_logfmt.Prelude.{
  ℕ, zero, suc, ◌+◌, ◌-◌, ◌*◌, ◌/◌, ◌%◌, ◌^◌, Bool, true, false, not, ◌&&◌, ◌||◌, List, [], ◌∷◌,
  ◌++◌, Option, none, some, ltb, ◌==◌, if◌then◌else◌, length, get_elem?,
}
use polars_logfmt.Text.{Bytes, bytes_eq}
use polars_logfmt.Maps.{get}
use polars_logfmt.Lazy.Batch.{contains_key}
use polars_logfmt.Logfmt.Formats.{Formats, Duration}
use polars_logfmt.Logfmt.Integers.{ℤ, pos, negsuc, i64_from_str}
use polars_logfmt.Logfmt.Scan.{Pair, handle_parse_logfmt_line_with_schema_base, ◌>>=◌}
use polars_logfmt.Logfmt.Value.{SchemaField, Schema, is_true_word, unwrap_or}

-- The types of `DataType` that a column is made with here.
pub data DataType : Type 0 where
  int64 float64 boolean datetime duration string : DataType

pub record ColumnInfo : Type 0 where
  pub name : Bytes
  pub data_type : DataType
  pub index : ℕ

-- `d.as_secs() as i64 * 1_000_000 + d.subsec_micros() as i64`, with the wrap-around of a release build.
abbrev pub as_i64 : ℕ → ℤ
as_i64 n = let m : ℕ = n % 2 ^ 64 in if ltb m (2 ^ 63) then pos m else negsuc (2 ^ 64 - 1 - m)

abbrev pub duration_micros : Duration → ℤ
duration_micros d = as_i64 (d.secs * 1000000 + d.nanos / 1000)

-- What a builder holds; a builder is the list of what was appended, with `none` for a null.
pub data Cell (fmt : Formats) : Type 0 where
  i64 timestamp micros : ℤ → Cell fmt
  f64 : fmt.F64 → Cell fmt
  bool : Bool → Cell fmt
  text : Bytes → Cell fmt

-- `position`
abbrev pub position : Bytes → List ColumnInfo → Option ℕ
position key [] = none
position key (ci ∷ infos) =
    if bytes_eq ci.name key
    then some 0
    else elim (position key infos) [ none ↦ none | some i ↦ some (suc i) ]

-- `xs[i] = x`; `none` is the panic.
pub set_at {ℓ} : {A : Type ℓ} → ℕ → A → List A → Option (List A)
set_at i x [] = none
set_at zero x (y ∷ xs) = some (x ∷ xs)
set_at (suc i) x (y ∷ xs) = elim (set_at i x xs) [ none ↦ none | some xs' ↦ some (y ∷ xs') ]

abbrev pub type_of : Option SchemaField → DataType
type_of (some SchemaField.string) = string
type_of (some SchemaField.integer) = int64
type_of (some SchemaField.float) = float64
type_of (some SchemaField.boolean) = boolean
type_of (some SchemaField.date_time) = datetime
type_of (some SchemaField.duration) = duration
type_of (some SchemaField.auto) = string
type_of none = string

abbrev pub field_in : Option Schema → Bytes → Option SchemaField
field_in none key = none
field_in (some schema) key = get key schema

-- The columns that are asked for, if any are.
abbrev pub is_wanted : List Bytes → Bytes → Bool
is_wanted [] key = true
is_wanted (k ∷ column_keys) key = contains_key (k ∷ column_keys) key

module _ (fmt : Formats) (timestamp_micros : fmt.DateTime → ℤ) where
  abbrev pub Builder : Type 0
  Builder = List (Option (Cell fmt))

  pub record Arrays : Type 0 where
    pub array_i64s : List Builder
    pub array_timestamps : List Builder
    pub array_duration : List Builder
    pub array_f64s : List Builder
    pub array_bools : List Builder
    pub array_strings : List Builder

  abbrev pub array_of : DataType → Arrays → List Builder
  array_of int64 a = a.array_i64s
  array_of float64 a = a.array_f64s
  array_of boolean a = a.array_bools
  array_of datetime a = a.array_timestamps
  array_of duration a = a.array_duration
  array_of string a = a.array_strings

  abbrev pub with_array : DataType → List Builder → Arrays → Arrays
  with_array int64 bs a = record a { array_i64s = bs }
  with_array float64 bs a = record a { array_f64s = bs }
  with_array boolean bs a = record a { array_bools = bs }
  with_array datetime bs a = record a { array_timestamps = bs }
  with_array duration bs a = record a { array_duration = bs }
  with_array string bs a = record a { array_strings = bs }

  -- `arr[ci.index].append…`; `none` is the panic of an index out of range.
  abbrev pub append_cell : Option (Cell fmt) → ColumnInfo → Arrays → Option Arrays
  append_cell cell ci a = get_elem? (array_of ci.data_type a) ci.index >>= λ builder.
      set_at ci.index (builder ++ cell ∷ []) (array_of ci.data_type a) >>= λ bs.
      some (with_array ci.data_type bs a)

  abbrev pub append_null_to_column_array : ColumnInfo → Arrays → Option Arrays
  append_null_to_column_array = append_cell none

  -- The new index and the arrays with an empty builder behind.
  abbrev pub base_append_column_arrays : DataType → Arrays → ℕ × Arrays
  base_append_column_arrays data_type a =
      let bs : List Builder = array_of data_type a in
      (length bs, with_array data_type (bs ++ [] ∷ []) a)

  -- The value that a text gives a builder of a type.
  abbrev pub cell_of : DataType → Bytes → Cell fmt
  cell_of int64 value = i64 (unwrap_or (pos 0) (i64_from_str value))
  cell_of float64 value = f64 (unwrap_or fmt.f64_zero (fmt.f64_from_str value))
  cell_of boolean value = bool (is_true_word value)
  cell_of datetime value = elim (fmt.parse_from_rfc3339 value) [
    | none ↦ timestamp (pos 0)
    | some dt ↦ timestamp (timestamp_micros dt)
  ]
  cell_of duration value = elim (fmt.parse_duration value) [
    | none ↦ micros (pos 0)
    | some d ↦ micros (duration_micros d)
  ]
  cell_of string value = text value

  -- The variables of `push_line_to_column_mutable_array`.
  pub record Line : Type 0 where
    pub column_infos : List ColumnInfo
    pub row_seen : List ℕ
    pub hits : ℕ
    pub arrays : Arrays

  -- From behind the search for the column.
  pub hit : ℕ → Bytes → ℕ → Line → Option Line
  hit row_id value at l = set_at at row_id l.row_seen >>= λ row_seen.
      get_elem? l.column_infos at >>= λ ci.
      append_cell (some (cell_of ci.data_type value)) ci l.arrays >>= λ arrays.
      some (record l { row_seen = row_seen; hits = l.hits + 1; arrays = arrays })

  -- The column of a key that is seen for the first time.
  pub new_column : Option Schema → Bytes → Line → Line
  new_column schema key l =
      let data_type : DataType = type_of (field_in schema key) in
      let (index, arrays) = base_append_column_arrays data_type l.arrays in
      record l {
        column_infos =
            l.column_infos ++ (record { name = key; data_type = data_type; index = index }) ∷ [];
        row_seen = l.row_seen ++ 0 ∷ [];
        arrays = arrays;
      }

  pub at_position : Option Schema → ℕ → Bytes → Bytes → Line → Option ℕ → Option Line
  at_position schema row_id key value l (some at) = hit row_id value at l
  at_position schema row_id key value l none =
      let l' : Line = new_column schema key l in hit row_id value (length l'.column_infos - 1) l'

  -- The callback.
  pub push_call : Option Schema → List Bytes → ℕ → Pair → Line → Option Line
  push_call schema column_keys row_id (key, value) l =
      if is_wanted column_keys key
      then at_position schema row_id key value l (position key l.column_infos)
      else some l

  pub push_calls : Option Schema → List Bytes → ℕ → List Pair → Line → Option Line
  push_calls schema column_keys row_id [] l = some l
  push_calls schema column_keys row_id (call ∷ calls) l =
      push_call schema column_keys row_id call l >>= push_calls schema column_keys row_id calls

  -- The nulls of the columns that the line did not carry.
  pub fill_nulls : ℕ → List ColumnInfo → List ℕ → Arrays → Option Arrays
  fill_nulls row_id (ci ∷ infos) (seen ∷ row_seen) a =
      (if seen == row_id then some a else append_null_to_column_array ci a)
      >>= fill_nulls row_id infos row_seen
  fill_nulls row_id _ _ a = some a

  pub record DataFrameMaker : Type 0 where
    pub schema : Option Schema
    pub column_keys : List Bytes
    pub column_infos : List ColumnInfo
    pub row_seen : List ℕ
    pub rows_pushed : ℕ
    pub arrays : Arrays

  pub end_line : DataFrameMaker → Line → Option DataFrameMaker
  end_line m l =
      let row_id : ℕ = m.rows_pushed + 1 in
      (if ltb l.hits (length l.column_infos)
        then fill_nulls row_id l.column_infos l.row_seen l.arrays
        else some l.arrays)
      >>= λ arrays. some (record m {
        column_infos = l.column_infos;
        row_seen = l.row_seen;
        rows_pushed = row_id;
        arrays = arrays;
      })

  pub push_pairs : DataFrameMaker → List Pair → Option DataFrameMaker
  push_pairs m calls =
      push_calls m.schema m.column_keys (m.rows_pushed + 1) calls (record {
        column_infos = m.column_infos;
        row_seen = m.row_seen;
        hits = 0;
        arrays = m.arrays;
      })
      >>= end_line m

  unfoldable pub push_line_to_column_mutable_array : Bytes → DataFrameMaker → Option DataFrameMaker
  unfolding hit new_column at_position push_call push_calls fill_nulls end_line push_pairs set_at
  push_line_to_column_mutable_array line m =
      handle_parse_logfmt_line_with_schema_base line >>= push_pairs m
