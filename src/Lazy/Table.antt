-- ===== src/Lazy/Table.antt =====
-- `rows_to_dataframe_filled` of polars-logfmt/src/lazy.rs: the columns of a batch of rows.
pub mod Shape
pub mod Keys
pub mod Texts
pub mod Samples
mod Tests
use polars_logfmt.Prelude.{
  ℕ, Bool, true, false, ◌||◌, List, [], ◌∷◌, Option, none, some, ltb, ◌==◌, if◌then◌else◌,
}
use polars_logfmt.Text.{Bytes, bytes_eq, codes}
use polars_logfmt.Maps.{get}
use polars_logfmt.Logfmt.Formats.{Formats, Duration}
use polars_logfmt.Logfmt.Integers.{ℤ, pos, i64_from_str}
use polars_logfmt.Logfmt.Value.{
  ParsedValue, SchemaField, Schema, as_string, is_true_word, unwrap_or,
}
use polars_logfmt.Logfmt.Rows.{Row}
use polars_logfmt.Lazy.Infer.{field_of, same_field}
use polars_logfmt.Lazy.Columns.{duration_micros}

-- The conversions of Rust and chrono between values.
pub record Casts (fmt : Formats) : Type 0 where
  pub f64_to_i64 : fmt.F64 → ℤ
  pub i64_to_f64 : ℤ → fmt.F64
  pub duration_to_f64 : Duration → fmt.F64
  pub f64_one : fmt.F64
  pub f64_is_zero : fmt.F64 → Bool
  pub timestamp_micros : fmt.DateTime → ℤ

-- The `Ord` of `String`.
abbrev pub text_lt : Bytes → Bytes → Bool
text_lt _ [] = false
text_lt [] (b ∷ bs) = true
text_lt (a ∷ rest_a) (b ∷ rest_b) =
    let rest : Bool = text_lt rest_a rest_b in
    if ltb a b then true else if a == b then rest else false

-- `BTreeSet::insert`
pub insert_key : Bytes → List Bytes → List Bytes
insert_key k [] = k ∷ []
insert_key k (key ∷ keys) =
    let rest : List Bytes = insert_key k keys in
    if bytes_eq key k then key ∷ keys else if text_lt k key then k ∷ key ∷ keys else key ∷ rest

-- The names of `inferred_type`.
pub data InferredType : Type 0 where
  string int float bool datetime duration : InferredType

module _ (fmt : Formats) (casts : Casts fmt) where
  pub data Column : Type 0 where
    strings : List Bytes → Column
    ints : List ℤ → Column
    floats : List fmt.F64 → Column
    bools : List Bool → Column
    datetimes : List (Option ℤ) → Column

  pub extend_keys : Row fmt → List Bytes → List Bytes
  extend_keys [] keys = keys
  extend_keys ((k, v) ∷ row) keys = extend_keys row (insert_key k keys)

  pub all_keys : List (Row fmt) → List Bytes → List Bytes
  all_keys [] keys = keys
  all_keys (row ∷ rows) keys = all_keys rows (extend_keys row keys)

  abbrev is_of : SchemaField → Option (ParsedValue fmt) → Bool
  is_of field none = false
  is_of field (some v) = same_field (field_of fmt v) field

  -- `has_string` and so on, after the first pass.
  unfoldable pub has : SchemaField → Bytes → List (Row fmt) → Bool
  has field key [] = false
  has field key (row ∷ rows) = is_of field (get key row) || has field key rows

  unfoldable pub from_values : Bytes → List (Row fmt) → Option InferredType
  from_values key rows =
      if has SchemaField.date_time key rows
      then some datetime
      else if has SchemaField.duration key rows
      then some duration
      else if has SchemaField.string key rows
      then some string
      else if has SchemaField.float key rows
      then some float
      else if has SchemaField.integer key rows
      then some int
      else if has SchemaField.boolean key rows
      then some bool
      else none

  unfoldable pub inferred_type : Option SchemaField → Bytes → List (Row fmt) → Option InferredType
  inferred_type (some SchemaField.string) key rows = some string
  inferred_type (some SchemaField.integer) key rows = some int
  inferred_type (some SchemaField.float) key rows = some float
  inferred_type (some SchemaField.boolean) key rows = some bool
  inferred_type (some SchemaField.date_time) key rows = some datetime
  inferred_type (some SchemaField.duration) key rows = some duration
  inferred_type (some SchemaField.auto) key rows = from_values key rows
  inferred_type none key rows = from_values key rows

  abbrev pub string_cell : Option (ParsedValue fmt) → Bytes
  string_cell none = []
  string_cell (some v) = as_string fmt v

  abbrev pub int_cell : Option (ParsedValue fmt) → ℤ
  int_cell (some (ParsedValue.integer i)) = i
  int_cell (some (ParsedValue.float f)) = casts.f64_to_i64 f
  int_cell (some (ParsedValue.boolean b)) = if b then pos 1 else pos 0
  int_cell (some (ParsedValue.string s)) = unwrap_or (pos 0) (i64_from_str s)
  int_cell (some (ParsedValue.date_time t)) = pos 0
  int_cell (some (ParsedValue.duration d)) = duration_micros d
  int_cell none = pos 0

  abbrev pub float_cell : Option (ParsedValue fmt) → fmt.F64
  float_cell (some (ParsedValue.duration d)) = casts.duration_to_f64 d
  float_cell (some (ParsedValue.float f)) = f
  float_cell (some (ParsedValue.integer i)) = casts.i64_to_f64 i
  float_cell (some (ParsedValue.boolean b)) = if b then casts.f64_one else fmt.f64_zero
  float_cell (some (ParsedValue.string s)) = unwrap_or fmt.f64_zero (fmt.f64_from_str s)
  float_cell (some (ParsedValue.date_time t)) = fmt.f64_zero
  float_cell none = fmt.f64_zero

  abbrev is_zero : ℤ → Bool
  is_zero (pos n) = n == 0
  is_zero _ = false

  abbrev pub bool_cell : Option (ParsedValue fmt) → Bool
  bool_cell (some (ParsedValue.boolean b)) = b
  bool_cell (some (ParsedValue.integer i)) = if is_zero i then false else true
  bool_cell (some (ParsedValue.float f)) = if casts.f64_is_zero f then false else true
  bool_cell (some (ParsedValue.string s)) = is_true_word s || bytes_eq s (codes "1")
  bool_cell (some (ParsedValue.date_time t)) = false
  bool_cell (some (ParsedValue.duration d)) = false
  bool_cell none = false

  abbrev micros_of : Option fmt.DateTime → Option ℤ
  micros_of none = none
  micros_of (some t) = some (casts.timestamp_micros t)

  abbrev pub datetime_cell : Option (ParsedValue fmt) → Option ℤ
  datetime_cell (some (ParsedValue.date_time t)) = some (casts.timestamp_micros t)
  datetime_cell (some v) = micros_of (fmt.parse_from_rfc3339 (as_string fmt v))
  datetime_cell none = none

  -- `rows.iter().map(|row| … row.get(&key) …).collect()`
  unfoldable pub collect {ℓ} :
      {A : Type ℓ} → (Option (ParsedValue fmt) → A) → Bytes → List (Row fmt) → List A
  collect cell key [] = []
  collect cell key (row ∷ rows) = cell (get key row) ∷ collect cell key rows

  unfoldable pub column_of : Option InferredType → Bytes → List (Row fmt) → Column
  column_of (some string) key rows = strings (collect string_cell key rows)
  column_of (some int) key rows = ints (collect int_cell key rows)
  column_of (some float) key rows = floats (collect float_cell key rows)
  column_of (some bool) key rows = bools (collect bool_cell key rows)
  column_of (some datetime) key rows = datetimes (collect datetime_cell key rows)
  column_of (some duration) key rows = strings (collect string_cell key rows)
  column_of none key rows = strings (collect string_cell key rows)

  abbrev field_under : Option Schema → Bytes → Option SchemaField
  field_under none key = none
  field_under (some schema) key = get key schema

  pub columns_of : Option Schema → List (Row fmt) → List Bytes → List (Bytes × Column)
  columns_of schema rows [] = []
  columns_of schema rows (key ∷ keys) =
      (key, column_of (inferred_type (field_under schema key) key rows) key rows)
      ∷ columns_of schema rows keys

  -- Polars makes the frame of the columns, and refuses columns that are not equally long.
  unfoldable pub rows_to_dataframe_filled : List (Row fmt) → Option Schema → List (Bytes × Column)
  unfolding insert_key extend_keys all_keys has from_values inferred_type collect column_of
      columns_of
  rows_to_dataframe_filled rows schema = columns_of schema rows (all_keys rows [])
