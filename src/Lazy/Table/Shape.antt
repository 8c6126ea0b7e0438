-- ===== src/Lazy/Table/Shape.antt =====
-- The columns of a batch are its keys, each with a cell for each row.
use polars_logfmt.Prelude.{
  ℕ, Bool, true, false, ◌||◌, List, [], ◌∷◌, ◌≡◌, refl, ap, ◌∙◌, Option, none, some, length, arith,
}
use polars_logfmt.Text.{Bytes, bytes_eq, bytes_eq_iff}
use polars_logfmt.Logfmt.Formats.{Formats}
use polars_logfmt.Logfmt.Value.{ParsedValue, Schema}
use polars_logfmt.Logfmt.Rows.{Row}
use polars_logfmt.Lazy.Batch.{contains_key}
use polars_logfmt.Lazy.Table.{
  Casts, insert_key, InferredType, string, int, float, bool, datetime, duration, Column, strings,
  ints, floats, bools, datetimes, extend_keys, all_keys, collect, column_of, columns_of,
  rows_to_dataframe_filled,
}

insert_key-contains :
    (k j : Bytes) (keys : List Bytes)
    → contains_key (insert_key k keys) j ≡ (bytes_eq k j || contains_key keys j)
unfolding insert_key
insert_key-contains k j [] = refl
insert_key-contains k j (key ∷ keys) =
    ground (
      arith,
      insert_key-contains k j keys,
      bytes_eq_iff key k,
      bytes_eq_iff key j,
      bytes_eq_iff k j,
    )

module _ (fmt : Formats) (casts : Casts fmt) where
  abbrev pub has_key : Row fmt → Bytes → Bool
  has_key [] j = false
  has_key ((k, v) ∷ row) j = bytes_eq k j || has_key row j

  abbrev pub any_has_key : List (Row fmt) → Bytes → Bool
  any_has_key [] j = false
  any_has_key (row ∷ rows) j = has_key row j || any_has_key rows j

  extend_keys-contains :
      (row : Row fmt) (keys : List Bytes) (j : Bytes)
      → contains_key (extend_keys fmt casts row keys) j ≡ (has_key row j || contains_key keys j)
  unfolding extend_keys
  extend_keys-contains [] keys j = refl
  extend_keys-contains ((k, v) ∷ row) keys j =
      ground (arith, extend_keys-contains row (insert_key k keys) j, insert_key-contains k j keys)

  all_keys-contains :
      (rows : List (Row fmt)) (keys : List Bytes) (j : Bytes)
      → contains_key (all_keys fmt casts rows keys) j ≡ (any_has_key rows j || contains_key keys j)
  unfolding all_keys
  all_keys-contains [] keys j = refl
  all_keys-contains (row ∷ rows) keys j = ground (
    arith,
    all_keys-contains rows (extend_keys fmt casts row keys) j,
    extend_keys-contains row keys j,
  )

  length-collect {ℓ} :
      {A : Type ℓ} (cell : Option (ParsedValue fmt) → A) (key : Bytes) (rows : List (Row fmt))
      → length (collect fmt casts cell key rows) ≡ length rows
  unfolding collect
  length-collect cell key [] = refl
  length-collect cell key (row ∷ rows) = omega (arith, length-collect cell key rows)

  abbrev pub height : Column fmt casts → ℕ
  height (strings cells) = length cells
  height (ints cells) = length cells
  height (floats cells) = length cells
  height (bools cells) = length cells
  height (datetimes cells) = length cells

  height-column_of :
      (t : Option InferredType) (key : Bytes) (rows : List (Row fmt))
      → height (column_of fmt casts t key rows) ≡ length rows
  unfolding column_of
  height-column_of (some string) key rows = length-collect _ key rows
  height-column_of (some int) key rows = length-collect _ key rows
  height-column_of (some float) key rows = length-collect _ key rows
  height-column_of (some bool) key rows = length-collect _ key rows
  height-column_of (some datetime) key rows = length-collect _ key rows
  height-column_of (some duration) key rows = length-collect _ key rows
  height-column_of none key rows = length-collect _ key rows

  abbrev pub names : List (Bytes × Column fmt casts) → List Bytes
  names [] = []
  names ((name, column) ∷ columns) = name ∷ names columns

  abbrev pub AreHigh : ℕ → List (Bytes × Column fmt casts) → Type 0
  AreHigh n [] = Unit {0}
  AreHigh n ((name, column) ∷ columns) = (height column ≡ n) × AreHigh n columns

  pub columns_of-AreHigh :
      (schema : Option Schema) (rows : List (Row fmt)) (keys : List Bytes)
      → (names (columns_of fmt casts schema rows keys) ≡ keys)
        × AreHigh (length rows) (columns_of fmt casts schema rows keys)
  unfolding columns_of
  columns_of-AreHigh schema rows [] = (refl, tt)
  columns_of-AreHigh schema rows (key ∷ keys) =
      let (same, high) = columns_of-AreHigh schema rows keys in
      (ap (◌∷◌ key) same, (height-column_of _ key rows, high))

pub keys-of_rows :
    (fmt : Formats) (casts : Casts fmt) (rows : List (Row fmt)) (key : Bytes)
    → contains_key (all_keys fmt casts rows []) key ≡ any_has_key fmt casts rows key
keys-of_rows fmt casts rows key =
    all_keys-contains fmt casts rows [] key ∙ or_false (any_has_key fmt casts rows key)
  where
    or_false : (b : Bool) → (b || false) ≡ b
    or_false true = refl
    or_false false = refl

-- The frame of a batch has a column under a key just if a row of the batch has a value under it, and
-- every column has a cell for each row, so that the columns are equally long.
pub rows_to_dataframe_filled-shape :
    (fmt : Formats) (casts : Casts fmt) (rows : List (Row fmt)) (schema : Option Schema)
    → AreHigh fmt casts (length rows) (rows_to_dataframe_filled fmt casts rows schema)
      × ((key : Bytes)
          → contains_key (names fmt casts (rows_to_dataframe_filled fmt casts rows schema)) key
            ≡ any_has_key fmt casts rows key)
unfolding rows_to_dataframe_filled
rows_to_dataframe_filled-shape fmt casts rows schema =
    let (same, high) = columns_of-AreHigh fmt casts schema rows (all_keys fmt casts rows []) in
    (high, λ key. ap (λ keys. contains_key keys key) same ∙ keys-of_rows fmt casts rows key)
