-- ===== src/Lazy/Table/Texts.antt =====
-- `rows_to_dataframe` of polars-logfmt/src/stream.rs: the columns of rows as texts.
use polars_logfmt.Prelude.{
  List, [], ◌∷◌, ◌≡◌, refl, ap, ◌∙◌, Option, none, some, inl, inr, Bool-cases, if◌then◌else◌,
}
use polars_logfmt.Text.{Bytes, bytes_eq, bytes_eq_iff}
use polars_logfmt.Maps.{get}
use polars_logfmt.Logfmt.Formats.{Formats}
use polars_logfmt.Logfmt.Value.{ParsedValue, as_string}
use polars_logfmt.Logfmt.Rows.{Row}
use polars_logfmt.Lazy.Batch.{contains_key}
use polars_logfmt.Lazy.Table.{Casts, all_keys, collect}
use polars_logfmt.Lazy.Table.Shape.{any_has_key, keys-of_rows}

module _ (fmt : Formats) (casts : Casts fmt) where
  abbrev pub text_cell : Option (ParsedValue fmt) → Option Bytes
  text_cell none = none
  text_cell (some v) = some (as_string fmt v)

  pub text_columns_of : List (Row fmt) → List Bytes → List (Bytes × List (Option Bytes))
  text_columns_of rows [] = []
  text_columns_of rows (key ∷ keys) =
      (key, collect fmt casts text_cell key rows) ∷ text_columns_of rows keys

  unfoldable pub rows_to_dataframe : List (Row fmt) → List (Bytes × List (Option Bytes))
  unfolding text_columns_of
  rows_to_dataframe rows = text_columns_of rows (all_keys fmt casts rows [])

  -- The texts of the values under a key, a null where a row has none.
  abbrev pub texts_under : Bytes → List (Row fmt) → List (Option Bytes)
  texts_under key [] = []
  texts_under key (row ∷ rows) = text_cell (get key row) ∷ texts_under key rows

  collect-texts :
      (key : Bytes) (rows : List (Row fmt))
      → collect fmt casts text_cell key rows ≡ texts_under key rows
  unfolding collect
  collect-texts key [] = refl
  collect-texts key (row ∷ rows) = ap (◌∷◌ (text_cell (get key row))) (collect-texts key rows)

  get-text_columns_of :
      (rows : List (Row fmt)) (keys : List Bytes) (key : Bytes)
      → get key (text_columns_of rows keys)
        ≡ (if contains_key keys key then some (texts_under key rows) else none)
  unfolding text_columns_of get
  get-text_columns_of rows [] key = refl
  get-text_columns_of rows (k ∷ keys) key = elim (Bool-cases (bytes_eq k key)) [
    | inl same ↦
        let is : k ≡ key = (bytes_eq_iff k key).0 same in
        rw same (ap some (ap (λ j. collect fmt casts text_cell j rows) is ∙ collect-texts key rows))
    | inr other ↦ rw other (get-text_columns_of rows keys key)
  ]

-- The frame of texts of some rows has a column under a key just if a row has a value under it, and the column has
-- for each row, in their order, the text of its value under the key, or a null where it has none.
pub rows_to_dataframe-get :
    (fmt : Formats) (casts : Casts fmt) (rows : List (Row fmt)) (key : Bytes)
    → get key (rows_to_dataframe fmt casts rows)
      ≡ (if any_has_key fmt casts rows key then some (texts_under fmt casts key rows) else none)
unfolding rows_to_dataframe
rows_to_dataframe-get fmt casts rows key =
    get-text_columns_of fmt casts rows (all_keys fmt casts rows []) key
    ∙ ap (λ b. if b then some (texts_under fmt casts key rows) else none)
        (keys-of_rows fmt casts rows key)
