-- ===== src/TimeFilter/Ranges.antt =====
-- The filter on rows, and the filter on a frame of texts as `rows_to_dataframe` makes it.
use mathlib.Core.Option
use polars_logfmt.Prelude.{
  Bool, List, [], ◌∷◌, ◌≡◌, refl, ap, ◌∙◌, Option, none, some, if◌then◌else◌, inl, inr, Bool-cases,
}
use polars_logfmt.Text.{Bytes}
use polars_logfmt.Maps.{get}
use polars_logfmt.Logfmt.Formats.{Formats}
use polars_logfmt.Logfmt.Value.{ParsedValue}
use polars_logfmt.Logfmt.Rows.{Row}
use polars_logfmt.Lazy.Table.{Casts}
use polars_logfmt.Lazy.Table.Shape.{any_has_key}
use polars_logfmt.Lazy.Table.Texts.{
  text_cell, texts_under, rows_to_dataframe, rows_to_dataframe-get,
}
use polars_logfmt.TimeFilter.{
  AnyValue, string, other, is_between, time_of, keep, mask, row_in_time_range,
  filter_df_by_time_range,
}

-- The cells of a column of texts: a missing value is a null.
abbrev pub text_value : Option Bytes → AnyValue
text_value none = other
text_value (some text) = string text

abbrev pub text_values : List (Option Bytes) → List AnyValue
text_values [] = []
text_values (cell ∷ cells) = text_value cell ∷ text_values cells

-- `df.column`, in the frame that `rows_to_dataframe` makes of the rows.
abbrev pub text_column :
    (fmt : Formats) → Casts fmt → List (Row fmt) → Bytes → Option (List AnyValue)
text_column fmt casts rows name =
    Option.map text_values (get name (rows_to_dataframe fmt casts rows))

module _ (fmt : Formats) (le : fmt.DateTime → fmt.DateTime → Bool) (start end : fmt.DateTime) where
  keep-text_value :
      (casts : Casts fmt) (o : Option (ParsedValue fmt))
      → keep fmt le start end (text_value (text_cell fmt casts o))
        ≡ is_between fmt le start end (time_of fmt le o)
  unfolding keep
  keep-text_value casts none = refl
  keep-text_value casts (some v) = refl

  abbrev pub kept : Bytes → List (Row fmt) → List (Row fmt)
  kept column [] = []
  kept column (row ∷ rows) =
      if row_in_time_range fmt le row column start end
      then row ∷ kept column rows
      else kept column rows

-- `DataFrame::filter` on a frame that is its rows.
abbrev pub filter_rows {ℓ} : {A : Type ℓ} → List A → List Bool → List A
filter_rows [] _ = []
filter_rows (x ∷ xs) [] = []
filter_rows (x ∷ xs) (b ∷ bs) = let rest = filter_rows xs bs in if b then x ∷ rest else rest

-- On the rows of a frame of texts, where a row has a value in the column, the filter of the frame keeps just the
-- rows that the filter of a row accepts, in their order: a row with no value in the column, or one that is no
-- time, is dropped by both. Where no row has a value in the column, the filter of the frame keeps all rows.
pub filter_df_by_time_range-rows :
    (fmt : Formats) (casts : Casts fmt) (le : fmt.DateTime → fmt.DateTime → Bool)
    (start end : fmt.DateTime) (column : Bytes) (rows : List (Row fmt))
    → filter_df_by_time_range fmt le
        (text_column fmt casts)
        (λ df bs. some (filter_rows df bs))
        rows
        column
        start
        end
      ≡ some (if any_has_key fmt casts rows column then kept fmt le start end column rows else rows)
unfolding filter_df_by_time_range row_in_time_range
filter_df_by_time_range-rows fmt casts le start end column rows =
    ap
      (λ o.
        filter_df_by_time_range fmt le (λ df name. Option.map text_values o)
          (λ df bs. some (filter_rows df bs)) rows column start end)
      (rows_to_dataframe-get fmt casts rows column)
    ∙ elim (Bool-cases (any_has_key fmt casts rows column)) [
      | inl has ↦ rw has (ap some (go rows))
      | inr missing ↦ rw missing refl
    ]
  where
    go :
        (rows : List (Row fmt))
        → filter_rows rows (mask fmt le start end (text_values (texts_under fmt casts column rows)))
          ≡ kept fmt le start end column rows
    go [] = refl
    go (row ∷ rows) = rw (keep-text_value fmt le start end casts (get column row), go rows) refl
