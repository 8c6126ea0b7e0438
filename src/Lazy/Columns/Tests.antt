-- ===== src/Lazy/Columns/Tests.antt =====
-- Lines pushed on concrete columns.
use polars_logfmt.Prelude.{ℕ, ◌+◌, ◌≡◌, refl, List, [], ◌∷◌, inl, Option, some, length}
use polars_logfmt.Text.{codes}
use polars_logfmt.Text.Utf8.{is_utf8}
use polars_logfmt.Maps.{get, Distinct}
use polars_logfmt.Logfmt.Samples.{few_formats}
use polars_logfmt.Logfmt.Integers.{pos, i64_from_str}
use polars_logfmt.Logfmt.Scan.{Pair, handle_parse_logfmt_line_with_schema_base, ◌>>=◌}
use polars_logfmt.Logfmt.Value.{SchemaField}
use polars_logfmt.Lazy.Columns.{DataFrameMaker, push_line_to_column_mutable_array}
use polars_logfmt.Lazy.Columns.Lines.{Admits}
use polars_logfmt.Lazy.Columns.Whole.{IsEven, push_line-IsEven}

abbrev empty : DataFrameMaker few_formats (λ t. pos t)
empty = record {
  schema = some ((codes "a", SchemaField.integer) ∷ []);
  column_keys = [];
  column_infos = [];
  row_seen = [];
  rows_pushed = 0;
  arrays = record {
    array_i64s = [];
    array_timestamps = [];
    array_duration = [];
    array_f64s = [];
    array_bools = [];
    array_strings = [];
  };
}

abbrev pairs : List Pair
pairs = (codes "a", codes "1") ∷ (codes "b", codes "x") ∷ []

pairs-scanned : handle_parse_logfmt_line_with_schema_base (codes "a=1 b=x") ≡ some pairs
unfolding handle_parse_logfmt_line_with_schema_base is_utf8
pairs-scanned = refl

pairs-Distinct : Distinct pairs
unfolding get
pairs-Distinct = (refl, (refl, tt))

pairs-Admits : Admits 0 [] [] pairs
pairs-Admits = ((λ wanted. inl refl), ((λ wanted. inl refl), tt))

empty-IsEven : IsEven few_formats (λ t. pos t) empty
unfolding IsEven
empty-IsEven = tt

push_line-IsEven_example :
    (m : DataFrameMaker few_formats (λ t. pos t)) × (push_line_to_column_mutable_array few_formats
        (λ t. pos t)
        (codes "a=1 b=x")
        empty
      ≡ some m)
    × IsEven few_formats (λ t. pos t) m
    × (m.rows_pushed ≡ empty.rows_pushed + 1)
push_line-IsEven_example =
    push_line-IsEven few_formats (λ t. pos t) empty (codes "a=1 b=x") pairs pairs-scanned
      pairs-Distinct pairs-Admits empty-IsEven

abbrev lengths : DataFrameMaker few_formats (λ t. pos t) → Option (List ℕ)
lengths m = some (count m.arrays.array_i64s)
  where
    count : {A : Type 0} → List (List A) → List ℕ
    count [] = []
    count (b ∷ bs) = length b ∷ count bs

-- One line with a key twice gives its column two rows.
twice :
    (push_line_to_column_mutable_array few_formats (λ t. pos t) (codes "a=1 a=2") empty >>= lengths)
    ≡ some (2 ∷ [])
unfolding push_line_to_column_mutable_array handle_parse_logfmt_line_with_schema_base is_utf8 get
    i64_from_str
twice = refl
