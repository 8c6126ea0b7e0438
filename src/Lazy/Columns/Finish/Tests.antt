-- ===== src/Lazy/Columns/Finish/Tests.antt =====
-- Two lines and the wanted keys of the first.
use polars_logfmt.Prelude.{
  true, ◌≡◌, refl, List, [], ◌∷◌, Option, none, some, arith, Bool-cases, inl, inr,
}
use polars_logfmt.Text.{Bytes, bytes_eq, codes}
use polars_logfmt.Text.Utf8.{is_utf8}
use polars_logfmt.Maps.{get, Distinct}
use polars_logfmt.Logfmt.Samples.{few_formats}
use polars_logfmt.Logfmt.Integers.{pos, i64_from_str}
use polars_logfmt.Logfmt.Scan.{Pair, handle_parse_logfmt_line_with_schema_base, ◌>>=◌}
use polars_logfmt.Logfmt.Value.{Schema, SchemaField}
use polars_logfmt.Lazy.Batch.{contains_key}
use polars_logfmt.Lazy.Columns.{
  int64, string, i64, text, DataFrameMaker, push_line_to_column_mutable_array,
}
use polars_logfmt.Lazy.Columns.Finish.{FrameColumn, push_lines, to_df, build}
use polars_logfmt.Lazy.Columns.Finish.Ready.{names, AreColumns}
use polars_logfmt.Lazy.Columns.Finish.Run.{AreScanned, push_lines-to_df}

abbrev typed : Option Schema
typed = some ((codes "a", SchemaField.integer) ∷ [])

abbrev pairs : List Pair
pairs = (codes "a", codes "1") ∷ (codes "b", codes "x") ∷ []

pairs-scanned : handle_parse_logfmt_line_with_schema_base (codes "a=1 b=x") ≡ some pairs
unfolding handle_parse_logfmt_line_with_schema_base is_utf8
pairs-scanned = refl

pairs-Distinct : Distinct pairs
unfolding get
pairs-Distinct = (refl, (refl, tt))

later-AreScanned : AreScanned (codes "a=2" ∷ [])
unfolding handle_parse_logfmt_line_with_schema_base is_utf8 get
later-AreScanned = (((codes "a", codes "2") ∷ [], refl, (refl, tt)), tt)

wanted-carried :
    (key : Bytes)
    → contains_key (codes "a" ∷ codes "b" ∷ []) key ≡ true
    → (value : Bytes) × (get key pairs ≡ some value)
unfolding get
wanted-carried key wanted = elim (Bool-cases (bytes_eq (codes "a") key)) [
  | inl is_a ↦ (codes "1", rw is_a refl)
  | inr not_a ↦ elim (Bool-cases (bytes_eq (codes "b") key)) [
    | inl is_b ↦ (codes "x", rw (not_a, is_b) refl)
    | inr not_b ↦ absurd (ground (arith, wanted, not_a, not_b))
  ]
]

abbrev maker : DataFrameMaker few_formats (λ t. pos t)
maker = record (build few_formats (λ t. pos t) typed) { column_keys = codes "a" ∷ codes "b" ∷ [] }

push_lines-to_df_example :
    (m : DataFrameMaker few_formats (λ t. pos t)) × (m' : DataFrameMaker few_formats (λ t. pos t))
    × (columns : List (FrameColumn few_formats (λ t. pos t))) × (push_lines few_formats
          (λ t. pos t)
          (codes "a=1 b=x" ∷ codes "a=2" ∷ [])
          maker
        ≡ some m)
    × (to_df few_formats (λ t. pos t) m ≡ some (m', columns))
    × (names few_formats (λ t. pos t) columns ≡ codes "a" ∷ codes "b" ∷ [])
    × AreColumns few_formats (λ t. pos t) 2 typed columns
push_lines-to_df_example =
    push_lines-to_df few_formats (λ t. pos t) typed (codes "a") (codes "b" ∷ []) (codes "a=1 b=x")
      pairs (codes "a=2" ∷ []) pairs-scanned pairs-Distinct (refl, (refl, tt)) wanted-carried
      later-AreScanned

-- The second line has no `b`.
columns_of_two :
    (push_lines few_formats (λ t. pos t) (codes "a=1 b=x" ∷ codes "a=2" ∷ []) maker >>= λ m.
    to_df few_formats (λ t. pos t) m >>= λ r. some r.1)
    ≡ some (
        (record {
          name = codes "a";
          dtype = int64;
          values = some (i64 (pos 1)) ∷ some (i64 (pos 2)) ∷ [];
        })
        ∷ (record {
          name = codes "b";
          dtype = string;
          values = some (text (codes "x")) ∷ none ∷ [];
        })
        ∷ [])
unfolding push_lines to_df build push_line_to_column_mutable_array
    handle_parse_logfmt_line_with_schema_base is_utf8 get i64_from_str
columns_of_two = refl
