-- ===== src/Lazy/Table/Keys.antt =====
-- The keys of a batch, in the order of a `BTreeSet`: each stands once.
use polars_logfmt.Prelude.{
  List, [], ◌∷◌, ◌≡◌, refl, sym, ap, ◌∙◌, subst, true, false, some, inl, inr, Bool-cases, arith,
}
use polars_logfmt.Text.{Bytes, bytes_eq, bytes_eq_iff}
use polars_logfmt.Logfmt.Formats.{Formats}
use polars_logfmt.Logfmt.Value.{Schema}
use polars_logfmt.Logfmt.Rows.{Row}
use polars_logfmt.Lazy.Batch.{contains_key}
use polars_logfmt.Lazy.Columns.Finish.Ready.{AllDistinct}
use polars_logfmt.Lazy.Table.{
  Casts, text_lt, insert_key, extend_keys, all_keys, columns_of, rows_to_dataframe_filled,
}
use polars_logfmt.Lazy.Table.Shape.{names, columns_of-AreHigh}

text_lt-same : (a : Bytes) → text_lt a a ≡ false
text_lt-same [] = refl
text_lt-same (x ∷ xs) = ground (arith, text_lt-same xs)

text_lt_trans : (a b c : Bytes) → text_lt a b ≡ true → text_lt b c ≡ true → text_lt a c ≡ true
text_lt_trans a b [] lt lt' = cc
text_lt_trans a [] (z ∷ zs) lt lt' = cc
text_lt_trans [] (y ∷ ys) (z ∷ zs) lt lt' = refl
text_lt_trans (x ∷ xs) (y ∷ ys) (z ∷ zs) lt lt' =
    let rest : text_lt xs ys ≡ true → text_lt ys zs ≡ true → text_lt xs zs ≡ true =
      text_lt_trans xs ys zs in
    ground (arith, lt, lt', rest)

text_lt_total : (a b : Bytes) → bytes_eq a b ≡ false → text_lt b a ≡ false → text_lt a b ≡ true
text_lt_total [] [] ne ge = cc
text_lt_total [] (y ∷ ys) ne ge = refl
text_lt_total (x ∷ xs) [] ne ge = cc
text_lt_total (x ∷ xs) (y ∷ ys) ne ge =
    let rest : bytes_eq xs ys ≡ false → text_lt ys xs ≡ false → text_lt xs ys ≡ true =
      text_lt_total xs ys in
    ground (arith, ne, ge, rest)

abbrev Above : Bytes → List Bytes → Type 0
Above k [] = Unit {0}
Above k (j ∷ keys) = (text_lt k j ≡ true) × Above k keys

abbrev Ascending : List Bytes → Type 0
Ascending [] = Unit {0}
Ascending (k ∷ keys) = Above k keys × Ascending keys

Above-trans : (i k : Bytes) (keys : List Bytes) → text_lt i k ≡ true → Above k keys → Above i keys
Above-trans i k [] lt above = tt
Above-trans i k (j ∷ keys) lt (here, above) =
    (text_lt_trans i k j lt here, Above-trans i k keys lt above)

insert_key-Above :
    (i k : Bytes) (keys : List Bytes)
    → text_lt i k ≡ true
    → Above i keys
    → Above i (insert_key k keys)
unfolding insert_key
insert_key-Above i k [] lt above = (lt, tt)
insert_key-Above i k (key ∷ keys) lt (here, above) = elim (Bool-cases (bytes_eq key k)) [
  | inl same ↦ rw same (here, above)
  | inr other ↦ elim (Bool-cases (text_lt k key)) [
    | inl before ↦ rw (other, before) (lt, (here, above))
    | inr behind ↦ rw (other, behind) (here, insert_key-Above i k keys lt above)
  ]
]

insert_key-Ascending :
    (k : Bytes) (keys : List Bytes) → Ascending keys → Ascending (insert_key k keys)
unfolding insert_key
insert_key-Ascending k [] ascending = (tt, tt)
insert_key-Ascending k (key ∷ keys) (above, ascending) = elim (Bool-cases (bytes_eq key k)) [
  | inl same ↦ rw same (above, ascending)
  | inr other ↦ elim (Bool-cases (text_lt k key)) [
    | inl before ↦
        rw (other, before) ((before, Above-trans k key keys before above), (above, ascending))
    | inr behind ↦
        rw (other, behind)
          (
            insert_key-Above key k keys (text_lt_total key k other behind) above,
            insert_key-Ascending k keys ascending,
          )
  ]
]

Above-absent : (k : Bytes) (keys : List Bytes) → Above k keys → contains_key keys k ≡ false
Above-absent k [] above = refl
Above-absent k (j ∷ keys) (here, above) = elim (Bool-cases (bytes_eq j k)) [
  | inl same ↦
      let is : j ≡ k = (bytes_eq_iff j k).0 same in
      let below : text_lt k k ≡ true = ap (text_lt k) (sym is) ∙ here in
      absurd (ground (arith, below, text_lt-same k))
  | inr other ↦ rw other (Above-absent k keys above)
]

Ascending-AllDistinct : (keys : List Bytes) → Ascending keys → AllDistinct keys
Ascending-AllDistinct [] ascending = tt
Ascending-AllDistinct (k ∷ keys) (above, ascending) =
    (Above-absent k keys above, Ascending-AllDistinct keys ascending)

module _ (fmt : Formats) (casts : Casts fmt) where
  extend_keys-Ascending :
      (row : Row fmt) (keys : List Bytes)
      → Ascending keys
      → Ascending (extend_keys fmt casts row keys)
  unfolding extend_keys
  extend_keys-Ascending [] keys ascending = ascending
  extend_keys-Ascending ((k, v) ∷ row) keys ascending =
      extend_keys-Ascending row (insert_key k keys) (insert_key-Ascending k keys ascending)

  all_keys-Ascending :
      (rows : List (Row fmt)) (keys : List Bytes)
      → Ascending keys
      → Ascending (all_keys fmt casts rows keys)
  unfolding all_keys
  all_keys-Ascending [] keys ascending = ascending
  all_keys-Ascending (row ∷ rows) keys ascending =
      all_keys-Ascending rows (extend_keys fmt casts row keys)
        (extend_keys-Ascending row keys ascending)

  -- The columns of a batch have different names.
  pub rows_to_dataframe_filled-AllDistinct :
      (rows : List (Row fmt)) (schema : Schema)
      → AllDistinct (names fmt casts (rows_to_dataframe_filled fmt casts rows (some schema)))
  unfolding rows_to_dataframe_filled
  rows_to_dataframe_filled-AllDistinct rows schema =
      let (same, high) =
        columns_of-AreHigh fmt casts (some schema) rows (all_keys fmt casts rows []) in
      subst AllDistinct (sym same)
        (Ascending-AllDistinct (all_keys fmt casts rows []) (all_keys-Ascending rows [] tt))

  pub rows_to_dataframe_filled-nil :
      (schema : Schema) → rows_to_dataframe_filled fmt casts [] (some schema) ≡ []
  unfolding rows_to_dataframe_filled all_keys columns_of
  rows_to_dataframe_filled-nil schema = refl
