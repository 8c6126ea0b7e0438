-- ===== src/Lazy/Parallel/Keys.antt =====
-- The keys that a worker takes from its first row.
use polars_logfmt.Prelude.{
  true, false, ◌||◌, List, [], ◌∷◌, ◌≡◌, refl, ap, subst, ◌∙◌, Option, none, some, arith,
  Option-cases, Bool-cases, inl, inr,
}
use polars_logfmt.Text.{Bytes, bytes_eq, bytes_eq_iff}
use polars_logfmt.Maps.{get, insert, get-insert, get-nil, Distinct, insert-Distinct}
use polars_logfmt.Logfmt.Formats.{Formats}
use polars_logfmt.Logfmt.Integers.{ℤ}
use polars_logfmt.Logfmt.Scan.{Pair, handle_parse_logfmt_line_with_schema_base}
use polars_logfmt.Logfmt.Rows.{
  Row, parse_logfmt_line, parse_logfmt_line_with_schema, handle_parse_logfmt_line_with_schema,
  parse_values, insert_all,
}
use polars_logfmt.Logfmt.Value.{ParsedValue, Schema, parse_value}
use polars_logfmt.Lazy.Batch.{contains_key}
use polars_logfmt.Lazy.Table.{text_lt}
use polars_logfmt.Lazy.Columns.Finish.Ready.{AllDistinct}
use polars_logfmt.Lazy.Parallel.{sort_in, sorted_keys}

sort_in-contains :
    (k j : Bytes) (keys : List Bytes)
    → contains_key (sort_in k keys) j ≡ (bytes_eq k j || contains_key keys j)
unfolding sort_in
sort_in-contains k j [] = refl
sort_in-contains k j (key ∷ keys) = ground (arith, sort_in-contains k j keys)

sort_in-AllDistinct :
    (k : Bytes) (keys : List Bytes)
    → contains_key keys k ≡ false
    → AllDistinct keys
    → AllDistinct (sort_in k keys)
unfolding sort_in
sort_in-AllDistinct k [] apart distinct = (refl, tt)
sort_in-AllDistinct k (key ∷ keys) apart (here, distinct) = elim (Bool-cases (text_lt key k)) [
  | inl later ↦ rw later (
    ground
        (arith, sort_in-contains k key keys, bytes_eq_iff k key, bytes_eq_iff key k, apart, here),
    sort_in-AllDistinct k keys (ground (arith, apart)) distinct,
  )
  | inr sooner ↦ rw sooner (apart, (here, distinct))
]

sort_in-some :
    (k : Bytes) (keys : List Bytes)
    → (first : Bytes) × (rest : List Bytes) × (sort_in k keys ≡ first ∷ rest)
unfolding sort_in
sort_in-some k [] = (k, [], refl)
sort_in-some k (key ∷ keys) = elim (Bool-cases (text_lt key k)) [
  | inl later ↦ (key, sort_in k keys, rw later refl)
  | inr sooner ↦ (k, key ∷ keys, rw sooner refl)
]

module _ (fmt : Formats) (timestamp_micros : fmt.DateTime → ℤ) where
  sorted_keys-get :
      (row : Row fmt) (key : Bytes)
      → get key row ≡ none
      → contains_key (sorted_keys fmt timestamp_micros row) key ≡ false
  unfolding sorted_keys get
  sorted_keys-get [] key h = refl
  sorted_keys-get ((k, v) ∷ row) key h = ground (
    arith,
    sort_in-contains k key (sorted_keys fmt timestamp_micros row),
    sorted_keys-get row key,
    h,
  )

  sorted_keys-AllDistinct :
      (row : Row fmt) → Distinct row → AllDistinct (sorted_keys fmt timestamp_micros row)
  unfolding sorted_keys
  sorted_keys-AllDistinct [] distinct = tt
  sorted_keys-AllDistinct ((k, v) ∷ row) (later, distinct) =
      sort_in-AllDistinct k (sorted_keys fmt timestamp_micros row) (sorted_keys-get row k later)
        (sorted_keys-AllDistinct row distinct)

  insert_all-Distinct :
      (values : List (Bytes × ParsedValue fmt)) (row : Row fmt)
      → Distinct row
      → Distinct (insert_all fmt values row)
  unfolding insert_all
  insert_all-Distinct [] row distinct = distinct
  insert_all-Distinct ((k, v) ∷ values) row distinct =
      insert_all-Distinct values (insert k v row) (insert-Distinct k v row distinct)

  -- A row of parsed pairs that lacks a key.
  insert_all-get :
      (values : List (Bytes × ParsedValue fmt)) (row : Row fmt) (key : Bytes)
      → get key values ≡ none
      → get key row ≡ none
      → get key (insert_all fmt values row) ≡ none
  unfolding insert_all get
  insert_all-get [] row key missing h = h
  insert_all-get ((k, v) ∷ values) row key missing h =
      insert_all-get values (insert k v row) key (ground (arith, missing))
        (ground (arith, get-insert key k v row, missing, h))

  parse_values-get :
      (schema : Option Schema) (calls : List Pair) (key : Bytes)
      → get key calls ≡ none
      → get key (parse_values fmt schema calls) ≡ none
  unfolding parse_values get
  parse_values-get schema [] key h = refl
  parse_values-get schema ((k, v) ∷ calls) key h =
      ground (arith, parse_values-get schema calls key, h)

  sorted_keys-some :
      (values : List (Bytes × ParsedValue fmt)) (entry : Bytes × ParsedValue fmt) (row : Row fmt)
      → (first : Bytes) × (rest : List Bytes) × (sorted_keys fmt timestamp_micros
            (insert_all fmt values (entry ∷ row))
          ≡ first ∷ rest)
  unfolding insert_all insert sorted_keys
  sorted_keys-some [] (k, v) row = sort_in-some k (sorted_keys fmt timestamp_micros row)
  sorted_keys-some ((k, v) ∷ values) (j, w) row = elim (Bool-cases (bytes_eq j k)) [
    | inl same ↦ rw same (sorted_keys-some values (j, v) row)
    | inr other ↦ rw other (sorted_keys-some values (j, w) (insert k v row))
  ]

  get-carried :
      (calls : List Pair) (key : Bytes)
      → contains_key
          (sorted_keys fmt timestamp_micros (insert_all fmt (parse_values fmt none calls) []))
          key
        ≡ true
      → (value : Bytes) × (get key calls ≡ some value)
  get-carried calls key wanted = elim (Option-cases (get key calls)) [
    | inr found ↦ found
    | inl missing ↦ absurd (
        ground (
          arith,
          wanted,
          sorted_keys-get (insert_all fmt (parse_values fmt none calls) []) key (
              insert_all-get (parse_values fmt none calls) [] key
                (parse_values-get none calls key missing) (get-nil key)),
        ))
  ]

  -- The first row of a line that is read as one pair or more: its keys, which are different, and each of
  -- which the line carries.
  pub first_row-keys :
      (line : Bytes) (call : Pair) (calls : List Pair)
      → handle_parse_logfmt_line_with_schema_base line ≡ some (call ∷ calls)
      → (row : Row fmt) × (k : Bytes) × (keys : List Bytes) × (parse_logfmt_line fmt line
          ≡ some row)
        × (sorted_keys fmt timestamp_micros row ≡ k ∷ keys)
        × AllDistinct (k ∷ keys)
        × ((key : Bytes)
            → contains_key (k ∷ keys) key ≡ true
            → (value : Bytes) × (get key (call ∷ calls) ≡ some value))
  unfolding parse_logfmt_line parse_logfmt_line_with_schema handle_parse_logfmt_line_with_schema
      insert_all parse_values insert
  first_row-keys line (name, value) calls scanned =
      let values = parse_values fmt none ((name, value) ∷ calls) in
      let row : Row fmt = insert_all fmt values [] in
      let (k, keys, are) =
        sorted_keys-some (parse_values fmt none calls) (name, parse_value fmt none name value) [] in
      (
        row,
        k,
        keys,
        rw scanned refl,
        are,
        subst AllDistinct are (sorted_keys-AllDistinct row (insert_all-Distinct values [] tt)),
        λ key wanted.
            get-carried ((name, value) ∷ calls) key (ap (λ ks. contains_key ks key) are ∙ wanted),
      )
