-- ===== src/Lazy/Infer/Types.antt =====
-- The types that probed rows agree on.
use polars_logfmt.Prelude.{
  ◌≡◌, refl, sym, ap, ◌∙◌, [], ◌∷◌, Option, none, some, inl, inr, Bool-cases, arith,
}
use polars_logfmt.Text.{Bytes, bytes_eq, bytes_eq_iff}
use polars_logfmt.Maps.{get, insert, get-insert, insert-Distinct, Distinct}
use polars_logfmt.Logfmt.Formats.{Formats}
use polars_logfmt.Logfmt.Value.{SchemaField, Schema}
use polars_logfmt.Logfmt.Rows.{Row}
use polars_logfmt.Lazy.Infer.{
  merge_schema_field, merged_entry, merge_schema, infer_schema_from_row, field_of,
}

merge_schema_field-semilattice :
    (a b c : SchemaField)
    → (merge_schema_field a a ≡ a)
      × (merge_schema_field a b ≡ merge_schema_field b a)
      × (merge_schema_field (merge_schema_field a b) c
          ≡ merge_schema_field a (merge_schema_field b c))
      × (merge_schema_field SchemaField.string a ≡ SchemaField.string)
unfolding merge_schema_field
merge_schema_field-semilattice a b c = (ground arith, ground arith, ground arith, ground arith)

-- The type of a key in two schemas together.
abbrev pub join : Option SchemaField → Option SchemaField → Option SchemaField
join none o = o
join (some a) none = some a
join (some a) (some b) = some (merge_schema_field a b)

join_same : (o : Option SchemaField) → join o o ≡ o
join_same none = refl
join_same (some a) = ap some (merge_schema_field-semilattice a a a).0

join_comm : (o p : Option SchemaField) → join o p ≡ join p o
join_comm none none = refl
join_comm none (some b) = refl
join_comm (some a) none = refl
join_comm (some a) (some b) = ap some (merge_schema_field-semilattice a b a).1

join_assoc : (o p q : Option SchemaField) → join (join o p) q ≡ join o (join p q)
join_assoc none p q = refl
join_assoc (some a) none q = refl
join_assoc (some a) (some b) none = refl
join_assoc (some a) (some b) (some c) = ap some (merge_schema_field-semilattice a b c).2

join_string : (o : Option SchemaField) → join (some SchemaField.string) o ≡ some SchemaField.string
join_string none = refl
join_string (some b) = ap some (merge_schema_field-semilattice b b b).3

join-merged_entry :
    (o : Option SchemaField) (v : SchemaField) → some (merged_entry o v) ≡ join o (some v)
join-merged_entry none v = refl
join-merged_entry (some seen) v = refl

join-none : (o : Option SchemaField) → join o none ≡ o
join-none none = refl
join-none (some a) = refl

-- Each key has the types of both schemas together.
get-merge_schema :
    (merged row : Schema) (k : Bytes)
    → Distinct row
    → get k (merge_schema merged row) ≡ join (get k merged) (get k row)
unfolding merge_schema get
get-merge_schema merged [] k distinct = sym (join-none (get k merged))
get-merge_schema merged ((j, v) ∷ row) k (new, distinct) =
    let together = merged_entry (get j merged) v in
    get-merge_schema (insert j together merged) row k distinct
    ∙ ap (λ o. join o (get k row)) (get-insert k j together merged)
    ∙ elim (Bool-cases (bytes_eq j k)) [
      | inl same ↦
          let is : j ≡ k = (bytes_eq_iff j k).0 same in
          rw same (
            ap (join (some together)) (ap (λ i. get i row) (sym is) ∙ new)
            ∙ join-merged_entry (get j merged) v
            ∙ ap (λ i. join (get i merged) (some v)) is)
      | inr other ↦ rw other refl
    ]

merge_schema-Distinct : (merged row : Schema) → Distinct merged → Distinct (merge_schema merged row)
unfolding merge_schema
merge_schema-Distinct merged [] distinct = distinct
merge_schema-Distinct merged ((j, v) ∷ row) distinct =
    let together = merged_entry (get j merged) v in
    merge_schema-Distinct (insert j together merged) row
      (insert-Distinct j together merged distinct)

-- The schema of a row has each key once.
pub infer_schema_from_row-Distinct :
    (fmt : Formats) (row : Row fmt) → Distinct (infer_schema_from_row fmt row)
unfolding infer_schema_from_row
infer_schema_from_row-Distinct fmt [] = tt
infer_schema_from_row-Distinct fmt ((k, v) ∷ row) =
    insert-Distinct k (field_of fmt v) _ (infer_schema_from_row-Distinct fmt row)

-- Merging schemas that have each key once, as those of rows do, is idempotent, commutative and associative in the
-- type that every key gets, so that this type depends neither on the order of the schemas nor on how often one
-- comes; and a key that is a text in one of them stays a text.
pub merge_schema-semilattice :
    (a b c : Schema) (k : Bytes)
    → Distinct a
    → Distinct b
    → Distinct c
    → (get k (merge_schema a a) ≡ get k a)
      × (get k (merge_schema a b) ≡ get k (merge_schema b a))
      × (get k (merge_schema (merge_schema a b) c) ≡ get k (merge_schema a (merge_schema b c)))
      × (get k a ≡ some SchemaField.string → get k (merge_schema a b) ≡ some SchemaField.string)
merge_schema-semilattice a b c k once_a once_b once_c =
    let of_ab = get-merge_schema a b k once_b in
    (
      get-merge_schema a a k once_a ∙ join_same (get k a),
      of_ab ∙ join_comm (get k a) (get k b) ∙ sym (get-merge_schema b a k once_a),
      get-merge_schema (merge_schema a b) c k once_c
          ∙ ap (λ o. join o (get k c)) of_ab
          ∙ join_assoc (get k a) (get k b) (get k c)
          ∙ ap (join (get k a)) (sym (get-merge_schema b c k once_c))
          ∙ sym (get-merge_schema a (merge_schema b c) k (merge_schema-Distinct b c once_b)),
      λ text. of_ab ∙ ap (λ o. join o (get k b)) text ∙ join_string (get k b),
    )
