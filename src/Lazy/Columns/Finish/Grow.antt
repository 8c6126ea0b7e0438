-- ===== src/Lazy/Columns/Finish/Grow.antt =====
-- What a line adds to the columns.
use polars_logfmt.Prelude.{
  ℕ, ltb, suc, get_elem?, ◌+◌, true, List, [], ◌∷◌, ◌++◌, append-nil, append_assoc, ◌≡◌, refl, sym,
  ap, ◌∙◌, subst, Option, none, some, if◌then◌else◌, length, arith, Bool-cases, Option-cases, inl,
  inr,
}
use polars_logfmt.Text.{Bytes, bytes_eq, bytes_eq_iff}
use polars_logfmt.Maps.{get}
use polars_logfmt.Logfmt.Formats.{Formats}
use polars_logfmt.Logfmt.Integers.{ℤ}
use polars_logfmt.Logfmt.Scan.{Pair, ◌>>=◌, handle_parse_logfmt_line_with_schema_base}
use polars_logfmt.Logfmt.Value.{Schema}
use polars_logfmt.Lazy.Columns.{
  fill_nulls, set_at, append_cell, cell_of, ColumnInfo, Line, hit, new_column, at_position,
  push_call, push_calls, is_wanted, position, type_of, field_in, base_append_column_arrays,
  DataFrameMaker, end_line, push_pairs, push_line_to_column_mutable_array,
}
use polars_logfmt.Lazy.Columns.Finish.Ready.{AreTyped}

-- A chain that returns has returned at its first step.
pub >>=-eq-some {ℓ κ} :
    {A : Type ℓ} {B : Type κ} (m : Option A) (f : A → Option B) (b : B)
    → (m >>= f) ≡ some b
    → (a : A) × (m ≡ some a) × (f a ≡ some b)
>>=-eq-some none f b h = cc
>>=-eq-some (some a) f b h = (a, refl, h)

pub position-append :
    (key : Bytes) (infos more : List ColumnInfo) (at : ℕ)
    → position key infos ≡ some at
    → position key (infos ++ more) ≡ some at
position-append key [] more at h = cc
position-append key (ci ∷ infos) more at h = elim (Option-cases (position key infos)) [
  | inl missing ↦ ground (arith, missing, h)
  | inr (i, found) ↦ ground (arith, found, h, position-append key infos more i found)
]

position-new :
    (key : Bytes) (infos : List ColumnInfo) (new : ColumnInfo)
    → bytes_eq new.name key ≡ true
    → (at : ℕ) × (position key (infos ++ new ∷ []) ≡ some at)
position-new key [] new named = (0, rw named refl)
position-new key (ci ∷ infos) new named = elim (Bool-cases (bytes_eq ci.name key)) [
  | inl here ↦ (0, rw here refl)
  | inr other ↦
      let (at, found) = position-new key infos new named in (suc at, rw (other, found) refl)
]

AreTyped-append :
    (schema : Option Schema) (infos more : List ColumnInfo)
    → AreTyped schema infos
    → AreTyped schema more
    → AreTyped schema (infos ++ more)
AreTyped-append schema [] more typed typed' = typed'
AreTyped-append schema (ci ∷ infos) more (here, typed) typed' =
    (here, AreTyped-append schema infos more typed typed')

-- New columns come behind the old ones, with the types that the schema gives.
abbrev pub Extends : Option Schema → List ColumnInfo → List ColumnInfo → Type 0
Extends schema infos infos' =
    (more : List ColumnInfo) × (infos' ≡ infos ++ more) × AreTyped schema more

Extends-trans :
    (schema : Option Schema) (infos infos1 infos2 : List ColumnInfo)
    → Extends schema infos infos1
    → Extends schema infos1 infos2
    → Extends schema infos infos2
Extends-trans schema infos infos1 infos2 (more, same, typed) (more', same', typed') = (
  more ++ more',
  same' ∙ ap (λ i. i ++ more') same ∙ append_assoc infos more more',
  AreTyped-append schema more more' typed typed',
)

pub Extends-AreTyped :
    (schema : Option Schema) (infos infos' : List ColumnInfo)
    → Extends schema infos infos'
    → AreTyped schema infos
    → AreTyped schema infos'
Extends-AreTyped schema infos infos' (more, same, typed') typed =
    subst (AreTyped schema) (sym same) (AreTyped-append schema infos more typed typed')

pub Extends-position :
    (schema : Option Schema) (infos infos' : List ColumnInfo) (key : Bytes) (at : ℕ)
    → Extends schema infos infos'
    → position key infos ≡ some at
    → position key infos' ≡ some at
Extends-position schema infos infos' key at (more, same, typed) found =
    ap (position key) same ∙ position-append key infos more at found

module _ (fmt : Formats) (timestamp_micros : fmt.DateTime → ℤ) where
  infos_of_some :
      (l l' : Line fmt timestamp_micros) → some l ≡ some l' → l.column_infos ≡ l'.column_infos
  infos_of_some l l' h = let same : l ≡ l' = cc in ap (λ k. k.column_infos) same

  hit-infos :
      (r : ℕ) (value : Bytes) (at : ℕ) (l l' : Line fmt timestamp_micros)
      → hit fmt timestamp_micros r value at l ≡ some l'
      → l'.column_infos ≡ l.column_infos
  unfolding hit
  hit-infos r value at l l' h =
      let (row_seen, is_set, h1) = >>=-eq-some (set_at at r l.row_seen) _ l' h in
      let (ci, is_ci, h2) = >>=-eq-some (get_elem? l.column_infos at) _ l' h1 in
      let (arrays, appended, h3) =
        >>=-eq-some
          (append_cell fmt timestamp_micros (some (cell_of fmt timestamp_micros ci.data_type value))
            ci l.arrays)
          _ l' h2 in
      sym (infos_of_some _ _ h3)

  module _ (schema : Option Schema) (column_keys : List Bytes) (r : ℕ) where
    -- The key of a pair that is wanted has a column behind it.
    push_call-Extends :
        (key value : Bytes) (l l' : Line fmt timestamp_micros)
        → push_call fmt timestamp_micros schema column_keys r (key, value) l ≡ some l'
        → Extends schema l.column_infos l'.column_infos
          × (is_wanted column_keys key ≡ true → (at : ℕ) × (position key l'.column_infos ≡ some at))
    unfolding push_call at_position new_column
    push_call-Extends key value l l' = elim (Bool-cases (is_wanted column_keys key)) [
      | inr unwanted ↦ rw unwanted (λ h.
          (([], sym (infos_of_some l l' h) ∙ sym (append-nil l.column_infos), tt), λ wanted. cc))
      | inl wanted ↦ elim (Option-cases (position key l.column_infos)) [
        | inr (at, found) ↦
            rw (wanted, found)
              (λ h.
                let same = hit-infos r value at l l' h in
                (
                  ([], same ∙ sym (append-nil l.column_infos), tt),
                  λ is_wanted. (at, ap (position key) same ∙ found),
                ))
        | inl missing ↦
            rw (wanted, missing)
              (λ h.
                let same =
                  hit-infos r value _ (new_column fmt timestamp_micros schema key l) l' h in
                let new : ColumnInfo = record {
                  name = key;
                  data_type = type_of (field_in schema key);
                  index =
                      (base_append_column_arrays fmt timestamp_micros
                        (type_of (field_in schema key)) l.arrays).0;
                } in
                let (at, found) =
                  position-new key l.column_infos new ((bytes_eq_iff key key).1 refl) in
                ((new ∷ [], same, (refl, tt)), λ is_wanted. (at, ap (position key) same ∙ found)))
      ]
    ]

    pub push_calls-Extends :
        (calls : List Pair) (l l' : Line fmt timestamp_micros)
        → push_calls fmt timestamp_micros schema column_keys r calls l ≡ some l'
        → Extends schema l.column_infos l'.column_infos
          × ((key value : Bytes)
              → is_wanted column_keys key ≡ true
              → get key calls ≡ some value
              → (at : ℕ) × (position key l'.column_infos ≡ some at))
    unfolding push_calls get
    push_calls-Extends [] l l' h = (
      ([], sym (infos_of_some l l' h) ∙ sym (append-nil l.column_infos), tt),
      λ key value wanted has. cc,
    )
    push_calls-Extends ((k, v) ∷ calls) l l' h =
        let (l1, pushed, later) =
          >>=-eq-some (push_call fmt timestamp_micros schema column_keys r (k, v) l) _ l' h in
        let (extends, named) = push_call-Extends k v l l1 pushed in
        let (extends', named') = push_calls-Extends calls l1 l' later in
        (
          Extends-trans schema l.column_infos l1.column_infos l'.column_infos extends extends',
          λ key value wanted has. elim (Bool-cases (bytes_eq k key)) [
            | inr other ↦ named' key value wanted (ground (arith, other, has))
            | inl here ↦
                let same : k ≡ key = (bytes_eq_iff k key).0 here in
                let (at, found) =
                  named (subst (λ j. is_wanted column_keys j ≡ true) (sym same) wanted) in
                (
                  at,
                  ap (λ j. position j l'.column_infos) (sym same)
                      ∙ Extends-position schema l1.column_infos l'.column_infos k at extends' found,
                )
          ],
        )

  end_line-parts :
      (m m' : DataFrameMaker fmt timestamp_micros) (l : Line fmt timestamp_micros)
      → end_line fmt timestamp_micros m l ≡ some m'
      → (m'.schema ≡ m.schema)
        × (m'.column_keys ≡ m.column_keys)
        × (m'.column_infos ≡ l.column_infos)
  unfolding end_line
  end_line-parts m m' l ended =
      let row_id : ℕ = m.rows_pushed + 1 in
      let (arrays, filled, h) =
        >>=-eq-some
          (if ltb l.hits (length l.column_infos)
            then fill_nulls fmt timestamp_micros row_id l.column_infos l.row_seen l.arrays
            else some l.arrays)
          _ m' ended in
      let after : DataFrameMaker fmt timestamp_micros = record m {
        column_infos = l.column_infos;
        row_seen = l.row_seen;
        rows_pushed = row_id;
        arrays = arrays;
      } in
      let same : after ≡ m' = cc h in
      (
        ap (λ k. k.schema) (sym same),
        ap (λ k. k.column_keys) (sym same),
        ap (λ k. k.column_infos) (sym same),
      )

  -- A line keeps the schema and the wanted keys, and adds columns of the schema's types; each wanted key that
  -- it carries has a column behind it.
  pub push_line-Extends :
      (m m' : DataFrameMaker fmt timestamp_micros) (line : Bytes) (calls : List Pair)
      → handle_parse_logfmt_line_with_schema_base line ≡ some calls
      → push_line_to_column_mutable_array fmt timestamp_micros line m ≡ some m'
      → (m'.schema ≡ m.schema)
        × (m'.column_keys ≡ m.column_keys)
        × Extends m.schema m.column_infos m'.column_infos
        × ((key value : Bytes)
            → is_wanted m.column_keys key ≡ true
            → get key calls ≡ some value
            → (at : ℕ) × (position key m'.column_infos ≡ some at))
  unfolding push_line_to_column_mutable_array
  push_line-Extends m m' line calls scanned pushed =
      let l0 : Line fmt timestamp_micros = record {
        column_infos = m.column_infos;
        row_seen = m.row_seen;
        hits = 0;
        arrays = m.arrays;
      } in
      let row_id : ℕ = m.rows_pushed + 1 in
      let paired = sym (ap (λ o. o >>= push_pairs fmt timestamp_micros m) scanned) ∙ pushed in
      let (l, calls_pushed, ended) =
        >>=-eq-some (push_calls fmt timestamp_micros m.schema m.column_keys row_id calls l0)
          (end_line fmt timestamp_micros m) m' paired in
      let (extends, named) =
        push_calls-Extends m.schema m.column_keys row_id calls l0 l calls_pushed in
      let (same_schema, same_keys, same_infos) = end_line-parts m m' l ended in
      (
        same_schema,
        same_keys,
        subst (Extends m.schema m.column_infos) (sym same_infos) extends,
        λ key value wanted has.
            let (at, found) = named key value wanted has in
            (at, ap (position key) same_infos ∙ found),
      )
