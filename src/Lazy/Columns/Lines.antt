-- ===== src/Lazy/Columns/Lines.antt =====
-- The columns stay equally long from line to line.
use polars_logfmt.Prelude.{
  ℕ, ◌+◌, ◌-◌, ◌<◌, true, false, ◌⊎◌, List, [], ◌∷◌, ◌++◌, ◌≡◌, refl, sym, ap, subst, ◌∙◌, Option,
  none, some, length, length-append, get_elem?-length, arith, Bool-cases, Option-cases, inl, inr,
}
use polars_logfmt.Text.{Bytes, bytes_eq_iff}
use polars_logfmt.Maps.{get}
use polars_logfmt.Logfmt.Formats.{Formats}
use polars_logfmt.Logfmt.Integers.{ℤ}
use polars_logfmt.Logfmt.Scan.{Pair}
use polars_logfmt.Logfmt.Value.{Schema}
use polars_logfmt.Lazy.Columns.{
  ColumnInfo, Builder, Arrays, Line, hit, new_column, position, at_position, push_call, is_wanted,
  type_of, field_in, base_append_column_arrays,
}
use polars_logfmt.Lazy.Columns.Slots.{same_slot, cells, new_slot-slots}
use polars_logfmt.Lazy.Columns.Even.{Apart, Grows, count_seen}
use polars_logfmt.Lazy.Columns.Push.{Unseen, Good, Unseen-rest, hit-Good, position-found}

Apart-new :
    (ci new : ColumnInfo) (infos : List ColumnInfo)
    → Apart ci infos
    → same_slot ci new ≡ false
    → Apart ci (infos ++ new ∷ [])
Apart-new ci new [] apart ne = (ne, tt)
Apart-new ci new (cj ∷ infos) (here, apart) ne = (here, Apart-new ci new infos apart ne)

count-new :
    (r : ℕ) (row_seen : List ℕ) → 0 < r → count_seen r (row_seen ++ 0 ∷ []) ≡ count_seen r row_seen
count-new r [] some_row = ground (arith, some_row)
count-new r (seen ∷ row_seen) some_row = ground (arith, count-new r row_seen some_row)

-- The key of each pair that is wanted has a column, or the row is the first.
abbrev pub Admits : ℕ → List Bytes → List ColumnInfo → List Pair → Type 0
Admits n column_keys infos [] = Unit {0}
Admits n column_keys infos ((key, value) ∷ calls) =
    (is_wanted column_keys key ≡ true → (n ≡ 0) ⊎ ((at : ℕ) × (position key infos ≡ some at)))
    × Admits n column_keys infos calls

pub Admits-first :
    (n : ℕ) (column_keys : List Bytes) (infos : List ColumnInfo) (calls : List Pair)
    → n ≡ 0
    → Admits n column_keys infos calls
Admits-first n column_keys infos [] first = tt
Admits-first n column_keys infos ((key, value) ∷ calls) first =
    ((λ wanted. inl first), Admits-first n column_keys infos calls first)

last-at :
    (infos : List ColumnInfo) (new : ColumnInfo) → length (infos ++ new ∷ []) - 1 ≡ length infos
last-at infos new = omega (arith, length-append infos (new ∷ []))

module _ (fmt : Formats) (timestamp_micros : fmt.DateTime → ℤ) (n r : ℕ) (next : r ≡ n + 1) where
  -- A column that is new in the first row.
  Grows-new :
      (new : ColumnInfo) (infos : List ColumnInfo) (row_seen : List ℕ)
      (a a' : Arrays fmt timestamp_micros)
      → n ≡ 0
      → cells fmt timestamp_micros new a' ≡ some []
      → ((cj : ColumnInfo) (b : Builder fmt timestamp_micros)
          → cells fmt timestamp_micros cj a ≡ some b
          → (same_slot cj new ≡ false) × (cells fmt timestamp_micros cj a' ≡ some b))
      → Grows fmt timestamp_micros n r infos row_seen a
      → Grows fmt timestamp_micros n r (infos ++ new ∷ []) (row_seen ++ 0 ∷ []) a'
  Grows-new new [] [] a a' first empty old grows =
      (([], empty, ground (arith, first, next)), omega arith, tt, tt)
  Grows-new new [] (seen ∷ row_seen) a a' first empty old grows = absurd grows
  Grows-new new (ci ∷ infos) [] a a' first empty old grows = absurd grows
  Grows-new new (ci ∷ infos) (seen ∷ row_seen) a a' first empty old
        ((b, has, len), le, apart, grows) =
      let (ne, has') = old ci b has in
      (
        (b, has', len),
        le,
        Apart-new ci new infos apart ne,
        Grows-new new infos row_seen a a' first empty old grows,
      )

  Unseen-new :
      (calls : List Pair) (new : ColumnInfo) (infos : List ColumnInfo) (row_seen : List ℕ)
      (a : Arrays fmt timestamp_micros)
      → Grows fmt timestamp_micros n r infos row_seen a
      → Unseen r calls infos row_seen
      → Unseen r calls (infos ++ new ∷ []) (row_seen ++ 0 ∷ [])
  Unseen-new calls new [] [] a grows unseen = ((λ e. absurd (ground (arith, e, next))), tt)
  Unseen-new calls new [] (seen ∷ row_seen) a grows unseen = absurd grows
  Unseen-new calls new (ci ∷ infos) [] a grows unseen = absurd grows
  Unseen-new calls new (ci ∷ infos) (seen ∷ row_seen) a ((b, has, len), le, apart, grows)
        (here, unseen) =
      (here, Unseen-new calls new infos row_seen a grows unseen)

  new_column-Good :
      (schema : Option Schema) (key : Bytes) (calls : List Pair) (l : Line fmt timestamp_micros)
      → n ≡ 0
      → Good fmt timestamp_micros n r next calls l
      → Good fmt timestamp_micros n r next calls (new_column fmt timestamp_micros schema key l)
  unfolding new_column
  new_column-Good schema key calls l first (grows, counted, unseen) =
      let t = type_of (field_in schema key) in
      let (empty, old) = new_slot-slots fmt timestamp_micros key t l.arrays in
      (
        Grows-new _ l.column_infos l.row_seen l.arrays _ first empty old grows,
        counted ∙ sym (count-new r l.row_seen (omega (arith, next))),
        Unseen-new calls _ l.column_infos l.row_seen l.arrays grows unseen,
      )

  -- What a pair leaves for the pairs behind it.
  abbrev pub Goes : List Bytes → List Pair → Line fmt timestamp_micros → Type 0
  Goes column_keys calls l =
      Good fmt timestamp_micros n r next calls l × Admits n column_keys l.column_infos calls

  new-Goes :
      (schema : Option Schema) (column_keys : List Bytes) (key value : Bytes) (calls : List Pair)
      (l : Line fmt timestamp_micros)
      → n ≡ 0
      → get key calls ≡ none
      → Good fmt timestamp_micros n r next ((key, value) ∷ calls) l
      → (l' : Line fmt timestamp_micros) × (at_position fmt timestamp_micros schema r key value l
            none
          ≡ some l')
        × Goes column_keys calls l'
  unfolding at_position new_column
  new-Goes schema column_keys key value calls l first later good =
      let l1 : Line fmt timestamp_micros = new_column fmt timestamp_micros schema key l in
      let new : ColumnInfo = record {
        name = key;
        data_type = type_of (field_in schema key);
        index =
            (base_append_column_arrays fmt timestamp_micros (type_of (field_in schema key))
              l.arrays).0;
      } in
      let (l', hits, infos, good') =
        hit-Good fmt timestamp_micros n r next key value calls l1 (length l.column_infos) new
          (get_elem?-length l.column_infos new) ((bytes_eq_iff key key).1 refl) later
          (new_column-Good schema key ((key, value) ∷ calls) l first good) in
      (
        l',
        ap (λ at. hit fmt timestamp_micros r value at l1) (last-at l.column_infos new) ∙ hits,
        (good', Admits-first n column_keys l'.column_infos calls first),
      )

  pub push_call-Goes :
      (schema : Option Schema) (column_keys : List Bytes) (key value : Bytes) (calls : List Pair)
      (l : Line fmt timestamp_micros)
      → get key calls ≡ none
      → Goes column_keys ((key, value) ∷ calls) l
      → (l' : Line fmt timestamp_micros) × (push_call fmt timestamp_micros schema column_keys r
            (key, value)
            l
          ≡ some l')
        × Goes column_keys calls l'
  unfolding push_call at_position
  push_call-Goes schema column_keys key value calls l later (good, (admit, admits)) =
      elim (Bool-cases (is_wanted column_keys key)) [
        | inr unwanted ↦ (
          l,
          rw unwanted refl,
          (
            (good.0, good.1, Unseen-rest r (key, value) calls l.column_infos l.row_seen good.2),
            admits,
          ),
        )
        | inl wanted ↦ elim (Option-cases (position key l.column_infos)) [
          | inr (at, found) ↦
              let (ci, is_ci, named) = position-found key l.column_infos at found in
              let (l', hits, infos, good') =
                hit-Good fmt timestamp_micros n r next key value calls l at ci is_ci named later
                  good in
              (
                l',
                rw (wanted, found) hits,
                (good', subst (λ i. Admits n column_keys i calls) (sym infos) admits),
              )
          | inl missing ↦ elim (admit wanted) [
            | inr (at, found) ↦ absurd (cc (missing, found))
            | inl first ↦
                let (l', made, goes) =
                  new-Goes schema column_keys key value calls l first later good in
                (l', rw (wanted, missing) made, goes)
          ]
        ]
      ]
