-- ===== src/Lazy/Columns/Whole.antt =====
-- A whole line keeps the columns equally long.
use polars_logfmt.Prelude.{
  ℕ, ◌+◌, List, [], ◌∷◌, ◌≡◌, refl, sym, ap, ◌∙◌, Option, some, ltb, if◌then◌else◌, length, arith,
  Bool-cases, inl, inr,
}
use polars_logfmt.Text.{Bytes}
use polars_logfmt.Maps.{Distinct}
use polars_logfmt.Logfmt.Formats.{Formats}
use polars_logfmt.Logfmt.Integers.{ℤ}
use polars_logfmt.Logfmt.Scan.{Pair, ◌>>=◌, handle_parse_logfmt_line_with_schema_base}
use polars_logfmt.Logfmt.Value.{Schema}
use polars_logfmt.Lazy.Columns.{
  ColumnInfo, Arrays, Line, push_calls, DataFrameMaker, end_line, push_pairs, fill_nulls,
  push_line_to_column_mutable_array,
}
use polars_logfmt.Lazy.Columns.Nulls.{Even, Even-Grows, fill_nulls-Even, all_seen-Even}
use polars_logfmt.Lazy.Columns.Push.{Unseen, Good}
use polars_logfmt.Lazy.Columns.Lines.{Admits, Goes, push_call-Goes}

module _ (fmt : Formats) (timestamp_micros : fmt.DateTime → ℤ) (n r : ℕ) (next : r ≡ n + 1) where
  push_calls-Good :
      (schema : Option Schema) (column_keys : List Bytes) (calls : List Pair)
      (l : Line fmt timestamp_micros)
      → Distinct calls
      → Goes fmt timestamp_micros n r next column_keys calls l
      → (l' : Line fmt timestamp_micros) × (push_calls fmt timestamp_micros schema column_keys r
            calls l
          ≡ some l')
        × Good fmt timestamp_micros n r next [] l'
  unfolding push_calls
  push_calls-Good schema column_keys [] l distinct (good, admits) = (l, refl, good)
  push_calls-Good schema column_keys ((key, value) ∷ calls) l (later, distinct) goes =
      let (l1, pushed, goes1) =
        push_call-Goes fmt timestamp_micros n r next schema column_keys key value calls l later
          goes in
      let (l', pushed', good) = push_calls-Good schema column_keys calls l1 distinct goes1 in
      (
        l',
        ap (λ o. o >>= push_calls fmt timestamp_micros schema column_keys r calls) pushed ∙ pushed',
        good,
      )

  Even-Unseen :
      (calls : List Pair) (infos : List ColumnInfo) (row_seen : List ℕ)
      (a : Arrays fmt timestamp_micros)
      → Even fmt timestamp_micros n infos row_seen a
      → Unseen r calls infos row_seen
  Even-Unseen calls [] [] a even = tt
  Even-Unseen calls [] (seen ∷ row_seen) a even = tt
  Even-Unseen calls (ci ∷ infos) [] a even = tt
  Even-Unseen calls (ci ∷ infos) (seen ∷ row_seen) a (has, le, apart, even) =
      ((λ e. absurd (ground (arith, e, le, next))), Even-Unseen calls infos row_seen a even)

  -- The arrays at the end of the line.
  end-Even :
      (l : Line fmt timestamp_micros)
      → Good fmt timestamp_micros n r next [] l
      → (a : Arrays fmt timestamp_micros) × ((if ltb l.hits (length l.column_infos)
            then fill_nulls fmt timestamp_micros r l.column_infos l.row_seen l.arrays
            else some l.arrays)
          ≡ some a)
        × Even fmt timestamp_micros (n + 1) l.column_infos l.row_seen a
  end-Even l (grows, counted, unseen) = elim (Bool-cases (ltb l.hits (length l.column_infos))) [
    | inl missing ↦
        let (a, filled, even, kept) =
          fill_nulls-Even fmt timestamp_micros n r next l.column_infos l.row_seen l.arrays grows in
        (a, rw missing filled, even)
    | inr all ↦ (
      l.arrays,
      rw all refl,
      all_seen-Even fmt timestamp_micros n r next l.column_infos l.row_seen l.arrays grows
          (ground (arith, all, counted)),
    )
  ]

-- Between two lines: as many rows in each column as lines were pushed, each column with a builder of
-- its own.
unfoldable pub IsEven :
    (fmt : Formats) (timestamp_micros : fmt.DateTime → ℤ)
    → DataFrameMaker fmt timestamp_micros
    → Type 0
IsEven fmt timestamp_micros m =
    Even fmt timestamp_micros m.rows_pushed m.column_infos m.row_seen m.arrays

-- A line that the scanner reads as pairs with different keys keeps the columns even, with one row more
-- in each of them: no index is out of range, and a column that the line does not carry gets a null. A
-- key that is wanted and has no column yet is allowed in the first row only.
pub push_line-IsEven :
    (fmt : Formats) (timestamp_micros : fmt.DateTime → ℤ) (m : DataFrameMaker fmt timestamp_micros)
    (line : Bytes) (calls : List Pair)
    → handle_parse_logfmt_line_with_schema_base line ≡ some calls
    → Distinct calls
    → Admits m.rows_pushed m.column_keys m.column_infos calls
    → IsEven fmt timestamp_micros m
    → (m' : DataFrameMaker fmt timestamp_micros) × (push_line_to_column_mutable_array fmt
          timestamp_micros line m
        ≡ some m')
      × IsEven fmt timestamp_micros m'
      × (m'.rows_pushed ≡ m.rows_pushed + 1)
unfolding push_line_to_column_mutable_array IsEven
push_line-IsEven fmt timestamp_micros m line calls scanned distinct admits even =
    let n : ℕ = m.rows_pushed in
    let (grows, none_seen) =
      Even-Grows fmt timestamp_micros n (n + 1) refl m.column_infos m.row_seen m.arrays even in
    let unseen =
      Even-Unseen fmt timestamp_micros n (n + 1) refl calls m.column_infos m.row_seen m.arrays
        even in
    let (l, pushed, good) =
      push_calls-Good fmt timestamp_micros n (n + 1) refl m.schema m.column_keys calls
        (record {
          column_infos = m.column_infos;
          row_seen = m.row_seen;
          hits = 0;
          arrays = m.arrays;
        })
        distinct ((grows, sym none_seen, unseen), admits) in
    let (a, ended, even') = end-Even fmt timestamp_micros n (n + 1) refl l good in
    (
      record m {
        column_infos = l.column_infos;
        row_seen = l.row_seen;
        rows_pushed = n + 1;
        arrays = a;
      },
      ap (λ o. o >>= push_pairs fmt timestamp_micros m) scanned
          ∙ ap (λ o. o >>= end_line fmt timestamp_micros m) pushed
          ∙ ap
              (λ o. o >>= λ arrays. some (record m {
                column_infos = l.column_infos;
                row_seen = l.row_seen;
                rows_pushed = n + 1;
                arrays = arrays;
              }))
              ended,
      even',
      refl,
    )
