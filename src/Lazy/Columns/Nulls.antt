-- ===== src/Lazy/Columns/Nulls.antt =====
-- The nulls that end a line make its columns equally long.
use polars_logfmt.Prelude.{
  ℕ, ◌+◌, ◌≤◌, true, false, List, [], ◌∷◌, ◌++◌, ◌≡◌, refl, ap, ◌∙◌, none, some, ◌==◌,
  if◌then◌else◌, length, length-append, arith, Bool-cases, inl, inr,
}
use polars_logfmt.Logfmt.Formats.{Formats}
use polars_logfmt.Logfmt.Integers.{ℤ}
use polars_logfmt.Logfmt.Scan.{◌>>=◌}
use polars_logfmt.Lazy.Columns.{
  ColumnInfo, Builder, Arrays, fill_nulls, append_null_to_column_array,
}
use polars_logfmt.Lazy.Columns.Slots.{same_slot, cells, append_cell-slots}
use polars_logfmt.Lazy.Columns.Even.{rows_by, Apart, Grows, count_seen, Grows-Apart, same_slot-sym}

module _ (fmt : Formats) (timestamp_micros : fmt.DateTime → ℤ) where
  -- Between two lines: each column has a builder of its own, with `n` rows.
  abbrev pub Even : ℕ → List ColumnInfo → List ℕ → Arrays fmt timestamp_micros → Type 0
  Even n [] [] a = Unit {0}
  Even n [] (seen ∷ row_seen) a = ⊥
  Even n (ci ∷ infos) [] a = ⊥
  Even n (ci ∷ infos) (seen ∷ row_seen) a =
      ((b : Builder fmt timestamp_micros) × (cells fmt timestamp_micros ci a ≡ some b)
        × (length b ≡ n))
      × (seen ≤ n)
      × Apart ci infos
      × Even n infos row_seen a

module _ (fmt : Formats) (timestamp_micros : fmt.DateTime → ℤ) (n r : ℕ) (next : r ≡ n + 1) where
  pub Even-Grows :
      (infos : List ColumnInfo) (row_seen : List ℕ) (a : Arrays fmt timestamp_micros)
      → Even fmt timestamp_micros n infos row_seen a
      → Grows fmt timestamp_micros n r infos row_seen a × (count_seen r row_seen ≡ 0)
  Even-Grows [] [] a even = (tt, refl)
  Even-Grows [] (seen ∷ row_seen) a even = absurd even
  Even-Grows (ci ∷ infos) [] a even = absurd even
  Even-Grows (ci ∷ infos) (seen ∷ row_seen) a ((b, has, len), le, apart, even) =
      let (grows, none_seen) = Even-Grows infos row_seen a even in
      (
        ((b, has, ground (arith, len, le, next)), omega (arith, le, next), apart, grows),
        ground (arith, none_seen, le, next),
      )

  -- A column before the null that it may get.
  null-or-not :
      (ci : ColumnInfo) (seen : ℕ) (b : Builder fmt timestamp_micros)
      (a : Arrays fmt timestamp_micros)
      → cells fmt timestamp_micros ci a ≡ some b
      → length b ≡ rows_by n r seen
      → (a' : Arrays fmt timestamp_micros) × (b' : Builder fmt timestamp_micros) × ((if seen == r
            then some a
            else append_null_to_column_array fmt timestamp_micros ci a)
          ≡ some a')
        × (cells fmt timestamp_micros ci a' ≡ some b')
        × (length b' ≡ n + 1)
        × ((cj : ColumnInfo)
            → same_slot ci cj ≡ false
            → cells fmt timestamp_micros cj a' ≡ cells fmt timestamp_micros cj a)
  null-or-not ci seen b a has len = elim (Bool-cases (seen == r)) [
    | inl carried ↦
        (a, b, ground (arith, carried), has, ground (arith, carried, len), λ cj ne. refl)
    | inr missing ↦
        let (a', is_append, has', others) =
          append_cell-slots fmt timestamp_micros none ci a b has in
        (
          a',
          b ++ none ∷ [],
          rw missing is_append,
          has',
          ground (arith, missing, len, length-append b (none ∷ [])),
          others,
        )
  ]

  pub fill_nulls-Even :
      (infos : List ColumnInfo) (row_seen : List ℕ) (a : Arrays fmt timestamp_micros)
      → Grows fmt timestamp_micros n r infos row_seen a
      → (a' : Arrays fmt timestamp_micros) × (fill_nulls fmt timestamp_micros r infos row_seen a
          ≡ some a')
        × Even fmt timestamp_micros (n + 1) infos row_seen a'
        × ((cj : ColumnInfo)
            → Apart cj infos
            → cells fmt timestamp_micros cj a' ≡ cells fmt timestamp_micros cj a)
  unfolding fill_nulls
  fill_nulls-Even [] [] a grows = (a, refl, tt, λ cj apart. refl)
  fill_nulls-Even [] (seen ∷ row_seen) a grows = absurd grows
  fill_nulls-Even (ci ∷ infos) [] a grows = absurd grows
  fill_nulls-Even (ci ∷ infos) (seen ∷ row_seen) a ((b, has, len), le, apart, grows) =
      let (a1, b1, is_null, has1, len1, others) = null-or-not ci seen b a has len in
      let (a', filled, even, kept) =
        fill_nulls-Even infos row_seen a1
          (Grows-Apart fmt timestamp_micros n r ci infos row_seen a a1 others apart grows) in
      (
        a',
        ap (λ o. o >>= fill_nulls fmt timestamp_micros r infos row_seen) is_null ∙ filled,
        ((b1, kept ci apart ∙ has1, len1), omega (arith, le, next), apart, even),
        λ cj away. kept cj away.1 ∙ others cj (same_slot-sym cj ci away.0),
      )

  Grows-length :
      (infos : List ColumnInfo) (row_seen : List ℕ) (a : Arrays fmt timestamp_micros)
      → Grows fmt timestamp_micros n r infos row_seen a
      → length row_seen ≡ length infos
  Grows-length [] [] a grows = refl
  Grows-length [] (seen ∷ row_seen) a grows = absurd grows
  Grows-length (ci ∷ infos) [] a grows = absurd grows
  Grows-length (ci ∷ infos) (seen ∷ row_seen) a ((b, has, len), le, apart, grows) =
      omega (arith, Grows-length infos row_seen a grows)

  count-le : (row_seen : List ℕ) → count_seen r row_seen ≤ length row_seen
  count-le [] = omega arith
  count-le (seen ∷ row_seen) = ground (arith, count-le row_seen)

  -- A row that carried every column needs no null.
  pub all_seen-Even :
      (infos : List ColumnInfo) (row_seen : List ℕ) (a : Arrays fmt timestamp_micros)
      → Grows fmt timestamp_micros n r infos row_seen a
      → length infos ≤ count_seen r row_seen
      → Even fmt timestamp_micros (n + 1) infos row_seen a
  all_seen-Even [] [] a grows all = tt
  all_seen-Even [] (seen ∷ row_seen) a grows all = grows
  all_seen-Even (ci ∷ infos) [] a grows all = grows
  all_seen-Even (ci ∷ infos) (seen ∷ row_seen) a ((b, has, len), le, apart, grows) all =
      let same_len = Grows-length infos row_seen a grows in
      let carried : (seen == r) ≡ true = ground (arith, all, count-le row_seen, same_len) in
      (
        (b, has, ground (arith, len, carried)),
        omega (arith, le, next),
        apart,
        all_seen-Even infos row_seen a grows (ground (arith, all, carried)),
      )
