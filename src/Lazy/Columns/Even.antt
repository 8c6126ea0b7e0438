-- ===== src/Lazy/Columns/Even.antt =====
-- The builders of the columns while a line is pushed.
use polars_logfmt.Prelude.{
  ℕ, zero, suc, ◌+◌, ◌≤◌, false, List, [], ◌∷◌, ◌++◌, ◌≡◌, refl, sym, ap, subst, ◌∙◌, Option, some,
  ◌==◌, if◌then◌else◌, length, length-append, get_elem?, arith,
}
use polars_logfmt.Logfmt.Formats.{Formats}
use polars_logfmt.Logfmt.Integers.{ℤ}
use polars_logfmt.Lazy.Columns.{ColumnInfo, Cell, set_at, Builder, Arrays}
use polars_logfmt.Lazy.Columns.Slots.{same_slot, cells}

-- The length of a builder in the row `r` that is being pushed behind `n` rows.
abbrev pub rows_by : ℕ → ℕ → ℕ → ℕ
rows_by n r seen = if seen == r then n + 1 else n

abbrev pub Apart : ColumnInfo → List ColumnInfo → Type 0
Apart ci [] = Unit {0}
Apart ci (cj ∷ infos) = (same_slot ci cj ≡ false) × Apart ci infos

-- The columns that the row has carried.
abbrev pub count_seen : ℕ → List ℕ → ℕ
count_seen r [] = 0
count_seen r (seen ∷ row_seen) =
    if seen == r then count_seen r row_seen + 1 else count_seen r row_seen

pub Apart-at :
    (ci cj : ColumnInfo) (infos : List ColumnInfo) (at : ℕ)
    → Apart ci infos
    → get_elem? infos at ≡ some cj
    → same_slot ci cj ≡ false
Apart-at ci cj [] at apart h = cc
Apart-at ci cj (ck ∷ infos) zero (here, apart) h = ground (arith, here, h)
Apart-at ci cj (ck ∷ infos) (suc at) (here, apart) h = Apart-at ci cj infos at apart h

pub same_slot-sym : (ci cj : ColumnInfo) → same_slot ci cj ≡ false → same_slot cj ci ≡ false
same_slot-sym ci cj h = ground (arith, h)

module _ (fmt : Formats) (timestamp_micros : fmt.DateTime → ℤ) (n r : ℕ) where
  -- Each column has a builder of its own, one longer if the row has carried it.
  abbrev pub Grows : List ColumnInfo → List ℕ → Arrays fmt timestamp_micros → Type 0
  Grows [] [] a = Unit {0}
  Grows [] (seen ∷ row_seen) a = ⊥
  Grows (ci ∷ infos) [] a = ⊥
  Grows (ci ∷ infos) (seen ∷ row_seen) a =
      ((b : Builder fmt timestamp_micros) × (cells fmt timestamp_micros ci a ≡ some b)
        × (length b ≡ rows_by n r seen))
      × (seen ≤ r)
      × Apart ci infos
      × Grows infos row_seen a

  -- The columns behind one that is appended to stay as they are.
  pub Grows-Apart :
      (ci : ColumnInfo) (infos : List ColumnInfo) (row_seen : List ℕ)
      (a a' : Arrays fmt timestamp_micros)
      → ((cj : ColumnInfo)
          → same_slot ci cj ≡ false
          → cells fmt timestamp_micros cj a' ≡ cells fmt timestamp_micros cj a)
      → Apart ci infos
      → Grows infos row_seen a
      → Grows infos row_seen a'
  Grows-Apart ci [] [] a a' others apart grows = tt
  Grows-Apart ci [] (seen ∷ row_seen) a a' others apart grows = grows
  Grows-Apart ci (cj ∷ infos) [] a a' others apart grows = grows
  Grows-Apart ci (cj ∷ infos) (seen ∷ row_seen) a a' others (ne, apart)
        ((b, has, len), le, apart', grows) =
      (
        (b, others cj ne ∙ has, len),
        le,
        apart',
        Grows-Apart ci infos row_seen a a' others apart grows,
      )

  pub Grows-append :
      (ci : ColumnInfo) (b : Builder fmt timestamp_micros) (cell : Option (Cell fmt))
      (infos : List ColumnInfo) (row_seen : List ℕ) (at seen : ℕ)
      (a a' : Arrays fmt timestamp_micros)
      → get_elem? infos at ≡ some ci
      → get_elem? row_seen at ≡ some seen
      → (seen == r) ≡ false
      → cells fmt timestamp_micros ci a ≡ some b
      → cells fmt timestamp_micros ci a' ≡ some (b ++ cell ∷ [])
      → ((cj : ColumnInfo)
          → same_slot ci cj ≡ false
          → cells fmt timestamp_micros cj a' ≡ cells fmt timestamp_micros cj a)
      → Grows infos row_seen a
      → (row_seen' : List ℕ) × (set_at at r row_seen ≡ some row_seen')
        × Grows infos row_seen' a'
        × (count_seen r row_seen' ≡ count_seen r row_seen + 1)
  unfolding set_at
  Grows-append ci b cell [] row_seen at seen a a' is_ci is_seen fresh had has others grows = cc
  Grows-append ci b cell (cj ∷ infos) [] at seen a a' is_ci is_seen fresh had has others grows = cc
  Grows-append ci b cell (cj ∷ infos) (s ∷ row_seen) zero seen a a' is_ci is_seen fresh had has
        others ((b', had', len), le, apart, grows) =
      let same_ci : ci ≡ cj = cc in
      let same_s : seen ≡ s = cc in
      let same_b : b' ≡ b = cc in
      let unseen : (s == r) ≡ false = ap (λ k. k == r) (sym same_s) ∙ fresh in
      let longer : length (b ++ cell ∷ []) ≡ rows_by n r r =
        ground (arith, length-append b (cell ∷ []), ap length same_b, len, unseen) in
      let others' =
        subst
          (λ c.
            (ck : ColumnInfo)
            → same_slot c ck ≡ false
            → cells fmt timestamp_micros ck a' ≡ cells fmt timestamp_micros ck a)
          same_ci others in
      (
        r ∷ row_seen,
        refl,
        (
          (b ++ cell ∷ [], ap (λ c. cells fmt timestamp_micros c a') (sym same_ci) ∙ has, longer),
          omega arith,
          apart,
          Grows-Apart cj infos row_seen a a' others' apart grows,
        ),
        ground (arith, unseen),
      )
  Grows-append ci b cell (cj ∷ infos) (s ∷ row_seen) (suc at) seen a a' is_ci is_seen fresh had has
        others ((b', had', len), le, apart, grows) =
      let (row_seen', is_set, grows', one_more) =
        Grows-append ci b cell infos row_seen at seen a a' is_ci is_seen fresh had has others
          grows in
      let ne : same_slot ci cj ≡ false =
        same_slot-sym cj ci (Apart-at cj ci infos at apart is_ci) in
      (
        s ∷ row_seen',
        ground (arith, is_set),
        ((b', others cj ne ∙ had', len), le, apart, grows'),
        ground (arith, one_more),
      )
