-- ===== src/Lazy/Columns/Slots.antt =====
-- Each column has a builder of its own: what is appended to one leaves the others as they are.
use polars_logfmt.Prelude.{
  ℕ, zero, suc, Bool, true, false, ◌&&◌, ◌⊎◌, List, [], ◌∷◌, ◌++◌, ◌≡◌, refl, sym, ap, ◌∙◌, Option,
  some, ◌==◌, length, get_elem?, get_elem?-bound, get_elem?-append, get_elem?-length, arith,
  Bool-cases, inl, inr,
}
use polars_logfmt.Text.{Bytes}
use polars_logfmt.Logfmt.Formats.{Formats}
use polars_logfmt.Logfmt.Integers.{ℤ}
use polars_logfmt.Logfmt.Scan.{◌>>=◌}
use polars_logfmt.Lazy.Columns.{
  DataType, int64, float64, boolean, datetime, duration, string, ColumnInfo, Cell, set_at, Builder,
  Arrays, array_of, with_array, append_cell, base_append_column_arrays,
}

set_at-other :
    {A : Type 0} (i : ℕ) (x y : A) (xs : List A)
    → get_elem? xs i ≡ some y
    → (xs' : List A) × (set_at i x xs ≡ some xs')
      × (get_elem? xs' i ≡ some x)
      × ((j : ℕ) → (j == i) ≡ false → get_elem? xs' j ≡ get_elem? xs j)
      × (length xs' ≡ length xs)
unfolding set_at
set_at-other i x y [] h = cc
set_at-other zero x y (z ∷ xs) h = (x ∷ xs, refl, refl, (λ j ne. other j ne), refl)
  where
    other : (j : ℕ) → (j == 0) ≡ false → get_elem? (x ∷ xs) j ≡ get_elem? (z ∷ xs) j
    other zero ne = cc
    other (suc j) ne = refl
set_at-other (suc i) x y (z ∷ xs) h =
    let (xs', is_set, there, same, len) = set_at-other i x y xs h in
    (z ∷ xs', ground (arith, is_set), there, (λ j ne. other xs' same j ne), omega (arith, len))
  where
    other :
        (xs' : List _)
        → ((j : ℕ) → (j == i) ≡ false → get_elem? xs' j ≡ get_elem? xs j)
        → (j : ℕ) → (j == suc i) ≡ false
        → get_elem? (z ∷ xs') j ≡ get_elem? (z ∷ xs) j
    other xs' same zero ne = refl
    other xs' same (suc j) ne = same j (ground (arith, ne))

abbrev pub same_type : DataType → DataType → Bool
same_type int64 int64 = true
same_type float64 float64 = true
same_type boolean boolean = true
same_type datetime datetime = true
same_type duration duration = true
same_type string string = true
same_type _ _ = false

-- Two columns with one builder.
abbrev pub same_slot : ColumnInfo → ColumnInfo → Bool
same_slot ci cj = same_type ci.data_type cj.data_type && (ci.index == cj.index)

same_type-eq : (t u : DataType) → same_type t u ≡ true → t ≡ u
same_type-eq t u h = ground (arith, h)

module _ (fmt : Formats) (timestamp_micros : fmt.DateTime → ℤ) where
  abbrev pub cells :
      ColumnInfo → Arrays fmt timestamp_micros → Option (Builder fmt timestamp_micros)
  cells ci a = get_elem? (array_of fmt timestamp_micros ci.data_type a) ci.index

  array_of-same :
      (t : DataType) (bs : List (Builder fmt timestamp_micros)) (a : Arrays fmt timestamp_micros)
      → array_of fmt timestamp_micros t (with_array fmt timestamp_micros t bs a) ≡ bs
  array_of-same t bs a = ground arith

  array_of-other :
      (t u : DataType) (bs : List (Builder fmt timestamp_micros)) (a : Arrays fmt timestamp_micros)
      → same_type t u ≡ false
      → array_of fmt timestamp_micros u (with_array fmt timestamp_micros t bs a)
        ≡ array_of fmt timestamp_micros u a
  array_of-other t u bs a ne = ground (arith, ne)

  -- A builder is put in the place of another.
  pub set_slot-slots :
      (b' : Builder fmt timestamp_micros) (ci : ColumnInfo) (a : Arrays fmt timestamp_micros)
      (b : Builder fmt timestamp_micros)
      → cells ci a ≡ some b
      → (bs : List (Builder fmt timestamp_micros)) × (set_at ci.index b'
            (array_of fmt timestamp_micros ci.data_type a)
          ≡ some bs)
        × (cells ci (with_array fmt timestamp_micros ci.data_type bs a) ≡ some b')
        × ((cj : ColumnInfo)
            → same_slot ci cj ≡ false
            → cells cj (with_array fmt timestamp_micros ci.data_type bs a) ≡ cells cj a)
  set_slot-slots b' ci a b h =
      let (bs, is_set, there, same, len) =
        set_at-other ci.index b' b (array_of fmt timestamp_micros ci.data_type a) h in
      (
        bs,
        is_set,
        ap (λ xs. get_elem? xs ci.index) (array_of-same ci.data_type bs a) ∙ there,
        λ cj ne. untouched cj bs same ne (Bool-cases (same_type ci.data_type cj.data_type)),
      )
    where
      untouched :
          (cj : ColumnInfo) (bs : List (Builder fmt timestamp_micros))
          → ((j : ℕ)
              → (j == ci.index) ≡ false
              → get_elem? bs j ≡ get_elem? (array_of fmt timestamp_micros ci.data_type a) j)
          → same_slot ci cj ≡ false
          → (same_type ci.data_type cj.data_type ≡ true)
            ⊎ (same_type ci.data_type cj.data_type ≡ false)
          → cells cj (with_array fmt timestamp_micros ci.data_type bs a) ≡ cells cj a
      untouched cj bs same ne (inr other) =
          ap (λ xs. get_elem? xs cj.index) (array_of-other ci.data_type cj.data_type bs a other)
      untouched cj bs same ne (inl one) =
          let same_t = same_type-eq ci.data_type cj.data_type one in
          let apart : (cj.index == ci.index) ≡ false = ground (arith, ne, one) in
          ap
            (λ t.
              get_elem?
                (array_of fmt timestamp_micros t
                  (with_array fmt timestamp_micros ci.data_type bs a))
                cj.index)
            (sym same_t)
          ∙ ap (λ xs. get_elem? xs cj.index) (array_of-same ci.data_type bs a)
          ∙ same cj.index apart
          ∙ ap (λ t. get_elem? (array_of fmt timestamp_micros t a) cj.index) same_t

  pub append_cell-slots :
      (cell : Option (Cell fmt)) (ci : ColumnInfo) (a : Arrays fmt timestamp_micros)
      (b : Builder fmt timestamp_micros)
      → cells ci a ≡ some b
      → (a' : Arrays fmt timestamp_micros) × (append_cell fmt timestamp_micros cell ci a ≡ some a')
        × (cells ci a' ≡ some (b ++ cell ∷ []))
        × ((cj : ColumnInfo) → same_slot ci cj ≡ false → cells cj a' ≡ cells cj a)
  append_cell-slots cell ci a b h =
      let (bs, is_set, there, others) = set_slot-slots (b ++ cell ∷ []) ci a b h in
      (
        with_array fmt timestamp_micros ci.data_type bs a,
        ap
              (λ o. o >>= λ builder.
                set_at ci.index (builder ++ cell ∷ [])
                  (array_of fmt timestamp_micros ci.data_type a)
                >>= λ bs'. some (with_array fmt timestamp_micros ci.data_type bs' a))
              h
            ∙ ap (λ o. o >>= λ bs'. some (with_array fmt timestamp_micros ci.data_type bs' a))
                is_set,
        there,
        others,
      )

  -- The slot of a new column is empty, and no other column's.
  pub new_slot-slots :
      (name : Bytes) (t : DataType) (a : Arrays fmt timestamp_micros)
      → let ci : ColumnInfo = record {
        name = name;
        data_type = t;
        index = (base_append_column_arrays fmt timestamp_micros t a).0;
      } in
        let a' : Arrays fmt timestamp_micros =
          (base_append_column_arrays fmt timestamp_micros t a).1 in
        (cells ci a' ≡ some [])
        × ((cj : ColumnInfo) (b : Builder fmt timestamp_micros)
            → cells cj a ≡ some b
            → (same_slot cj ci ≡ false) × (cells cj a' ≡ some b))
  new_slot-slots name t a =
      let bs : List (Builder fmt timestamp_micros) = array_of fmt timestamp_micros t a in
      (
        ap (λ xs. get_elem? xs (length bs)) (array_of-same t (bs ++ [] ∷ []) a)
            ∙ get_elem?-length bs [],
        λ cj b h. old cj b h (Bool-cases (same_type cj.data_type t)),
      )
    where
      old :
          (cj : ColumnInfo) (b : Builder fmt timestamp_micros)
          → cells cj a ≡ some b
          → (same_type cj.data_type t ≡ true) ⊎ (same_type cj.data_type t ≡ false)
          → (same_type cj.data_type t && (cj.index == length (array_of fmt timestamp_micros t a))
              ≡ false)
            × (cells cj (
                  with_array fmt timestamp_micros t
                    (array_of fmt timestamp_micros t a ++ [] ∷ [])
                    a)
                ≡ some b)
      old cj b h (inr other) = (
        ground (arith, other),
        ap (λ xs. get_elem? xs cj.index) (array_of-other t cj.data_type _ a (ground (arith, other)))
            ∙ h,
      )
      old cj b h (inl one) =
          let same_t : cj.data_type ≡ t = same_type-eq cj.data_type t one in
          let here : get_elem? (array_of fmt timestamp_micros t a) cj.index ≡ some b =
            ap (λ u. get_elem? (array_of fmt timestamp_micros u a) cj.index) (sym same_t) ∙ h in
          (
            ground (arith, get_elem?-bound cj.index (array_of fmt timestamp_micros t a) b here),
            ap
                  (λ u.
                    get_elem?
                      (array_of fmt timestamp_micros u (
                        with_array fmt timestamp_micros t
                          (array_of fmt timestamp_micros t a ++ [] ∷ []) a))
                      cj.index)
                  same_t
                ∙ ap (λ xs. get_elem? xs cj.index)
                    (array_of-same t (array_of fmt timestamp_micros t a ++ [] ∷ []) a)
                ∙ get_elem?-append cj.index (array_of fmt timestamp_micros t a) ([] ∷ []) b here,
          )
