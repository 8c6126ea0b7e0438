-- ===== src/Lazy/Columns/Finish/Ready.antt =====
-- The builders that are still to become columns.
use polars_logfmt.Prelude.{
  ℕ, zero, suc, false, List, [], ◌∷◌, ◌≡◌, refl, sym, subst, Option, none, some, ◌==◌, length,
  get_elem?, arith,
}
use polars_logfmt.Text.{Bytes}
use polars_logfmt.Logfmt.Formats.{Formats}
use polars_logfmt.Logfmt.Integers.{ℤ}
use polars_logfmt.Logfmt.Value.{Schema}
use polars_logfmt.Lazy.Batch.{contains_key}
use polars_logfmt.Lazy.Columns.{ColumnInfo, Builder, Arrays, position, type_of, field_in}
use polars_logfmt.Lazy.Columns.Slots.{same_slot, cells}
use polars_logfmt.Lazy.Columns.Even.{Apart, Apart-at, same_slot-sym}
use polars_logfmt.Lazy.Columns.Nulls.{Even}
use polars_logfmt.Lazy.Columns.Finish.{series_type, FrameColumn, Finished}

abbrev pub AllApart : List ColumnInfo → Type 0
AllApart [] = Unit {0}
AllApart (ci ∷ infos) = Apart ci infos × AllApart infos

-- Columns at two places have two builders.
pub apart_two :
    (infos : List ColumnInfo) (i j : ℕ) (ci cj : ColumnInfo)
    → AllApart infos
    → get_elem? infos i ≡ some ci
    → get_elem? infos j ≡ some cj
    → (i == j) ≡ false
    → same_slot ci cj ≡ false
apart_two [] i j ci cj apart at_i at_j ne = cc
apart_two (ck ∷ infos) zero zero ci cj apart at_i at_j ne = cc
apart_two (ck ∷ infos) zero (suc j) ci cj (here, apart) at_i at_j ne =
    let same : ci ≡ ck = cc in
    subst (λ c. same_slot c cj ≡ false) (sym same) (Apart-at ck cj infos j here at_j)
apart_two (ck ∷ infos) (suc i) zero ci cj (here, apart) at_i at_j ne =
    let same : cj ≡ ck = cc in
    subst (λ c. same_slot ci c ≡ false) (sym same)
      (same_slot-sym ck ci (Apart-at ck ci infos i here at_i))
apart_two (ck ∷ infos) (suc i) (suc j) ci cj (here, apart) at_i at_j ne =
    apart_two infos i j ci cj apart at_i at_j (ground (arith, ne))

-- The type of each column is the one that the schema gives its key.
abbrev pub AreTyped : Option Schema → List ColumnInfo → Type 0
AreTyped schema [] = Unit {0}
AreTyped schema (ci ∷ infos) =
    (ci.data_type ≡ type_of (field_in schema ci.name)) × AreTyped schema infos

pub AreTyped-at :
    (schema : Option Schema) (infos : List ColumnInfo) (at : ℕ) (ci : ColumnInfo)
    → AreTyped schema infos
    → get_elem? infos at ≡ some ci
    → ci.data_type ≡ type_of (field_in schema ci.name)
AreTyped-at schema [] at ci typed h = cc
AreTyped-at schema (ck ∷ infos) zero ci (here, typed) h = ground (arith, here, h)
AreTyped-at schema (ck ∷ infos) (suc at) ci (here, typed) h = AreTyped-at schema infos at ci typed h

abbrev pub AllDistinct : List Bytes → Type 0
AllDistinct [] = Unit {0}
AllDistinct (key ∷ keys) = (contains_key keys key ≡ false) × AllDistinct keys

-- The keys that have a column.
abbrev pub with_column : List ColumnInfo → List Bytes → List Bytes
with_column infos [] = []
with_column infos (key ∷ keys) = elim (position key infos) [
  | none ↦ with_column infos keys
  | some at ↦ key ∷ with_column infos keys
]

module _ (fmt : Formats) (timestamp_micros : fmt.DateTime → ℤ) where
  abbrev pub names : List (FrameColumn fmt timestamp_micros) → List Bytes
  names [] = []
  names (c ∷ columns) = c.name ∷ names columns

  -- Columns of `n` rows, of the types that the schema gives.
  abbrev pub AreColumns : ℕ → Option Schema → List (FrameColumn fmt timestamp_micros) → Type 0
  AreColumns n schema [] = Unit {0}
  AreColumns n schema (c ∷ columns) =
      (length c.values ≡ n)
      × (c.dtype ≡ series_type (type_of (field_in schema c.name)))
      × AreColumns n schema columns

  module _ (n : ℕ) (infos : List ColumnInfo) where
    Even-at :
        (infos : List ColumnInfo) (row_seen : List ℕ) (a : Arrays fmt timestamp_micros) (at : ℕ)
        (ci : ColumnInfo)
        → Even fmt timestamp_micros n infos row_seen a
        → get_elem? infos at ≡ some ci
        → (b : Builder fmt timestamp_micros) × (cells fmt timestamp_micros ci a ≡ some b)
          × (length b ≡ n)
    Even-at [] row_seen a at ci even h = cc
    Even-at (ck ∷ infos) [] a at ci even h = absurd even
    Even-at (ck ∷ infos) (seen ∷ row_seen) a zero ci (has, le, apart, even) h =
        let same : ck ≡ ci = cc in
        subst
          (λ c.
            (b : Builder fmt timestamp_micros) × (cells fmt timestamp_micros c a ≡ some b)
            × (length b ≡ n))
          same has
    Even-at (ck ∷ infos) (seen ∷ row_seen) a (suc at) ci (has, le, apart, even) h =
        Even-at infos row_seen a at ci even h

    pub Even-AllApart :
        (infos : List ColumnInfo) (row_seen : List ℕ) (a : Arrays fmt timestamp_micros)
        → Even fmt timestamp_micros n infos row_seen a
        → AllApart infos
    Even-AllApart [] row_seen a even = tt
    Even-AllApart (ci ∷ infos) [] a even = absurd even
    Even-AllApart (ci ∷ infos) (seen ∷ row_seen) a (has, le, apart, even) =
        (apart, Even-AllApart infos row_seen a even)

    -- The builders of the keys that are still to be finished.
    unfoldable pub Ready : List Bytes → Finished fmt timestamp_micros → Type 0
    Ready [] f = Unit {0}
    Ready (key ∷ keys) f =
        (contains_key f.taken key ≡ false)
        × ((at : ℕ) (ci : ColumnInfo)
            → position key infos ≡ some at
            → get_elem? infos at ≡ some ci
            → (b : Builder fmt timestamp_micros) × (cells fmt timestamp_micros ci f.arrays ≡ some b)
              × (length b ≡ n))
        × Ready keys f

    pub Even-Ready :
        (row_seen : List ℕ) (a : Arrays fmt timestamp_micros) (keys : List Bytes)
        → Even fmt timestamp_micros n infos row_seen a
        → Ready keys (record { arrays = a; taken = []; columns = [] })
    unfolding Ready
    Even-Ready row_seen a [] even = tt
    Even-Ready row_seen a (key ∷ keys) even = (
      refl,
      (λ at ci found is_ci. Even-at infos row_seen a at ci even is_ci),
      Even-Ready row_seen a keys even,
    )
