-- ===== src/Lazy/Columns/Push.antt =====
-- What a pair does to the columns.
use polars_logfmt.Prelude.{
  ℕ, zero, suc, ◌+◌, true, false, List, [], ◌∷◌, ◌≡◌, refl, sym, ap, subst, ◌∙◌, none, some, ◌==◌,
  get_elem?, arith, Bool-cases, Option-cases, inl, inr,
}
use polars_logfmt.Text.{Bytes, bytes_eq, bytes_eq_iff}
use polars_logfmt.Maps.{get}
use polars_logfmt.Logfmt.Formats.{Formats}
use polars_logfmt.Logfmt.Integers.{ℤ}
use polars_logfmt.Logfmt.Scan.{Pair}
use polars_logfmt.Lazy.Columns.{ColumnInfo, Builder, Arrays, Line, hit, cell_of, position, set_at}
use polars_logfmt.Lazy.Columns.Slots.{cells, append_cell-slots}
use polars_logfmt.Lazy.Columns.Even.{Grows, Grows-append, count_seen}

pub position-found :
    (key : Bytes) (infos : List ColumnInfo) (at : ℕ)
    → position key infos ≡ some at
    → (ci : ColumnInfo) × (get_elem? infos at ≡ some ci) × (bytes_eq ci.name key ≡ true)
position-found key [] at h = cc
position-found key (ci ∷ infos) at h = elim (Bool-cases (bytes_eq ci.name key)) [
  | inl here ↦
      let is_zero : 0 ≡ at = ground (arith, here, h) in
      (ci, subst (λ k. get_elem? (ci ∷ infos) k ≡ some ci) is_zero refl, here)
  | inr other ↦ elim (Option-cases (position key infos)) [
    | inl missing ↦ absurd (ground (arith, other, missing, h))
    | inr (i, found) ↦
        let is_suc : suc i ≡ at = ground (arith, other, found, h) in
        let (cj, there, named) = position-found key infos i found in
        (cj, subst (λ k. get_elem? (ci ∷ infos) k ≡ some cj) is_suc there, named)
  ]
]

module _ (r : ℕ) where
  -- No pair that is still to come has the key of a column that the row has carried.
  abbrev pub Unseen : List Pair → List ColumnInfo → List ℕ → Type 0
  Unseen calls (ci ∷ infos) (seen ∷ row_seen) =
      ((seen == r) ≡ true → get ci.name calls ≡ none) × Unseen calls infos row_seen
  Unseen calls _ _ = Unit {0}

  get-rest :
      (k : Bytes) (call : Pair) (calls : List Pair)
      → get k (call ∷ calls) ≡ none
      → get k calls ≡ none
  unfolding get
  get-rest k (key, value) calls h = ground (arith, h)

  pub Unseen-rest :
      (call : Pair) (calls : List Pair) (infos : List ColumnInfo) (row_seen : List ℕ)
      → Unseen (call ∷ calls) infos row_seen
      → Unseen calls infos row_seen
  Unseen-rest call calls [] [] u = tt
  Unseen-rest call calls [] (seen ∷ row_seen) u = tt
  Unseen-rest call calls (ci ∷ infos) [] u = tt
  Unseen-rest call calls (ci ∷ infos) (seen ∷ row_seen) (here, u) =
      ((λ e. get-rest ci.name call calls (here e)), Unseen-rest call calls infos row_seen u)

  -- The column of the next pair has not been carried, and is then the only one that has been besides.
  Unseen-set :
      (key value : Bytes) (calls : List Pair) (infos : List ColumnInfo)
      (row_seen row_seen' : List ℕ) (at : ℕ) (ci : ColumnInfo)
      → get_elem? infos at ≡ some ci
      → bytes_eq ci.name key ≡ true
      → get key calls ≡ none
      → set_at at r row_seen ≡ some row_seen'
      → Unseen ((key, value) ∷ calls) infos row_seen
      → Unseen calls infos row_seen'
  unfolding set_at
  Unseen-set key value calls [] row_seen row_seen' at ci is_ci named later is_set u = cc
  Unseen-set key value calls (cj ∷ infos) [] row_seen' at ci is_ci named later is_set u = cc
  Unseen-set key value calls (cj ∷ infos) (s ∷ row_seen) row_seen' zero ci is_ci named later is_set
        (here, u) =
      let same_ci : ci ≡ cj = cc in
      let is_key : ci.name ≡ key = (bytes_eq_iff ci.name key).0 named in
      let none_left : get cj.name calls ≡ none =
        ap (λ c. get c.name calls) (sym same_ci) ∙ ap (λ k. get k calls) is_key ∙ later in
      let changed : r ∷ row_seen ≡ row_seen' = cc in
      subst (Unseen calls (cj ∷ infos)) changed
        ((λ e. none_left), Unseen-rest (key, value) calls infos row_seen u)
  Unseen-set key value calls (cj ∷ infos) (s ∷ row_seen) row_seen' (suc at) ci is_ci named later
        is_set (here, u) =
      elim (Option-cases (set_at at r row_seen)) [
        | inl failed ↦ absurd (ground (arith, failed, is_set))
        | inr (rest, set_rest) ↦
            let changed : s ∷ rest ≡ row_seen' = ground (arith, set_rest, is_set) in
            subst (Unseen calls (cj ∷ infos)) changed (
              (λ e. get-rest cj.name (key, value) calls (here e)),
              Unseen-set key value calls infos row_seen rest at ci is_ci named later set_rest u,
            )
      ]

  Unseen-at :
      (key value : Bytes) (calls : List Pair) (infos : List ColumnInfo) (row_seen : List ℕ)
      (at seen : ℕ) (ci : ColumnInfo)
      → get_elem? infos at ≡ some ci
      → get_elem? row_seen at ≡ some seen
      → bytes_eq ci.name key ≡ true
      → Unseen ((key, value) ∷ calls) infos row_seen
      → (seen == r) ≡ false
  unfolding get
  Unseen-at key value calls [] row_seen at seen ci is_ci is_seen named u = cc
  Unseen-at key value calls (cj ∷ infos) [] at seen ci is_ci is_seen named u = cc
  Unseen-at key value calls (cj ∷ infos) (s ∷ row_seen) zero seen ci is_ci is_seen named (here, u) =
      elim (Bool-cases (seen == r)) [
        | inr unseen ↦ unseen
        | inl carried ↦
            let same_ci : ci ≡ cj = cc in
            let same_s : seen ≡ s = cc in
            let is_key : cj.name ≡ key =
              (bytes_eq_iff cj.name key).0 (ap (λ c. bytes_eq c.name key) (sym same_ci) ∙ named) in
            let found : bytes_eq key cj.name ≡ true = (bytes_eq_iff key cj.name).1 (sym is_key) in
            let none_left = here (ap (λ k. k == r) (sym same_s) ∙ carried) in
            absurd (ground (arith, none_left, found))
      ]
  Unseen-at key value calls (cj ∷ infos) (s ∷ row_seen) (suc at) seen ci is_ci is_seen named
        (here, u) =
      Unseen-at key value calls infos row_seen at seen ci is_ci is_seen named u

module _ (fmt : Formats) (timestamp_micros : fmt.DateTime → ℤ) (n r : ℕ) (next : r ≡ n + 1) where
  -- The columns in the middle of a line, `calls` being the pairs still to come.
  abbrev pub Good : List Pair → Line fmt timestamp_micros → Type 0
  Good calls l =
      Grows fmt timestamp_micros n r l.column_infos l.row_seen l.arrays
      × (l.hits ≡ count_seen r l.row_seen)
      × Unseen r calls l.column_infos l.row_seen

  Grows-at :
      (infos : List ColumnInfo) (row_seen : List ℕ) (a : Arrays fmt timestamp_micros) (at : ℕ)
      (ci : ColumnInfo)
      → Grows fmt timestamp_micros n r infos row_seen a
      → get_elem? infos at ≡ some ci
      → (seen : ℕ) × (b : Builder fmt timestamp_micros) × (get_elem? row_seen at ≡ some seen)
        × (cells fmt timestamp_micros ci a ≡ some b)
  Grows-at [] row_seen a at ci grows is_ci = cc
  Grows-at (cj ∷ infos) [] a at ci grows is_ci = absurd grows
  Grows-at (cj ∷ infos) (seen ∷ row_seen) a zero ci ((b, has, len), le, apart, grows) is_ci =
      let same_ci : cj ≡ ci = cc in
      (seen, b, refl, ap (λ c. cells fmt timestamp_micros c a) (sym same_ci) ∙ has)
  Grows-at (cj ∷ infos) (seen ∷ row_seen) a (suc at) ci ((b, has, len), le, apart, grows) is_ci =
      Grows-at infos row_seen a at ci grows is_ci

  pub hit-Good :
      (key value : Bytes) (calls : List Pair) (l : Line fmt timestamp_micros) (at : ℕ)
      (ci : ColumnInfo)
      → get_elem? l.column_infos at ≡ some ci
      → bytes_eq ci.name key ≡ true
      → get key calls ≡ none
      → Good ((key, value) ∷ calls) l
      → (l' : Line fmt timestamp_micros) × (hit fmt timestamp_micros r value at l ≡ some l')
        × (l'.column_infos ≡ l.column_infos)
        × Good calls l'
  unfolding hit
  hit-Good key value calls l at ci is_ci named later (grows, counted, unseen) =
      let (seen, b, is_seen, had) = Grows-at l.column_infos l.row_seen l.arrays at ci grows is_ci in
      let fresh =
        Unseen-at r key value calls l.column_infos l.row_seen at seen ci is_ci is_seen named
          unseen in
      let cell = some (cell_of fmt timestamp_micros ci.data_type value) in
      let (a', appended, has, others) =
        append_cell-slots fmt timestamp_micros cell ci l.arrays b had in
      let (row_seen', is_set, grows', one_more) =
        Grows-append fmt timestamp_micros n r ci b cell l.column_infos l.row_seen at seen l.arrays
          a' is_ci is_seen fresh had has others grows in
      (
        record l { row_seen = row_seen'; hits = l.hits + 1; arrays = a' },
        ground (arith, is_set, is_ci, appended),
        refl,
        (
          grows',
          omega (arith, counted, one_more),
          Unseen-set r key value calls l.column_infos l.row_seen row_seen' at ci is_ci named later
              is_set unseen,
        ),
      )
