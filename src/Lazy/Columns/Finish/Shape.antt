-- ===== src/Lazy/Columns/Finish/Shape.antt =====
-- The columns of even builders.
use polars_logfmt.Prelude.{
  ℕ, true, false, List, [], ◌∷◌, ◌++◌, append-nil, append_assoc, ◌≡◌, refl, sym, ap, ◌∙◌, Option,
  some, ◌==◌, ==_iff, length, get_elem?, arith, Bool-cases, Option-cases, inl, inr,
}
use polars_logfmt.Text.{Bytes, bytes_eq, bytes_eq_iff}
use polars_logfmt.Logfmt.Formats.{Formats}
use polars_logfmt.Logfmt.Integers.{ℤ}
use polars_logfmt.Logfmt.Scan.{◌>>=◌}
use polars_logfmt.Logfmt.Value.{Schema}
use polars_logfmt.Lazy.Batch.{contains_key}
use polars_logfmt.Lazy.Columns.{ColumnInfo, Builder, Arrays, with_array, position}
use polars_logfmt.Lazy.Columns.Slots.{same_slot, cells, set_slot-slots}
use polars_logfmt.Lazy.Columns.Push.{position-found}
use polars_logfmt.Lazy.Columns.Finish.{
  series_type, FrameColumn, Finished, finish_column, finish_at, finish_keys,
}
use polars_logfmt.Lazy.Columns.Finish.Ready.{
  AllApart, apart_two, AreTyped, AreTyped-at, AllDistinct, with_column, names, AreColumns, Ready,
}

-- Keys that differ have columns at two places.
at_two :
    (infos : List ColumnInfo) (key key' : Bytes) (at at' : ℕ)
    → bytes_eq key' key ≡ false
    → position key infos ≡ some at
    → position key' infos ≡ some at'
    → (at == at') ≡ false
at_two infos key key' at at' ne found found' = elim (Bool-cases (at == at')) [
  | inr apart ↦ apart
  | inl same ↦
      let (ci, is_ci, named) = position-found key infos at found in
      let (ci', is_ci', named') = position-found key' infos at' found' in
      let same_at : at ≡ at' = (==_iff at at').0 same in
      let same_ci : some ci ≡ some ci' = sym is_ci ∙ ap (get_elem? infos) same_at ∙ is_ci' in
      let e : ci ≡ ci' = cc in
      let same_key : key' ≡ key =
        sym ((bytes_eq_iff ci'.name key').0 named')
        ∙ ap (λ c. c.name) (sym e)
        ∙ (bytes_eq_iff ci.name key).0 named in
      cc (sym ne ∙ (bytes_eq_iff key' key).1 same_key)
]

module _ (fmt : Formats) (timestamp_micros : fmt.DateTime → ℤ) (n : ℕ) (infos : List ColumnInfo)
    (apart : AllApart infos) where
  Ready-take :
      (key : Bytes) (at : ℕ) (ci : ColumnInfo) (f : Finished fmt timestamp_micros)
      (a : Arrays fmt timestamp_micros) (columns : List (FrameColumn fmt timestamp_micros))
      (keys : List Bytes)
      → contains_key keys key ≡ false
      → position key infos ≡ some at
      → get_elem? infos at ≡ some ci
      → bytes_eq ci.name key ≡ true
      → ((cj : ColumnInfo)
          → same_slot ci cj ≡ false
          → cells fmt timestamp_micros cj a ≡ cells fmt timestamp_micros cj f.arrays)
      → Ready fmt timestamp_micros n infos keys f
      → Ready fmt timestamp_micros n infos keys
          (record { arrays = a; taken = ci.name ∷ f.taken; columns = columns })
  unfolding Ready
  Ready-take key at ci f a columns [] fresh found is_ci named others ready = tt
  Ready-take key at ci f a columns (key' ∷ keys) fresh found is_ci named others
        (untaken, has, ready) =
      let ne : bytes_eq key' key ≡ false = ground (arith, fresh) in
      (
        ground (
          arith,
          untaken,
          ne,
          bytes_eq_iff ci.name key,
          named,
          bytes_eq_iff ci.name key',
          bytes_eq_iff key' key,
        ),
        (λ at' ci' found' is_ci'.
            let (b, is_b, len) = has at' ci' found' is_ci' in
            (
              b,
              others ci' (
                    apart_two infos at at' ci ci' apart is_ci is_ci'
                      (at_two infos key key' at at' ne found found'))
                  ∙ is_b,
              len,
            )),
        Ready-take key at ci f a columns keys (ground (arith, fresh)) found is_ci named others
            ready,
      )

  -- The column that a builder becomes.
  column_of : ColumnInfo → Builder fmt timestamp_micros → FrameColumn fmt timestamp_micros
  column_of ci b = record { name = ci.name; dtype = series_type ci.data_type; values = b }

  finish_at-column :
      (key : Bytes) (at : ℕ) (f : Finished fmt timestamp_micros) (keys : List Bytes)
      → position key infos ≡ some at
      → contains_key keys key ≡ false
      → Ready fmt timestamp_micros n infos (key ∷ keys) f
      → (f' : Finished fmt timestamp_micros) × (ci : ColumnInfo) × (b : Builder fmt
          timestamp_micros)
        × (finish_at fmt timestamp_micros infos f (some at) ≡ some f')
        × (f'.columns ≡ f.columns ++ column_of ci b ∷ [])
        × (get_elem? infos at ≡ some ci)
        × (ci.name ≡ key)
        × (length b ≡ n)
        × Ready fmt timestamp_micros n infos keys f'
  unfolding Ready finish_column column_of
  finish_at-column key at f keys found fresh (untaken, has, ready) =
      let (ci, is_ci, named) = position-found key infos at found in
      let (b, is_b, len) = has at ci found is_ci in
      let (bs, is_set, there, others) = set_slot-slots fmt timestamp_micros [] ci f.arrays b is_b in
      let same : ci.name ≡ key = (bytes_eq_iff ci.name key).0 named in
      let untaken' : contains_key f.taken ci.name ≡ false =
        ap (contains_key f.taken) same ∙ untaken in
      let columns : List (FrameColumn fmt timestamp_micros) = f.columns ++ column_of ci b ∷ [] in
      let a : Arrays fmt timestamp_micros =
        with_array fmt timestamp_micros ci.data_type bs f.arrays in
      (
        record { arrays = a; taken = ci.name ∷ f.taken; columns = columns },
        ci,
        b,
        rw (is_ci, ◌>>=◌, is_b, is_set, untaken') refl,
        refl,
        is_ci,
        same,
        len,
        Ready-take key at ci f a columns keys fresh found is_ci named others ready,
      )

  cons_names : {j k : Bytes} {js ks : List Bytes} → j ≡ k → js ≡ ks → j ∷ js ≡ k ∷ ks
  cons_names same rest = cc

  pub finish_keys-columns :
      (schema : Option Schema) (keys : List Bytes) (f : Finished fmt timestamp_micros)
      → AreTyped schema infos
      → AllDistinct keys
      → Ready fmt timestamp_micros n infos keys f
      → (f' : Finished fmt timestamp_micros) × (columns : List (FrameColumn fmt timestamp_micros))
        × (finish_keys fmt timestamp_micros infos keys f ≡ some f')
        × (f'.columns ≡ f.columns ++ columns)
        × (names fmt timestamp_micros columns ≡ with_column infos keys)
        × AreColumns fmt timestamp_micros n schema columns
  unfolding Ready finish_keys column_of
  finish_keys-columns schema [] f typed distinct ready =
      (f, [], refl, sym (append-nil f.columns), refl, tt)
  finish_keys-columns schema (key ∷ keys) f typed (fresh, distinct) ready =
      elim (Option-cases (position key infos)) [
        | inl missing ↦
            let (f', columns, finished, all, named, are) =
              finish_keys-columns schema keys f typed distinct ready.2 in
            (f', columns, rw missing finished, all, rw (missing, with_column) named, are)
        | inr (at, found) ↦
            let (f1, ci, b, step, all1, is_ci, same, len, ready1) =
              finish_at-column key at f keys found fresh ready in
            let (f', columns, finished, all, named, are) =
              finish_keys-columns schema keys f1 typed distinct ready1 in
            (
              f',
              column_of ci b ∷ columns,
              ap
                    (λ o.
                      finish_at fmt timestamp_micros infos f o
                      >>= finish_keys fmt timestamp_micros infos keys)
                    found
                  ∙ ap (λ o. o >>= finish_keys fmt timestamp_micros infos keys) step
                  ∙ finished,
              all
                  ∙ ap (λ c. c ++ columns) all1
                  ∙ append_assoc f.columns (column_of ci b ∷ []) columns,
              rw (found, with_column) (cons_names same named),
              (len, ap series_type (AreTyped-at schema infos at ci typed is_ci), are),
            )
      ]
