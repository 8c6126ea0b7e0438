-- ===== src/Lazy/Columns/Finish/Run.antt =====
-- The frame of a whole run of lines.
use polars_logfmt.Prelude.{
  ℕ, ◌+◌, true, List, [], ◌∷◌, ◌≡◌, refl, sym, ap, ◌∙◌, subst, Option, some, length, arith, inr,
}
use polars_logfmt.Text.{Bytes, bytes_eq_iff}
use polars_logfmt.Maps.{Distinct, get}
use polars_logfmt.Logfmt.Formats.{Formats}
use polars_logfmt.Logfmt.Integers.{ℤ}
use polars_logfmt.Logfmt.Scan.{Pair, ◌>>=◌, handle_parse_logfmt_line_with_schema_base}
use polars_logfmt.Logfmt.Value.{Schema}
use polars_logfmt.Lazy.Batch.{contains_key}
use polars_logfmt.Lazy.Columns.{
  ColumnInfo, DataFrameMaker, position, push_line_to_column_mutable_array,
}
use polars_logfmt.Lazy.Columns.Whole.{IsEven, push_line-IsEven}
use polars_logfmt.Lazy.Columns.Lines.{Admits, Admits-first}
use polars_logfmt.Lazy.Columns.Finish.{FrameColumn, Finished, finish_keys, push_lines, to_df, build}
use polars_logfmt.Lazy.Columns.Finish.Ready.{
  AreTyped, AllDistinct, with_column, names, AreColumns, Even-Ready, Even-AllApart,
}
use polars_logfmt.Lazy.Columns.Finish.Shape.{finish_keys-columns}
use polars_logfmt.Lazy.Columns.Finish.Grow.{Extends-AreTyped, Extends-position, push_line-Extends}

-- Every key has a column.
abbrev AllHave : List Bytes → List ColumnInfo → Type 0
AllHave keys infos =
    (key : Bytes) → contains_key keys key ≡ true → (at : ℕ) × (position key infos ≡ some at)

-- Lines that the scanner reads as pairs with different keys.
abbrev pub AreScanned : List Bytes → Type 0
AreScanned [] = Unit {0}
AreScanned (line ∷ lines) =
    ((calls : List Pair) × (handle_parse_logfmt_line_with_schema_base line ≡ some calls)
      × Distinct calls)
    × AreScanned lines

Admits-AllHave :
    (n : ℕ) (k : Bytes) (keys : List Bytes) (infos : List ColumnInfo) (calls : List Pair)
    → AllHave (k ∷ keys) infos
    → Admits n (k ∷ keys) infos calls
Admits-AllHave n k keys infos [] have = tt
Admits-AllHave n k keys infos ((key, value) ∷ calls) have =
    ((λ wanted. inr (have key wanted)), Admits-AllHave n k keys infos calls have)

with_column-all :
    (infos : List ColumnInfo) (keys : List Bytes)
    → AllHave keys infos
    → with_column infos keys ≡ keys
with_column-all infos [] have = refl
with_column-all infos (key ∷ keys) have =
    let (at, found) = have key (ground (arith, (bytes_eq_iff key key).1 refl)) in
    rw (found, with_column)
      (ap (◌∷◌ key) (with_column-all infos keys (λ k is_in. have k (ground (arith, is_in)))))

module _ (fmt : Formats) (timestamp_micros : fmt.DateTime → ℤ) (schema : Option Schema) (k : Bytes)
    (keys : List Bytes) where
  -- Between two lines.
  record IsRunning (n : ℕ) (m : DataFrameMaker fmt timestamp_micros) : Type 0 where
    pub even : IsEven fmt timestamp_micros m
    pub typed : AreTyped schema m.column_infos
    pub rows : m.rows_pushed ≡ n
    pub is_schema : m.schema ≡ schema
    pub is_keys : m.column_keys ≡ k ∷ keys

  -- One line, the first or one whose wanted keys have columns.
  push_line-IsRunning :
      (n : ℕ) (m : DataFrameMaker fmt timestamp_micros) (line : Bytes) (calls : List Pair)
      → handle_parse_logfmt_line_with_schema_base line ≡ some calls
      → Distinct calls
      → Admits m.rows_pushed m.column_keys m.column_infos calls
      → IsRunning n m
      → (m' : DataFrameMaker fmt timestamp_micros) × (push_line_to_column_mutable_array fmt
            timestamp_micros line m
          ≡ some m')
        × IsRunning (n + 1) m'
  push_line-IsRunning n m line calls scanned distinct admits running =
      let (m', pushed, even, rows) =
        push_line-IsEven fmt timestamp_micros m line calls scanned distinct admits running.even in
      let (same_schema, same_keys, extends, named) =
        push_line-Extends fmt timestamp_micros m m' line calls scanned pushed in
      (
        m',
        pushed,
        record {
          even = even;
          typed =
              subst (λ s. AreTyped s m'.column_infos) running.is_schema
                (Extends-AreTyped m.schema m.column_infos m'.column_infos extends
                  (subst (λ s. AreTyped s m.column_infos) (sym running.is_schema) running.typed));
          rows = rows ∙ ap (λ r. r + 1) running.rows;
          is_schema = same_schema ∙ running.is_schema;
          is_keys = same_keys ∙ running.is_keys;
        },
      )

  later_line :
      (n : ℕ) (m : DataFrameMaker fmt timestamp_micros) (line : Bytes) (calls : List Pair)
      → handle_parse_logfmt_line_with_schema_base line ≡ some calls
      → Distinct calls
      → AllHave (k ∷ keys) m.column_infos
      → IsRunning n m
      → (m' : DataFrameMaker fmt timestamp_micros) × (push_line_to_column_mutable_array fmt
            timestamp_micros line m
          ≡ some m')
        × IsRunning (n + 1) m'
        × AllHave (k ∷ keys) m'.column_infos
  later_line n m line calls scanned distinct have running =
      let admits =
        subst (λ ks. Admits m.rows_pushed ks m.column_infos calls) (sym running.is_keys)
          (Admits-AllHave m.rows_pushed k keys m.column_infos calls have) in
      let (m', pushed, running') =
        push_line-IsRunning n m line calls scanned distinct admits running in
      let (same_schema, same_keys, extends, named) =
        push_line-Extends fmt timestamp_micros m m' line calls scanned pushed in
      (
        m',
        pushed,
        running',
        λ key wanted.
            let (at, found) = have key wanted in
            (at, Extends-position m.schema m.column_infos m'.column_infos key at extends found),
      )

  push_lines-IsRunning :
      (n : ℕ) (m : DataFrameMaker fmt timestamp_micros) (lines : List Bytes)
      → AreScanned lines
      → AllHave (k ∷ keys) m.column_infos
      → IsRunning n m
      → (m' : DataFrameMaker fmt timestamp_micros) × (push_lines fmt timestamp_micros lines m
          ≡ some m')
        × IsRunning (n + length lines) m'
        × AllHave (k ∷ keys) m'.column_infos
  unfolding push_lines
  push_lines-IsRunning n m [] scanned have running =
      (m, refl, subst (λ r. IsRunning r m) (omega arith) running, have)
  push_lines-IsRunning n m (line ∷ lines) ((calls, scanned, distinct), later) have running =
      let (m1, pushed, running1, have1) = later_line n m line calls scanned distinct have running in
      let (m', pushed', running', have') =
        push_lines-IsRunning (n + 1) m1 lines later have1 running1 in
      (
        m',
        ap (λ o. o >>= push_lines fmt timestamp_micros lines) pushed ∙ pushed',
        subst (λ r. IsRunning r m') (omega arith) running',
        have',
      )

  finish-IsRunning :
      (n : ℕ) (m : DataFrameMaker fmt timestamp_micros)
      → AllDistinct (k ∷ keys)
      → AllHave (k ∷ keys) m.column_infos
      → IsRunning n m
      → (m' : DataFrameMaker fmt timestamp_micros) × (columns : List
          (FrameColumn fmt timestamp_micros))
        × (to_df fmt timestamp_micros m ≡ some (m', columns))
        × (names fmt timestamp_micros columns ≡ k ∷ keys)
        × AreColumns fmt timestamp_micros n schema columns
  unfolding to_df IsEven
  finish-IsRunning n m distinct have running =
      let even = running.even in
      let start : Finished fmt timestamp_micros = record {
        arrays = m.arrays;
        taken = [];
        columns = [];
      } in
      let (f, columns, finished, all, named, are) =
        finish_keys-columns fmt timestamp_micros m.rows_pushed m.column_infos
          (Even-AllApart fmt timestamp_micros m.rows_pushed m.column_infos m.column_infos m.row_seen
            m.arrays even)
          schema (k ∷ keys) start running.typed distinct
          (Even-Ready fmt timestamp_micros m.rows_pushed m.column_infos m.row_seen m.arrays
            (k ∷ keys) even) in
      (
        record m { arrays = f.arrays },
        columns,
        ap
              (λ ks. finish_keys fmt timestamp_micros m.column_infos ks start >>= λ g.
                some (record m { arrays = g.arrays }, g.columns))
              running.is_keys
            ∙ ap (λ o. o >>= λ g. some (record m { arrays = g.arrays }, g.columns)) finished
            ∙ ap (λ c. some (record m { arrays = f.arrays }, c)) all,
        named ∙ with_column-all m.column_infos (k ∷ keys) have,
        subst (λ r. AreColumns fmt timestamp_micros r schema columns) running.rows are,
      )

-- A maker whose wanted keys, all different, the first line carries, and lines that the scanner reads as pairs
-- with different keys: the lines are pushed without a panic, and the frame has one column for each wanted
-- key, in their order, with a cell for each line, of the type that the schema gives the key.
pub push_lines-to_df :
    (fmt : Formats) (timestamp_micros : fmt.DateTime → ℤ) (schema : Option Schema) (k : Bytes)
    (keys : List Bytes) (line : Bytes) (calls : List Pair) (lines : List Bytes)
    → handle_parse_logfmt_line_with_schema_base line ≡ some calls
    → Distinct calls
    → AllDistinct (k ∷ keys)
    → ((key : Bytes)
        → contains_key (k ∷ keys) key ≡ true
        → (value : Bytes) × (get key calls ≡ some value))
    → AreScanned lines
    → (m : DataFrameMaker fmt timestamp_micros) × (m' : DataFrameMaker fmt timestamp_micros)
      × (columns : List (FrameColumn fmt timestamp_micros)) × (push_lines fmt timestamp_micros
            (line ∷ lines)
            (record (build fmt timestamp_micros schema) { column_keys = k ∷ keys })
          ≡ some m)
      × (to_df fmt timestamp_micros m ≡ some (m', columns))
      × (names fmt timestamp_micros columns ≡ k ∷ keys)
      × AreColumns fmt timestamp_micros (length lines + 1) schema columns
unfolding push_lines build IsEven
push_lines-to_df fmt timestamp_micros schema k keys line calls lines scanned distinct distinct_keys
      carried scanned_lines =
    let m0 : DataFrameMaker fmt timestamp_micros = record (build fmt timestamp_micros schema) {
      column_keys = k ∷ keys;
    } in
    let running0 : IsRunning fmt timestamp_micros schema k keys 0 m0 = record {
      even = tt;
      typed = tt;
      rows = refl;
      is_schema = refl;
      is_keys = refl;
    } in
    let (m1, pushed, running1) =
      push_line-IsRunning fmt timestamp_micros schema k keys 0 m0 line calls scanned distinct
        (Admits-first 0 (k ∷ keys) [] calls refl) running0 in
    let (same_schema, same_keys, extends, named) =
      push_line-Extends fmt timestamp_micros m0 m1 line calls scanned pushed in
    let have1 : AllHave (k ∷ keys) m1.column_infos =
      λ key wanted. let (value, has) = carried key wanted in named key value wanted has in
    let (m, pushed', running, have) =
      push_lines-IsRunning fmt timestamp_micros schema k keys (0 + 1) m1 lines scanned_lines have1
        running1 in
    let (m', columns, made, all, are) =
      finish-IsRunning fmt timestamp_micros schema k keys (0 + 1 + length lines) m distinct_keys
        have running in
    let rows : 0 + 1 + length lines ≡ length lines + 1 = omega arith in
    (
      m,
      m',
      columns,
      ap (λ o. o >>= push_lines fmt timestamp_micros lines) pushed ∙ pushed',
      made,
      all,
      subst (λ r. AreColumns fmt timestamp_micros r schema columns) rows are,
    )
