-- ===== src/Lazy/Scan/Alike.antt =====
-- Which frames of a scan can be put one behind the other.
use polars_logfmt.Prelude.{
  ℕ, ◌+◌, Bool, true, false, ◌&&◌, ◌⊎◌, inl, inr, List, [], ◌∷◌, ◌≡◌, refl, sym, ap, ◌∙◌, Option,
  none, some, ◌==◌, length, arith, Bool-cases, if◌then◌else◌,
}
use polars_logfmt.Text.{Bytes, bytes_eq}
use polars_logfmt.Logfmt.Formats.{Formats}
use polars_logfmt.Logfmt.Value.{Schema}
use polars_logfmt.Logfmt.Rows.{Row}
use polars_logfmt.Lazy.Table.{
  InferredType, string, int, float, bool, datetime, Column, strings, ints, floats, bools, datetimes,
}
use polars_logfmt.Lazy.Reader.{DataFrames}
use polars_logfmt.Lazy.Reader.Progress.{shown, columns}
use polars_logfmt.Lazy.Scan.{Stacks, names_eq, stacked, out_frame}

-- The names and the types of columns.
abbrev pub Shape : Type 0
Shape = List (Bytes × InferredType)

abbrev pub same_type : InferredType → InferredType → Bool
same_type string string = true
same_type int int = true
same_type float float = true
same_type bool bool = true
same_type datetime datetime = true
same_type _ _ = false

abbrev pub same_shape : Shape → Shape → Bool
same_shape [] [] = true
same_shape [] (c ∷ shape) = false
same_shape (c ∷ shape) [] = false
same_shape ((name, t) ∷ shape) ((name', t') ∷ shape') =
    bytes_eq name name' && (same_type t t' && same_shape shape shape')

abbrev pub shape_names : Shape → List Bytes
shape_names [] = []
shape_names ((name, t) ∷ shape) = name ∷ shape_names shape

same_shape-names :
    (a b : Shape) → same_shape a b ≡ true → names_eq (shape_names a) (shape_names b) ≡ true
same_shape-names [] [] same = refl
same_shape-names [] (c ∷ b) same = cc
same_shape-names (c ∷ a) [] same = cc
same_shape-names ((name, t) ∷ a) ((name', t') ∷ b) same =
    ground (arith, same, same_shape-names a b (ground (arith, same)))

module _ (fmt : Formats) (frames : DataFrames fmt) where
  abbrev pub kind : Column fmt frames.casts → InferredType
  kind (strings cells) = string
  kind (ints cells) = int
  kind (floats cells) = float
  kind (bools cells) = bool
  kind (datetimes cells) = datetime

  abbrev pub shape_in : List (Bytes × Column fmt frames.casts) → Shape
  shape_in [] = []
  shape_in ((name, column) ∷ cs) = (name, kind column) ∷ shape_in cs

  pub shown-narrow :
      (cs : List (Bytes × Column fmt frames.casts)) (n : ℕ)
      → (length (shape_in cs) == 0) ≡ true
      → shown cs n ≡ 0
  shown-narrow [] n narrow = refl
  shown-narrow (c ∷ cs) n narrow = absurd (ground (arith, narrow))

  pub shown-wide :
      (cs : List (Bytes × Column fmt frames.casts)) (n : ℕ)
      → (length (shape_in cs) == 0) ≡ false
      → shown cs n ≡ n
  shown-wide [] n wide = absurd (ground (arith, wide))
  shown-wide (c ∷ cs) n wide = refl

  module _ (schema : Schema) where
    -- The shape of the frame of a batch.
    abbrev pub shape_of_batch : List (Row fmt) → Shape
    shape_of_batch batch = shape_in (columns fmt frames batch schema)

    -- The rows of the batches that have a column.
    abbrev pub counted : List (List (Row fmt)) → ℕ
    counted [] = 0
    counted (batch ∷ batches) =
        shown (columns fmt frames batch schema) (length batch) + counted batches

    -- Whether the frames of the batches that have a column have the names and the types of those before, and
    -- of each other.
    unfoldable pub are_alike : List (List (Row fmt)) → Option Shape → Bool
    are_alike [] before = true
    are_alike (batch ∷ batches) none =
        let rest = are_alike batches none in
        let rest' = are_alike batches (some (shape_of_batch batch)) in
        if length (shape_of_batch batch) == 0 then rest else rest'
    are_alike (batch ∷ batches) (some before) =
        let rest = are_alike batches (some before) in
        if length (shape_of_batch batch) == 0
        then rest
        else same_shape before (shape_of_batch batch) && rest

  module _ (stacks : Stacks fmt frames) where
    -- What Polars does: the frame of no columns has no rows, a frame has the columns that it is made of, and
    -- frames with columns stack just if these have the same names and types, in the same order.
    pub record StacksFrames : Type 0 where
      pub shape_of : frames.DataFrame → Shape
      pub empty : frames.height stacks.default_frame ≡ 0
      pub shaped :
          (cs : List (Bytes × Column fmt frames.casts)) (df : frames.DataFrame)
          → frames.new_frame cs ≡ some df
          → shape_of df ≡ shape_in cs
      pub wide : (df : frames.DataFrame) → stacks.width df ≡ length (shape_of df)
      pub named : (df : frames.DataFrame) → stacks.get_column_names df ≡ shape_names (shape_of df)
      pub alike :
          (a b : frames.DataFrame)
          → same_shape (shape_of a) (shape_of b) ≡ true
          → (both : frames.DataFrame) × (stacks.vstack_mut a b ≡ some both)
            × (shape_of both ≡ shape_of a)
            × (frames.height both ≡ frames.height a + frames.height b)
      pub other :
          (a b : frames.DataFrame)
          → (stacks.width a == 0) ≡ false
          → (stacks.width b == 0) ≡ false
          → same_shape (shape_of a) (shape_of b) ≡ false
          → stacks.vstack_mut a b ≡ none

    -- The frames with columns, one behind the other.
    unfoldable pub together :
        List frames.DataFrame → Option frames.DataFrame → Option (Option frames.DataFrame)
    together [] acc = some acc
    together (df ∷ dfs) acc = elim (stacks.width df == 0) [
      | true ↦ together dfs acc
      | false ↦ elim (stacked fmt frames stacks acc df) [
        | none ↦ none
        | some acc' ↦ together dfs acc'
      ]
    ]

    abbrev pub height_of : Option frames.DataFrame → ℕ
    height_of acc = frames.height (out_frame fmt frames stacks acc)

    -- Frames that are alike give one of `n` rows; others do not go together.
    abbrev pub GoTogether : Bool → ℕ → Option (Option frames.DataFrame) → Type 0
    GoTogether alike n outcome =
        ((alike ≡ true)
          × (acc : Option frames.DataFrame) × (outcome ≡ some acc)
          × (height_of acc ≡ n))
        ⊎ ((alike ≡ false) × (outcome ≡ none))

    pub GoTogether-along :
        {a a' : Bool} {n n' : ℕ} {o o' : Option (Option frames.DataFrame)}
        → a ≡ a'
        → n' ≡ n
        → o ≡ o'
        → GoTogether a' n' o'
        → GoTogether a n o
    GoTogether-along same same' same'' (inl (alike, acc, goes, high)) =
        inl (same ∙ alike, acc, same'' ∙ goes, high ∙ same')
    GoTogether-along same same' same'' (inr (other, fails)) = inr (same ∙ other, same'' ∙ fails)

    module _ (laws : StacksFrames) where
      abbrev pub shape_before : Option frames.DataFrame → Option Shape
      shape_before none = none
      shape_before (some df) = some (laws.shape_of df)

      abbrev pub IsWide : Option frames.DataFrame → Type 0
      IsWide none = Unit {0}
      IsWide (some df) = (stacks.width df == 0) ≡ false

      pub stacked-alike :
          (a df : frames.DataFrame)
          → same_shape (laws.shape_of a) (laws.shape_of df) ≡ true
          → (both : frames.DataFrame) × (stacked fmt frames stacks (some a) df ≡ some (some both))
            × (laws.shape_of both ≡ laws.shape_of a)
            × (frames.height both ≡ frames.height a + frames.height df)
      stacked-alike a df same =
          let (both, stacks_as, shaped, high) = laws.alike a df same in
          let named : names_eq (stacks.get_column_names a) (stacks.get_column_names df) ≡ true =
            ap (λ ns. names_eq ns (stacks.get_column_names df)) (laws.named a)
            ∙ ap (names_eq (shape_names (laws.shape_of a))) (laws.named df)
            ∙ same_shape-names (laws.shape_of a) (laws.shape_of df) same in
          (both, rw (named, stacks_as) refl, shaped, high)

      pub stacked-other :
          (a df : frames.DataFrame)
          → (stacks.width a == 0) ≡ false
          → (stacks.width df == 0) ≡ false
          → same_shape (laws.shape_of a) (laws.shape_of df) ≡ false
          → stacked fmt frames stacks (some a) df ≡ none
      stacked-other a df wide_a wide_df differ =
          let fails = laws.other a df wide_a wide_df differ in
          elim (Bool-cases (names_eq (stacks.get_column_names a) (stacks.get_column_names df))) [
            | inl same ↦ rw (same, fails) refl
            | inr others ↦ rw others refl
          ]

      module _ (schema : Schema) (batch : List (Row fmt)) (batches : List (List (Row fmt)))
          (df : frames.DataFrame) (dfs : List frames.DataFrame)
          (shaped : laws.shape_of df ≡ shape_of_batch schema batch) where
        is_narrow :
            (length (shape_of_batch schema batch) == 0) ≡ true → (stacks.width df == 0) ≡ true
        is_narrow narrow = ap (λ k. k == 0) (laws.wide df ∙ ap length shaped) ∙ narrow

        pub together-narrow :
            (acc : Option frames.DataFrame)
            → (length (shape_of_batch schema batch) == 0) ≡ true
            → (are_alike schema (batch ∷ batches) (shape_before acc)
                ≡ are_alike schema batches (shape_before acc))
              × (together (df ∷ dfs) acc ≡ together dfs acc)
        unfolding are_alike together
        together-narrow none narrow = (rw narrow refl, rw (together, is_narrow narrow) refl)
        together-narrow (some a) narrow = (rw narrow refl, rw (together, is_narrow narrow) refl)

        pub is_wide :
            (length (shape_of_batch schema batch) == 0) ≡ false → (stacks.width df == 0) ≡ false
        is_wide wide = ap (λ k. k == 0) (laws.wide df ∙ ap length shaped) ∙ wide

        pub together-first :
            (length (shape_of_batch schema batch) == 0) ≡ false
            → (are_alike schema (batch ∷ batches) none
                ≡ are_alike schema batches (some (laws.shape_of df)))
              × (together (df ∷ dfs) none ≡ together dfs (some df))
        unfolding are_alike together
        together-first wide = (
          rw wide (ap (λ s. are_alike schema batches (some s)) (sym shaped)),
          rw (together, is_wide wide) refl,
        )

        pub together-alike :
            (a both : frames.DataFrame)
            → (length (shape_of_batch schema batch) == 0) ≡ false
            → same_shape (laws.shape_of a) (laws.shape_of df) ≡ true
            → stacked fmt frames stacks (some a) df ≡ some (some both)
            → laws.shape_of both ≡ laws.shape_of a
            → (are_alike schema (batch ∷ batches) (some (laws.shape_of a))
                ≡ are_alike schema batches (some (laws.shape_of both)))
              × (together (df ∷ dfs) (some a) ≡ together dfs (some both))
        unfolding are_alike together
        together-alike a both wide same stacks_as shaped' =
            let same' : same_shape (laws.shape_of a) (shape_of_batch schema batch) ≡ true =
              ap (same_shape (laws.shape_of a)) (sym shaped) ∙ same in
            (
              rw (wide, same') (ap (λ s. are_alike schema batches (some s)) (sym shaped')),
              rw (together, is_wide wide, stacks_as) refl,
            )

        pub together-other :
            (a : frames.DataFrame)
            → (length (shape_of_batch schema batch) == 0) ≡ false
            → same_shape (laws.shape_of a) (laws.shape_of df) ≡ false
            → stacked fmt frames stacks (some a) df ≡ none
            → (are_alike schema (batch ∷ batches) (some (laws.shape_of a)) ≡ false)
              × (together (df ∷ dfs) (some a) ≡ none)
        unfolding are_alike together
        together-other a wide differ fails =
            let differ' : same_shape (laws.shape_of a) (shape_of_batch schema batch) ≡ false =
              ap (same_shape (laws.shape_of a)) (sym shaped) ∙ differ in
            (rw (wide, differ') refl, rw (together, is_wide wide, fails) refl)
