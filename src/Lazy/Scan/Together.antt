-- ===== src/Lazy/Scan/Together.antt =====
-- The frames of the batches of a scan, put one behind the other.
use polars_logfmt.Prelude.{
  ◌+◌, true, false, inl, inr, List, [], ◌∷◌, ◌≡◌, refl, sym, ap, subst, ◌∙◌, Option, none, some,
  ◌==◌, length, arith, Bool-cases,
}
use polars_logfmt.Logfmt.Formats.{Formats}
use polars_logfmt.Logfmt.Value.{Schema}
use polars_logfmt.Logfmt.Rows.{Row}
use polars_logfmt.Lazy.Reader.{DataFrames, filled_frame}
use polars_logfmt.Lazy.Reader.Progress.{MakesFrames, shown, columns, made-filled, frames_of}
use polars_logfmt.Lazy.Scan.{Stacks}
use polars_logfmt.Lazy.Scan.Alike.{
  same_shape, shape_of_batch, counted, are_alike, StacksFrames, together, height_of, GoTogether,
  GoTogether-along, shape_before, IsWide, stacked-alike, stacked-other, shown-narrow, is_wide,
  together-narrow, together-first, together-alike, together-other,
}

module _ (fmt : Formats) (frames : DataFrames fmt) (makes : MakesFrames fmt frames)
    (stacks : Stacks fmt frames) (laws : StacksFrames fmt frames stacks) (schema : Schema) where
  -- What the frames of the batches give behind `acc`.
  abbrev Goes : List (List (Row fmt)) → List frames.DataFrame → Option frames.DataFrame → Type 0
  Goes batches dfs acc =
      GoTogether fmt frames stacks
        (are_alike fmt frames schema batches (shape_before fmt frames stacks laws acc))
        (height_of fmt frames stacks acc + counted fmt frames schema batches)
        (together fmt frames stacks dfs acc)

  module _ (batch : List (Row fmt)) (batches : List (List (Row fmt))) (df : frames.DataFrame)
      (dfs : List frames.DataFrame)
      (shaped : laws.shape_of df ≡ shape_of_batch fmt frames schema batch)
      (high : frames.height df ≡ shown (columns fmt frames batch schema) (length batch)) where
    Goes-narrow :
        (acc : Option frames.DataFrame)
        → (length (shape_of_batch fmt frames schema batch) == 0) ≡ true
        → Goes batches dfs acc
        → Goes (batch ∷ batches) (df ∷ dfs) acc
    Goes-narrow acc narrow goes =
        let (alike, same) =
          together-narrow fmt frames stacks laws schema batch batches df dfs shaped acc narrow in
        let nothing =
          shown-narrow fmt frames (columns fmt frames batch schema) (length batch) narrow in
        GoTogether-along fmt frames stacks alike (omega (arith, nothing)) same goes

    Goes-first :
        frames.height stacks.default_frame ≡ 0
        → (length (shape_of_batch fmt frames schema batch) == 0) ≡ false
        → Goes batches dfs (some df)
        → Goes (batch ∷ batches) (df ∷ dfs) none
    Goes-first empty wide goes =
        let (alike, same) =
          together-first fmt frames stacks laws schema batch batches df dfs shaped wide in
        GoTogether-along fmt frames stacks alike (omega (arith, high, empty)) same goes

    Goes-behind :
        (a : frames.DataFrame)
        → (stacks.width a == 0) ≡ false
        → (length (shape_of_batch fmt frames schema batch) == 0) ≡ false
        → ((both : frames.DataFrame)
            → (stacks.width both == 0) ≡ false
            → Goes batches dfs (some both))
        → Goes (batch ∷ batches) (df ∷ dfs) (some a)
    Goes-behind a wide_a wide goes =
        elim (Bool-cases (same_shape (laws.shape_of a) (laws.shape_of df))) [
          | inl same ↦
              let (both, stacks_as, shaped', high') =
                stacked-alike fmt frames stacks laws a df same in
              let (alike, same') =
                together-alike fmt frames stacks laws schema batch batches df dfs shaped a both wide
                  same stacks_as shaped' in
              let wide_both : (stacks.width both == 0) ≡ false =
                ap (λ k. k == 0) (laws.wide both ∙ ap length shaped' ∙ sym (laws.wide a))
                ∙ wide_a in
              GoTogether-along fmt frames stacks alike (omega (arith, high, high')) same'
                (goes both wide_both)
          | inr differ ↦
              let wide_df =
                is_wide fmt frames stacks laws schema batch batches df dfs shaped wide in
              inr (
                together-other fmt frames stacks laws schema batch batches df dfs shaped a wide
                  differ (stacked-other fmt frames stacks laws a df wide_a wide_df differ))
        ]

    Goes-wide :
        (acc : Option frames.DataFrame)
        → (length (shape_of_batch fmt frames schema batch) == 0) ≡ false
        → IsWide fmt frames stacks laws acc
        → (stacks.width df == 0) ≡ false
        → ((acc' : Option frames.DataFrame)
            → IsWide fmt frames stacks laws acc'
            → Goes batches dfs acc')
        → Goes (batch ∷ batches) (df ∷ dfs) acc
    Goes-wide none wide wide_acc wide_df goes = Goes-first laws.empty wide (goes (some df) wide_df)
    Goes-wide (some a) wide wide_acc wide_df goes =
        Goes-behind a wide_acc wide (λ both wide_both. goes (some both) wide_both)

  frames_of-cons :
      (batch : List (Row fmt)) (batches : List (List (Row fmt))) (df : frames.DataFrame)
      (dfs : List frames.DataFrame)
      → filled_frame fmt frames batch schema ≡ some df
      → frames_of fmt frames schema (batch ∷ batches) ≡ some dfs
      → (dfs' : List frames.DataFrame) × (frames_of fmt frames schema batches ≡ some dfs')
        × (dfs ≡ df ∷ dfs')
  frames_of-cons batch batches df dfs filled made = go (frames_of fmt frames schema batches) refl
    where
      go :
          (r : Option (List frames.DataFrame))
          → frames_of fmt frames schema batches ≡ r
          → (dfs' : List frames.DataFrame) × (frames_of fmt frames schema batches ≡ some dfs')
            × (dfs ≡ df ∷ dfs')
      go none e =
          let nothing : frames_of fmt frames schema (batch ∷ batches) ≡ none =
            rw (filled, e) refl in
          cc
      go (some dfs') e =
          let all : frames_of fmt frames schema (batch ∷ batches) ≡ some (df ∷ dfs') =
            rw (filled, e) refl in
          (dfs', e, cc)

  -- The frames that are made of batches go together just if they are alike.
  pub Goes-of :
      (batches : List (List (Row fmt))) (dfs : List frames.DataFrame)
      (acc : Option frames.DataFrame)
      → frames_of fmt frames schema batches ≡ some dfs
      → IsWide fmt frames stacks laws acc
      → Goes batches dfs acc
  unfolding are_alike together
  Goes-of [] dfs acc made wide_acc =
      let is : dfs ≡ [] = cc in
      subst (λ d. Goes [] d acc) (sym is) (inl (refl, acc, refl, omega arith))
  Goes-of (batch ∷ batches) dfs acc made wide_acc =
      let (df, filled, high, le) = made-filled fmt frames makes batch schema in
      let (dfs', made', is) = frames_of-cons batch batches df dfs filled made in
      let shaped = laws.shaped (columns fmt frames batch schema) df filled in
      subst (λ d. Goes (batch ∷ batches) d acc) (sym is)
        (elim (Bool-cases (length (shape_of_batch fmt frames schema batch) == 0)) [
          | inl narrow ↦
              Goes-narrow batch batches df dfs' shaped high acc narrow
                (Goes-of batches dfs' acc made' wide_acc)
          | inr wide ↦
              Goes-wide batch batches df dfs' shaped high acc wide wide_acc
                (is_wide fmt frames stacks laws schema batch batches df dfs' shaped wide)
                (λ acc' wide_acc'. Goes-of batches dfs' acc' made' wide_acc')
        ])

  pub Goes-none :
      (batches : List (List (Row fmt))) (dfs : List frames.DataFrame)
      → frames_of fmt frames schema batches ≡ some dfs
      → GoTogether fmt frames stacks
          (are_alike fmt frames schema batches none)
          (counted fmt frames schema batches)
          (together fmt frames stacks dfs none)
  Goes-none batches dfs made =
      GoTogether-along fmt frames stacks refl (omega (arith, laws.empty)) refl
        (Goes-of batches dfs none made tt)
