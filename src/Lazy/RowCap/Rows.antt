-- ===== src/Lazy/RowCap/Rows.antt =====
-- The slots of a slice all go to rows, once the workers have finished.
use polars_logfmt.Prelude.{
  ℕ, ◌+◌, ◌≤◌, min, Bool, true, false, ◌||◌, ◌⊎◌, inl, inr, List, [], ◌∷◌, ◌≡◌, refl, Option, none,
  some, length, arith,
}
use polars_logfmt.Text.{Bytes}
use polars_logfmt.Lazy.Lines.{LineReader, LineFilter}
use polars_logfmt.Lazy.RowCap.{
  Worker, begin_frame, claim, read_line, go_on, worker_step, Steps, begin_all,
}
use polars_logfmt.Lazy.RowCap.Claims.{
  accepted_all, of_frame, worth, worth_all, pushed_all, any_capped, Claimed, Steps-Claimed,
}

module _ (filter : LineFilter) where
  module _ (n : ℕ) where
    begin_all-fresh :
        (slices : List (List (Option LineReader)))
        → (pushed_all filter n (begin_all slices) ≡ 0)
          × (any_capped filter n (begin_all slices) ≡ false)
    unfolding pushed_all any_capped
    begin_all-fresh [] = (refl, refl)
    begin_all-fresh (frames ∷ slices) =
        let (none_pushed, none_capped) = begin_all-fresh slices in
        (omega (arith, none_pushed), none_capped)

    begin_all-Claimed :
        (slices : List (List (Option LineReader)))
        → Claimed filter n (worth_all filter (begin_all slices)) 0 (begin_all slices)
    begin_all-Claimed slices =
        let (none_pushed, none_capped) = begin_all-fresh slices in
        (
          omega (arith, none_pushed),
          omega arith,
          inl refl,
          λ h. absurd (ground (arith, h, none_capped)),
        )

    -- No worker has a step left.
    unfoldable pub AllFinished : ℕ → List Worker → Type 0
    AllFinished slots [] = Unit
    AllFinished slots (w ∷ ws) = (worker_step n filter slots w ≡ none) × AllFinished slots ws

    finished-worth :
        (slots : ℕ) (w : Worker)
        → worker_step n filter slots w ≡ none
        → (w.failed ≡ true) ⊎ (w.capped ≡ true) ⊎ (worth filter w ≡ length w.pushed)
    unfolding worker_step begin_frame claim read_line go_on worth accepted_all
    finished-worth slots w e = go w.frames w.lines w.pushed w.capped w.failed e
      where
        go :
            (fs : List (Option LineReader)) (lines : Option LineReader) (p : List Bytes)
            (c d : Bool)
            → worker_step n filter slots
                (record { frames = fs; lines = lines; pushed = p; capped = c; failed = d })
              ≡ none
            → (d ≡ true)
              ⊎ (c ≡ true)
              ⊎ (length p + (of_frame filter lines + accepted_all filter fs) ≡ length p)
        go fs lines p c true h = inl refl
        go fs lines p true false h = inr (inl refl)
        go [] none p false false h = inr (inr (omega arith))
        go (f ∷ fs) none p false false h = ground (arith, h)
        go fs (some []) p false false h = cc
        go fs (some (l ∷ ls)) p false false h = ground (arith, h)

    -- Whether a worker has stopped with an error.
    unfoldable pub any_failed : List Worker → Bool
    any_failed [] = false
    any_failed (w ∷ ws) = w.failed || any_failed ws

    AllFinished-worth :
        (slots : ℕ) (ws : List Worker)
        → AllFinished slots ws
        → any_failed ws ≡ false
        → (any_capped filter n ws ≡ true) ⊎ (worth_all filter ws ≡ pushed_all filter n ws)
    unfolding AllFinished any_capped any_failed worth_all pushed_all
    AllFinished-worth slots [] finished no_error = inr refl
    AllFinished-worth slots (w ∷ ws) (here_done, finished) no_error = ground (
      arith,
      no_error,
      finished-worth slots w here_done,
      AllFinished-worth slots ws finished (ground (arith, no_error)),
    )

    pushed-le-worth : (ws : List Worker) → pushed_all filter n ws ≤ worth_all filter ws
    unfolding pushed_all worth_all worth
    pushed-le-worth [] = omega arith
    pushed-le-worth (w ∷ ws) = omega (arith, pushed-le-worth ws)

  -- The lines that would be taken of all slices.
  pub accepted_of : List (List (Option LineReader)) → ℕ
  accepted_of [] = 0
  accepted_of (frames ∷ slices) = accepted_all filter frames + accepted_of slices

  worth-begin_all :
      (slices : List (List (Option LineReader)))
      → worth_all filter (begin_all slices) ≡ accepted_of slices
  unfolding worth_all worth accepted_of
  worth-begin_all [] = refl
  worth-begin_all (frames ∷ slices) = omega (arith, worth-begin_all slices)

-- In whatever order the workers run, they have never taken more than `n` rows together.
pub Steps-bound :
    (filter : LineFilter) (n : ℕ) (slices : List (List (Option LineReader))) (slots : ℕ)
    (ws : List Worker)
    → Steps n filter 0 (begin_all slices) slots ws
    → pushed_all filter n ws ≤ n
Steps-bound filter n slices slots ws steps =
    let (is_min, le, all, flag) =
      Steps-Claimed filter n _ steps (begin_all-Claimed filter n slices) in
    omega (arith, is_min)

-- In whatever order the workers run, when none of them has a step left and none has stopped with an error, over
-- a frame that it cannot read or a line that is not UTF-8, they have taken together the smaller of `n` and the
-- number of the lines of their frames that are not blank and pass the filter.
pub Steps-finished :
    (filter : LineFilter) (n : ℕ) (slices : List (List (Option LineReader))) (slots : ℕ)
    (ws : List Worker)
    → Steps n filter 0 (begin_all slices) slots ws
    → AllFinished filter n slots ws
    → any_failed filter n ws ≡ false
    → pushed_all filter n ws ≡ min n (accepted_of filter slices)
Steps-finished filter n slices slots ws steps finished no_error =
    let (is_min, le, all, flag) =
      Steps-Claimed filter n _ steps (begin_all-Claimed filter n slices) in
    ground (
      arith,
      is_min,
      le,
      all,
      flag,
      worth-begin_all filter slices,
      AllFinished-worth filter n slots ws finished no_error,
      pushed-le-worth filter n ws,
    )
