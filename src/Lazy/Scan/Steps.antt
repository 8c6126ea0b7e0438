-- ===== src/Lazy/Scan/Steps.antt =====
-- One turn of the loop of a scan.
use polars_logfmt.Prelude.{ℕ, suc, true, false, ◌≡◌, refl, Option, none, some, ◌==◌}
use polars_logfmt.Logfmt.Formats.{Formats}
use polars_logfmt.Lazy.Reader.{LogFmtReaderState, DataFrames}
use polars_logfmt.Lazy.Scan.{Stacks, done, failed, stacked, has_rows, out_frame, sliced, scan_loop}

module _ (fmt : Formats) (frames : DataFrames fmt) (stacks : Stacks fmt frames) (n_rows : Option ℕ)
    (next : LogFmtReaderState → Option (LogFmtReaderState × Option frames.DataFrame)) (fuel : ℕ)
    (state state' : LogFmtReaderState) (acc : Option frames.DataFrame) where
  pub scan_loop-at_end :
      next state ≡ some (state', none)
      → scan_loop fmt frames stacks n_rows next (suc fuel) state acc
        ≡ done (sliced fmt frames stacks n_rows (out_frame fmt frames stacks acc))
  unfolding scan_loop
  scan_loop-at_end returned = rw (returned, scan_loop) refl

  pub scan_loop-narrow :
      (df : frames.DataFrame)
      → next state ≡ some (state', some df)
      → (stacks.width df == 0) ≡ true
      → scan_loop fmt frames stacks n_rows next (suc fuel) state acc
        ≡ scan_loop fmt frames stacks n_rows next fuel state' acc
  unfolding scan_loop
  scan_loop-narrow df returned narrow = rw (returned, scan_loop, narrow) refl

  module _ (df : frames.DataFrame) (returned : next state ≡ some (state', some df))
      (wide : (stacks.width df == 0) ≡ false) where
    pub scan_loop-mismatch :
        stacked fmt frames stacks acc df ≡ none
        → scan_loop fmt frames stacks n_rows next (suc fuel) state acc ≡ failed
    unfolding scan_loop
    scan_loop-mismatch no_stack = rw (returned, scan_loop, wide, no_stack) refl

    module _ (acc' : Option frames.DataFrame)
        (stacks_as : stacked fmt frames stacks acc df ≡ some acc') where
      pub scan_loop-more :
          has_rows fmt frames stacks n_rows acc' ≡ false
          → scan_loop fmt frames stacks n_rows next (suc fuel) state acc
            ≡ scan_loop fmt frames stacks n_rows next fuel state' acc'
      unfolding scan_loop
      scan_loop-more few = rw (returned, scan_loop, wide, stacks_as, few) refl

      pub scan_loop-enough :
          has_rows fmt frames stacks n_rows acc' ≡ true
          → scan_loop fmt frames stacks n_rows next (suc fuel) state acc
            ≡ done (sliced fmt frames stacks n_rows (out_frame fmt frames stacks acc'))
      unfolding scan_loop
      scan_loop-enough enough = rw (returned, scan_loop, wide, stacks_as, enough) refl
