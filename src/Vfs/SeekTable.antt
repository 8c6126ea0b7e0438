-- ===== src/Vfs/SeekTable.antt =====
-- The frames of a seek table.
use native.Mathlib.Nat.{zero-add}
use polars_logfmt.Prelude.{
  ℕ, zero, suc, ◌+◌, ◌-◌, ◌≤◌, ◌<◌, length, List, [], ◌∷◌, ◌≡◌, refl, sym, ap, ◌∙◌, subst, Option,
  some, arith,
}
use polars_logfmt.Vfs.{table_frames, seek_table_decomp_frames}

-- The ranges stand one behind the other from `start` to `total`.
unfoldable pub Spans : ℕ → ℕ → List (ℕ × ℕ) → Type 0
Spans start total [] = start ≡ total
Spans start total ((at, len) ∷ ranges) = (at ≡ start) × Spans (start + len) total ranges

-- Where `n` frames from `i` end, the first of which starts at `prev_end`.
abbrev last_end : (ℕ → ℕ) → ℕ → ℕ → ℕ → ℕ
last_end ends zero i prev_end = prev_end
last_end ends (suc n) i prev_end = last_end ends n (i + 1) (ends i)

abbrev ranges_of : (ℕ → ℕ) → ℕ → ℕ → ℕ → List (ℕ × ℕ)
ranges_of ends zero i prev_end = []
ranges_of ends (suc n) i prev_end =
    (prev_end, ends i - prev_end) ∷ ranges_of ends n (i + 1) (ends i)

length-ranges_of : (ends : ℕ → ℕ) (n i prev_end : ℕ) → length (ranges_of ends n i prev_end) ≡ n
length-ranges_of ends zero i prev_end = refl
length-ranges_of ends (suc n) i prev_end = ap suc (length-ranges_of ends n (i + 1) (ends i))

module _ (frame_end_decomp : ℕ → Option ℕ) (ends : ℕ → ℕ) (total : ℕ)
    (is_end : (i : ℕ) → i < total → frame_end_decomp i ≡ some (ends i))
    (ascends : (i : ℕ) → i + 1 < total → ends i ≤ ends (i + 1)) where
  table_frames-eq :
      (n i prev_end : ℕ)
      → i + n ≤ total
      → table_frames frame_end_decomp n i prev_end ≡ some (ranges_of ends n i prev_end)
  table_frames-eq zero i prev_end le = refl
  table_frames-eq (suc n) i prev_end le =
      ground (
        arith,
        is_end i (omega (arith, le)),
        table_frames-eq n (i + 1) (ends i) (omega (arith, le)),
      )

  ranges_of-Spans :
      (n i prev_end : ℕ)
      → i + suc n ≤ total
      → prev_end ≤ ends i
      → Spans prev_end (last_end ends (suc n) i prev_end) (ranges_of ends (suc n) i prev_end)
  unfolding Spans
  ranges_of-Spans zero i prev_end in_range le = (refl, omega (arith, le))
  ranges_of-Spans (suc n) i prev_end in_range le =
      let at_end : prev_end + (ends i - prev_end) ≡ ends i = omega (arith, le) in
      let next = ascends i (omega (arith, in_range)) in
      (
        refl,
        subst
            (λ k.
              Spans k (last_end ends (suc n) (i + 1) (ends i))
                (ranges_of ends (suc n) (i + 1) (ends i)))
            (sym at_end) (ranges_of-Spans n (i + 1) (ends i) (omega (arith, in_range)) next),
      )

last_end-eq : (ends : ℕ → ℕ) (n i prev_end : ℕ) → last_end ends (suc n) i prev_end ≡ ends (i + n)
last_end-eq ends zero i prev_end = let same : i + 0 ≡ i = omega arith in rw same refl
last_end-eq ends (suc n) i prev_end =
    let shift : i + suc n ≡ i + 1 + n = omega arith in
    rw shift (last_end-eq ends n (i + 1) (ends i))

-- Where a seek table knows the end of each of its frames, and no frame ends before the one in front
-- of it, its ranges stand one behind the other from 0 to the end of the last frame, one for each frame.
pub seek_table_decomp_frames-Spans :
    (frame_end_decomp : ℕ → Option ℕ) (ends : ℕ → ℕ) (n : ℕ)
    → ((i : ℕ) → i < suc n → frame_end_decomp i ≡ some (ends i))
    → ((i : ℕ) → i + 1 < suc n → ends i ≤ ends (i + 1))
    → (ranges : List (ℕ × ℕ)) × (seek_table_decomp_frames (suc n) frame_end_decomp ≡ some ranges)
      × Spans 0 (ends n) ranges
      × (length ranges ≡ suc n)
unfolding seek_table_decomp_frames
seek_table_decomp_frames-Spans frame_end_decomp ends n is_end ascends = (
  ranges_of ends (suc n) 0 0,
  ground (arith, table_frames-eq frame_end_decomp ends (suc n) is_end ascends (suc n) 0 0),
  subst (λ k. Spans 0 k (ranges_of ends (suc n) 0 0))
      (last_end-eq ends n 0 0 ∙ ap ends (zero-add n))
      (ranges_of-Spans frame_end_decomp ends (suc n) is_end ascends n 0 0 (omega arith)
        (omega arith)),
  length-ranges_of ends (suc n) 0 0,
)
