-- ===== src/Lazy/Frames/Read/Whole.antt =====
-- A frame is read whole, whatever the short reads.
use polars_logfmt.Prelude.{
  ℕ, zero, suc, ◌+◌, ◌-◌, ◌≤◌, ◌<◌, true, false, [], ◌∷◌, ◌++◌, ◌≡◌, refl, sym, ap, ◌∙◌, some, ltb,
  length, take, drop, length-append, length-take-drop, take-add, drop-add, arith, Bool-cases, inl,
  inr,
}
use polars_logfmt.Text.{Bytes}
use polars_logfmt.Vfs.{SeekableVfsFile}
use polars_logfmt.Vfs.Contract.{Holds}
use polars_logfmt.Lazy.Frames.{FrameRange}
use polars_logfmt.Lazy.Frames.Read.{FrameRead, fill, filled, fill_after_seek, read_frame}

module _ {S : Type 0} (file : SeekableVfsFile S) (contents : Bytes)
    (holds : Holds file contents) where
  -- The buffer holds the first `n` bytes of the frame, and the file stands behind them.
  abbrev Reading : ℕ → Bytes → S → Type 0
  Reading start front s =
      (front ≡ take (length front) (drop start contents))
      × (holds.position s ≡ start + length front)

  fill-done :
      (fuel len : ℕ) (front : Bytes) (s : S)
      → ltb (length front) len ≡ false
      → fill file (suc fuel) len front s ≡ (s, some front)
  unfolding fill
  fill-done fuel len front s full = ground (arith, full)

  fill-more :
      (fuel len : ℕ) (front bs : Bytes) (s s' : S)
      → ltb (length front) len ≡ true
      → file.read (len - length front) s ≡ (s', some bs)
      → 0 < length bs
      → fill file (suc fuel) len front s ≡ fill file fuel len (front ++ bs) s'
  unfolding fill
  fill-more fuel len front [] s s' more got some_bytes = absurd (omega (arith, some_bytes))
  fill-more fuel len front (b ∷ bs) s s' more got some_bytes = ground (arith, more, got)

  -- What a read of at most `room` bytes leaves.
  Reading-more :
      (start m : ℕ) (front : Bytes) (s s' : S)
      → start + length front + m ≤ length contents
      → Reading start front s
      → holds.position s' ≡ holds.position s + m
      → Reading start (front ++ take m (drop (holds.position s) contents)) s'
        × (length (take m (drop (holds.position s) contents)) ≡ m)
  Reading-more start m front s s' inside (is_front, at) moved =
      let n : ℕ = length front in
      let bs : Bytes = take m (drop (holds.position s) contents) in
      let is_m : length bs ≡ m =
        length-take-drop (holds.position s) m contents (omega (arith, at, inside)) in
      let whole : front ++ bs ≡ take (n + m) (drop start contents) =
        ap (λ p. front ++ take m (drop p contents)) at
        ∙ ap (λ d. front ++ take m d) (sym (drop-add start n contents))
        ∙ ap (λ f. f ++ take m (drop n (drop start contents))) is_front
        ∙ take-add n m (drop start contents) in
      let len : length (front ++ bs) ≡ n + m = omega (arith, length-append front bs, is_m) in
      (
        (whole ∙ ap (λ k. take k (drop start contents)) (sym len), omega (arith, moved, at, len)),
        is_m,
      )

  fill-whole :
      (fuel len start : ℕ) (front : Bytes) (s : S)
      → start + len ≤ length contents
      → length front ≤ len
      → len < length front + fuel
      → Reading start front s
      → (fill file fuel len front s).1 ≡ some (take len (drop start contents))
  fill-whole zero len start front s inside le enough reading = absurd (omega (arith, le, enough))
  fill-whole (suc fuel) len start front s inside le enough reading =
      elim (Bool-cases (ltb (length front) len)) [
        | inr full ↦
            let is_len : length front ≡ len = ground (arith, full, le) in
            rw (fill-done fuel len front s full)
              (ap some (reading.0 ∙ ap (λ k. take k (drop start contents)) is_len))
        | inl more ↦
            let (s', m, got, moved, le_m, pos) = holds.reads (len - length front) s in
            let room : m ≤ len - length front = omega (arith, le_m) in
            let (reading', is_m) =
              Reading-more start m front s s' (omega (arith, inside, room, le)) reading moved in
            let more_lt : length front < len = ground (arith, more) in
            let some_bytes : 0 < m =
              pos (omega (arith, more_lt)) (omega (arith, reading.1, inside, more_lt)) in
            let bs : Bytes = take m (drop (holds.position s) contents) in
            rw (fill-more fuel len front bs s s' more got (omega (arith, is_m, some_bytes))) (
              fill-whole fuel len start (front ++ bs) s' inside
                (omega (arith, length-append front bs, is_m, room, le))
                (omega (arith, length-append front bs, is_m, some_bytes, enough)) reading')
      ]

-- A range of a file, not empty, is read whole into the buffer, whatever the short reads of the file.
pub read_frame-whole :
    {S : Type 0} (file : SeekableVfsFile S) (contents : Bytes)
    → Holds file contents
    → (range : FrameRange) (s : S) → 0 < range.len
    → range.start + range.len ≤ length contents
    → (read_frame file range s).1
      ≡ FrameRead.found range.len (take range.len (drop range.start contents))
unfolding read_frame fill_after_seek filled
read_frame-whole file contents holds range s some_bytes inside =
    let (s', sought, at) = holds.seeks range.start s in
    let whole =
      fill-whole file contents holds (suc range.len) range.len range.start [] s' inside
        (omega arith) (omega arith) (refl, omega (arith, at)) in
    ground (arith, sought, whole, some_bytes)
