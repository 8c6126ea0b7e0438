-- ===== src/Lazy/Frames/LineEnds.antt =====
-- Frames end where lines do.
use polars_logfmt.Prelude.{
  ℕ, zero, suc, ◌+◌, ◌-◌, ◌^◌, ◌≤◌, ◌<◌, min, ◌⊎◌, inl, inr, List, [], ◌∷◌, ◌++◌, ◌≡◌, refl, sym,
  ap, subst, ◌∙◌, Option, none, some, ltb, ==_iff, length, get_elem?, take, drop, arith, Bool-cases,
  Option-cases,
}
use polars_logfmt.Text.{Bytes}
use polars_logfmt.Vfs.{SeekableVfsFile}
use polars_logfmt.Vfs.Contract.{Holds}
use polars_logfmt.Lazy.Frames.{
  FrameRange, max_frame_size, check_size, delim, u64_add, rposition, zeros, buffer, delim_in,
  read_after_seek, check_block, find_delim, or_else, frame_end, frames_between,
  frames_from_seekable_without_seekable_zst,
}
use polars_logfmt.Lazy.Frames.Tiling.{frame_end-bounds}

rposition-delim : (bs : Bytes) (i : ℕ) → rposition bs ≡ some i → get_elem? bs i ≡ some delim
unfolding rposition
rposition-delim [] i h = cc
rposition-delim (b ∷ bs) i h = elim (Option-cases (rposition bs)) [
  | inl e ↦ ground (arith, h, e, ==_iff b delim)
  | inr (j, e) ↦ ground (arith, h, e, rposition-delim bs j e)
]

module _ {A : Type 0} where
  get_elem?-take :
      (n i : ℕ) (xs : List A) (x : A) → get_elem? (take n xs) i ≡ some x → get_elem? xs i ≡ some x
  get_elem?-take zero i xs x h = cc
  get_elem?-take (suc n) i [] x h = cc
  get_elem?-take (suc n) zero (y ∷ xs) x h = h
  get_elem?-take (suc n) (suc i) (y ∷ xs) x h = get_elem?-take n i xs x h

  get_elem?-drop : (n i : ℕ) (xs : List A) → get_elem? (drop n xs) i ≡ get_elem? xs (n + i)
  get_elem?-drop zero i xs = ground arith
  get_elem?-drop (suc n) i [] = refl
  get_elem?-drop (suc n) i (x ∷ xs) =
      let shift : suc n + i ≡ suc (n + i) = omega arith in rw shift (get_elem?-drop n i xs)

-- No delimiter stands in the zeros behind what was read.
get_elem?-zeros :
    (n i : ℕ) (bytes : Bytes)
    → get_elem? (bytes ++ zeros n) i ≡ some delim
    → get_elem? bytes i ≡ some delim
get_elem?-zeros zero i [] h = cc
get_elem?-zeros (suc n) zero [] h = ground (arith, h)
get_elem?-zeros (suc n) (suc i) [] h = get_elem?-zeros n i [] h
get_elem?-zeros n zero (b ∷ bytes) h = h
get_elem?-zeros n (suc i) (b ∷ bytes) h = get_elem?-zeros n i bytes h

-- `end` is the position behind a line feed of the text.
pub AtLineEnd : Bytes → ℕ → Type 0
AtLineEnd contents end = (i : ℕ) × (end ≡ i + 1) × (get_elem? contents i ≡ some delim)

module _ {S : Type 0} (file : SeekableVfsFile S) (contents : Bytes)
    (holds : Holds file contents) where
  delim_in-AtLineEnd :
      (seek_pos read_size m e : ℕ) (s : S)
      → (delim_in file seek_pos read_size (s, some (take m (drop seek_pos contents)))).1 ≡ some e
      → AtLineEnd contents e
  unfolding AtLineEnd delim_in buffer
  delim_in-AtLineEnd seek_pos read_size m e s h = go (take m (drop seek_pos contents)) refl h
    where
      found :
          (i : ℕ)
          → get_elem? (take m (drop seek_pos contents)) i ≡ some delim
          → AtLineEnd contents (seek_pos + i + 1)
      found i at = (
        seek_pos + i,
        refl,
        sym (get_elem?-drop seek_pos i contents)
            ∙ get_elem?-take m i (drop seek_pos contents) delim at,
      )

      go :
          (bytes : Bytes)
          → take m (drop seek_pos contents) ≡ bytes
          → (delim_in file seek_pos read_size (s, some bytes)).1 ≡ some e
          → AtLineEnd contents e
      go [] is_bytes h' = cc
      go (b ∷ bs) is_bytes h' = elim (Option-cases (rposition (buffer read_size (b ∷ bs)))) [
        | inl r ↦ absurd (ground (arith, h', r))
        | inr (i, r) ↦
            let in_buffer = rposition-delim (buffer read_size (b ∷ bs)) i r in
            let in_file =
              get_elem?-zeros read_size i (b ∷ bs)
                (get_elem?-take read_size i ((b ∷ bs) ++ zeros read_size) delim in_buffer) in
            let at_end : seek_pos + i + 1 ≡ e = ground (arith, h', r) in
            subst (AtLineEnd contents) at_end
              (found i (ap (λ bytes. get_elem? bytes i) is_bytes ∙ in_file))
      ]

  check_block-AtLineEnd :
      (seek_pos read_size : ℕ) (s : S) (e : ℕ)
      → (check_block file seek_pos read_size s).1 ≡ some e
      → AtLineEnd contents e
  unfolding check_block read_after_seek
  check_block-AtLineEnd seek_pos read_size s e h =
      let (s', sought, at) = holds.seeks seek_pos s in
      let (s'', m, got, moved, le_m, pos) = holds.reads read_size s' in
      let opened : (check_block file seek_pos read_size s).1
          ≡ (delim_in file seek_pos read_size (s'', some (take m (drop seek_pos contents)))).1 =
        ap (λ r. (read_after_seek file seek_pos read_size r).1) sought
        ∙ ap (λ r. (delim_in file seek_pos read_size r).1) got
        ∙ ap (λ p. (delim_in file seek_pos read_size (s'', some (take m (drop p contents)))).1)
            at in
      delim_in-AtLineEnd seek_pos read_size m e s'' (sym opened ∙ h)

  find_delim-AtLineEnd :
      (fuel start pos : ℕ) (s : S) (e : ℕ)
      → (find_delim file fuel start pos s).1 ≡ some e
      → AtLineEnd contents e
  unfolding find_delim
  find_delim-AtLineEnd zero start pos s e h = cc
  find_delim-AtLineEnd (suc fuel) start pos s e h =
      let read_size : ℕ = min check_size (pos - start) in
      let block : S × Option ℕ = check_block file (pos - read_size) read_size s in
      ground (
        arith,
        h,
        check_block-AtLineEnd (pos - read_size) read_size s e,
        find_delim-AtLineEnd fuel start (pos - read_size) block.0 e,
      )

  -- Where a frame may end.
  pub EndsWell : ℕ → ℕ → Type 0
  EndsWell start end =
      (end ≡ length contents) ⊎ (AtLineEnd contents end ⊎ (end ≡ start + max_frame_size))

  or_else-EndsWell :
      (start bound : ℕ) (r : S × Option ℕ)
      → EndsWell start bound
      → ((e : ℕ) → r.1 ≡ some e → AtLineEnd contents e)
      → EndsWell start (or_else file bound r).1
  unfolding EndsWell
  or_else-EndsWell start bound (s, none) well line_end = well
  or_else-EndsWell start bound (s, some e) well line_end = inr (inl (line_end e refl))

  frame_end-EndsWell :
      (start : ℕ) (s : S)
      → length contents + max_frame_size ≤ 2 ^ 64
      → start < length contents
      → EndsWell start (frame_end file (length contents) start s).1
  unfolding frame_end EndsWell
  frame_end-EndsWell start s bound lt =
      let end : ℕ = min (u64_add start max_frame_size) (length contents) in
      elim (Bool-cases (ltb end (length contents))) [
        | inl before ↦
            let whole : end ≡ start + max_frame_size = ground (arith, bound, lt, before) in
            rw (before, frame_end)
              (or_else-EndsWell start end (find_delim file end start end s) (inr (inr whole))
                (find_delim-AtLineEnd end start end s))
        | inr at_total ↦ ground (arith, at_total)
      ]

  pub AllEndWell : List FrameRange → Type 0
  AllEndWell [] = Unit
  AllEndWell (frame ∷ frames) = EndsWell frame.start (frame.start + frame.len) × AllEndWell frames

  frames_between-AllEndWell :
      (fuel idx start : ℕ) (s : S)
      → length contents + max_frame_size ≤ 2 ^ 64
      → AllEndWell (frames_between file fuel (length contents) idx start s).1
  unfolding frames_between AllEndWell
  frames_between-AllEndWell zero idx start s bound = tt
  frames_between-AllEndWell (suc fuel) idx start s bound =
      elim (Bool-cases (ltb start (length contents))) [
        | inl lt ↦
            let s' : S = (frame_end file (length contents) start s).0 in
            let end : ℕ = (frame_end file (length contents) start s).1 in
            let before : start < length contents = ground (arith, lt) in
            let (gt, le_total, le_max) =
              frame_end-bounds file (length contents) start s bound before in
            let at_end : start + (end - start) ≡ end = omega (arith, gt) in
            rw (lt, frames_between)
              (
                subst (EndsWell start) (sym at_end) (frame_end-EndsWell start s bound before),
                frames_between-AllEndWell fuel (idx + 1) end s' bound,
              )
        | inr ge ↦ rw (ge, frames_between) tt
      ]

-- In a file that holds its contents, whatever its short reads, each frame ends at the end of the
-- file, or behind a line feed of the contents, or is as long as a frame may be.
pub frames_from_seekable-AllEndWell :
    {S : Type 0} (file : SeekableVfsFile S) (contents : Bytes) (holds : Holds file contents)
    (s s' : S) (frames : List FrameRange)
    → file.size s ≡ (s', some (length contents))
    → length contents + max_frame_size ≤ 2 ^ 64
    → (frames_from_seekable_without_seekable_zst file s).1 ≡ some frames
    → AllEndWell file contents holds frames
unfolding frames_from_seekable_without_seekable_zst
frames_from_seekable-AllEndWell file contents holds s s' frames sized bound cut =
    subst (AllEndWell file contents holds) is_frames
      (frames_between-AllEndWell file contents holds (length contents) 0 0 s' bound)
  where
    is_frames : (frames_between file (length contents) (length contents) 0 0 s').1 ≡ frames
    is_frames = ground (arith, cut, sized)
