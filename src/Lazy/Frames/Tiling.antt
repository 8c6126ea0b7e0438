-- ===== src/Lazy/Frames/Tiling.antt =====
-- The frames of a file without a seek table cover it from its first byte to its last.
use polars_logfmt.Prelude.{
  ℕ, zero, suc, ◌+◌, ◌-◌, ◌^◌, ◌≤◌, ◌<◌, min, Bool, true, false, List, [], ◌∷◌, ◌++◌, ◌≡◌, refl,
  sym, subst, Option, none, some, ltb, length, length-append, length-take, arith, Bool-cases,
  Option-cases, inl, inr,
}
use polars_logfmt.Text.{Bytes}
use polars_logfmt.Vfs.{SeekableVfsFile}
use polars_logfmt.Lazy.Frames.{
  FrameRange, max_frame_size, check_size, u64_add, rposition, zeros, buffer, delim_in,
  read_after_seek, check_block, find_delim, or_else, frame_end, frames_between,
  frames_from_seekable_without_seekable_zst,
}

-- The frames stand one behind the other from `start` to `total`, numbered from `idx`; none is
-- empty and none is longer than the limit.
unfoldable pub Tiles : ℕ → ℕ → ℕ → List FrameRange → Type 0
Tiles total idx start [] = start ≡ total
Tiles total idx start (frame ∷ frames) =
    (frame.idx ≡ idx)
    × (frame.start ≡ start)
    × (0 < frame.len)
    × (frame.len ≤ max_frame_size)
    × Tiles total (idx + 1) (start + frame.len) frames

rposition-bound : (bs : Bytes) (i : ℕ) → rposition bs ≡ some i → i < length bs
unfolding rposition
rposition-bound [] i h = cc
rposition-bound (b ∷ bs) i h = elim (Option-cases (rposition bs)) [
  | inl e ↦ ground (arith, h, e)
  | inr (j, e) ↦ ground (arith, h, e, rposition-bound bs j e)
]

length-zeros : (n : ℕ) → length (zeros n) ≡ n
length-zeros zero = refl
length-zeros (suc n) = omega (arith, length-zeros n)

pub length-buffer : (n : ℕ) (bytes : Bytes) → length (buffer n bytes) ≡ n
unfolding buffer
length-buffer n bytes =
    omega (arith, length-take n (bytes ++ zeros n), length-append bytes (zeros n), length-zeros n)

module _ {S : Type 0} (file : SeekableVfsFile S) where
  delim_in-bounds :
      (seek_pos read_size : ℕ) (r : S × Option Bytes) (e : ℕ)
      → (delim_in file seek_pos read_size r).1 ≡ some e
      → (seek_pos < e) × (e ≤ seek_pos + read_size)
  unfolding delim_in
  delim_in-bounds seek_pos read_size (s, none) e h = cc
  delim_in-bounds seek_pos read_size (s, some []) e h = cc
  delim_in-bounds seek_pos read_size (s, some (b ∷ bs)) e h =
      elim (Option-cases (rposition (buffer read_size (b ∷ bs)))) [
        | inl r ↦ ground (arith, h, r)
        | inr (i, r) ↦ ground (
          arith,
          h,
          r,
          rposition-bound (buffer read_size (b ∷ bs)) i r,
          length-buffer read_size (b ∷ bs),
        )
      ]

  check_block-bounds :
      (seek_pos read_size : ℕ) (s : S) (e : ℕ)
      → (check_block file seek_pos read_size s).1 ≡ some e
      → (seek_pos < e) × (e ≤ seek_pos + read_size)
  unfolding check_block read_after_seek
  check_block-bounds seek_pos read_size s e h = after (file.seek seek_pos s) h
    where
      after :
          (r : S × Bool)
          → (read_after_seek file seek_pos read_size r).1 ≡ some e
          → (seek_pos < e) × (e ≤ seek_pos + read_size)
      after (s', false) h' = cc
      after (s', true) h' = delim_in-bounds seek_pos read_size (file.read read_size s') e h'

  find_delim-bounds :
      (fuel start pos : ℕ) (s : S) (e : ℕ)
      → (find_delim file fuel start pos s).1 ≡ some e
      → (start < e) × (e ≤ pos)
  unfolding find_delim
  find_delim-bounds zero start pos s e h = cc
  find_delim-bounds (suc fuel) start pos s e h =
      let read_size : ℕ = min check_size (pos - start) in
      ground (
        arith,
        h,
        check_block-bounds (pos - read_size) read_size s e,
        find_delim-bounds fuel start (pos - read_size)
            (check_block file (pos - read_size) read_size s).0 e,
      )

  or_else-bounds :
      (start end : ℕ) (r : S × Option ℕ)
      → start < end
      → ((e : ℕ) → r.1 ≡ some e → (start < e) × (e ≤ end))
      → (start < (or_else file end r).1) × ((or_else file end r).1 ≤ end)
  or_else-bounds start end (s, none) lt h = (lt, omega arith)
  or_else-bounds start end (s, some e) lt h = h e refl

  pub frame_end-bounds :
      (total start : ℕ) (s : S)
      → total + max_frame_size ≤ 2 ^ 64
      → start < total
      → (start < (frame_end file total start s).1)
        × ((frame_end file total start s).1 ≤ total)
        × ((frame_end file total start s).1 ≤ start + max_frame_size)
  unfolding frame_end
  frame_end-bounds total start s bound lt =
      let end : ℕ = min (u64_add start max_frame_size) total in
      let c : start < end = omega (arith, bound, lt) in
      ground (
        arith,
        bound,
        lt,
        or_else-bounds start end (find_delim file end start end s) c
            (find_delim-bounds end start end s),
      )

  frames_between-Tiles :
      (fuel total idx start : ℕ) (s : S)
      → total + max_frame_size ≤ 2 ^ 64
      → start ≤ total
      → total ≤ start + fuel
      → Tiles total idx start (frames_between file fuel total idx start s).1
  unfolding frames_between Tiles
  frames_between-Tiles zero total idx start s bound le fuel_le = omega arith
  frames_between-Tiles (suc fuel) total idx start s bound le fuel_le =
      elim (Bool-cases (ltb start total)) [
        | inl lt ↦
            let s' : S = (frame_end file total start s).0 in
            let end : ℕ = (frame_end file total start s).1 in
            let (gt, le_total, le_max) =
              frame_end-bounds total start s bound (ground (arith, lt)) in
            let at_end : start + (end - start) ≡ end = omega arith in
            let later : Tiles total (idx + 1) end
                (frames_between file fuel total (idx + 1) end s').1 =
              frames_between-Tiles fuel total (idx + 1) end s' bound le_total
                (omega (arith, fuel_le, gt)) in
            rw (lt, frames_between)
              (
                refl,
                refl,
                omega (arith, gt),
                omega (arith, le_max),
                subst
                    (λ x.
                      Tiles total (idx + 1) x (frames_between file fuel total (idx + 1) end s').1)
                    (sym at_end) later,
              )
        | inr ge ↦ rw (ge, frames_between) (ground (arith, ge, le))
      ]

-- A file whose size is known and not zero, and that leaves room for one more frame below 2^64, is cut
-- into frames whatever its seeks and reads do, failures included: they cover it from its first byte
-- to its last without a gap or an overlap, numbered from 0, each of 1 byte to 4 MiB.
pub frames_from_seekable-Tiles :
    {S : Type 0} (file : SeekableVfsFile S) (s s' : S) (total : ℕ)
    → file.size s ≡ (s', some total)
    → 0 < total
    → total + max_frame_size ≤ 2 ^ 64
    → (frames : List FrameRange) × ((frames_from_seekable_without_seekable_zst file s).1
        ≡ some frames)
      × Tiles total 0 0 frames
unfolding frames_from_seekable_without_seekable_zst
frames_from_seekable-Tiles file s s' total sized some_bytes bound = (
  (frames_between file total total 0 0 s').1,
  rw sized (ground (arith, some_bytes)),
  frames_between-Tiles file total total 0 0 s' bound (omega arith) (omega arith),
)
