-- ===== src/Lazy/Workers/Source.antt =====
-- The workers together read the source.
use polars_logfmt.Prelude.{
  ℕ, ◌+◌, ◌^◌, ◌≤◌, ◌<◌, List, [], ◌∷◌, ◌++◌, ◌≡◌, sym, ap, ◌∙◌, some, length, take, drop, take-add,
  take-length, append-nil, append_assoc, arith,
}
use polars_logfmt.Text.{Bytes}
use polars_logfmt.Vfs.{SeekableVfsFile}
use polars_logfmt.Vfs.Contract.{Holds}
use polars_logfmt.Lazy.Frames.{
  FrameRange, max_frame_size, frames_from_seekable_without_seekable_zst,
}
use polars_logfmt.Lazy.Frames.Tiling.{Tiles, frames_from_seekable-Tiles}
use polars_logfmt.Lazy.Frames.Read.{FrameRead, read_frame}
use polars_logfmt.Lazy.Frames.Read.Whole.{read_frame-whole}
use polars_logfmt.Lazy.Workers.{worker_slices, concat}
use polars_logfmt.Lazy.Workers.Slices.{worker_slices-concat}

abbrev bytes_of : FrameRead → Bytes
bytes_of FrameRead.failed = []
bytes_of FrameRead.skipped = []
bytes_of (FrameRead.found len bytes) = bytes

module _ {S : Type 0} (file : SeekableVfsFile S) where
  -- What the frames give, where the handle that reads frame `i` is in the state `handle i`.
  pub frames_bytes : (ℕ → S) → List FrameRange → Bytes
  frames_bytes handle [] = []
  frames_bytes handle (frame ∷ frames) =
      bytes_of (read_frame file frame (handle frame.idx)).1 ++ frames_bytes handle frames

  Tiles-bounds :
      (total idx start : ℕ) (frames : List FrameRange)
      → Tiles total idx start frames
      → start ≤ total
  unfolding Tiles
  Tiles-bounds total idx start [] tiles = omega (arith, tiles)
  Tiles-bounds total idx start (frame ∷ frames) (at_idx, at, some_bytes, le, tiles) =
      omega (arith, Tiles-bounds total (idx + 1) (start + frame.len) frames tiles)

  Tiles-bytes :
      (contents : Bytes)
      → Holds file contents
      → (handle : ℕ → S) (idx start : ℕ) (frames : List FrameRange)
      → Tiles (length contents) idx start frames
      → take start contents ++ frames_bytes handle frames ≡ contents
  unfolding frames_bytes Tiles
  Tiles-bytes contents holds handle idx start [] tiles =
      append-nil (take start contents) ∙ ap (λ k. take k contents) tiles ∙ take-length contents
  Tiles-bytes contents holds handle idx start (frame ∷ frames) (at_idx, at, some_bytes, le, tiles) =
      let inside = Tiles-bounds (length contents) (idx + 1) (start + frame.len) frames tiles in
      let ih = Tiles-bytes contents holds handle (idx + 1) (start + frame.len) frames tiles in
      let read =
        read_frame-whole file contents holds frame (handle frame.idx) some_bytes
          (omega (arith, inside, at)) in
      let later : Bytes = frames_bytes handle frames in
      let here : bytes_of (read_frame file frame (handle frame.idx)).1
          ≡ take frame.len (drop start contents) =
        ap bytes_of read ∙ ap (λ k. take frame.len (drop k contents)) at in
      ap (λ b. take start contents ++ (b ++ later)) here
      ∙ sym (append_assoc (take start contents) (take frame.len (drop start contents)) later)
      ∙ ap (λ b. b ++ later) (take-add start frame.len contents)
      ∙ ih

-- A file that is not empty has a frame.
Tiles-some :
    (total : ℕ) (frames : List FrameRange) → 0 < total → Tiles total 0 0 frames → 0 < length frames
unfolding Tiles
Tiles-some total [] some_bytes tiles = absurd (omega (arith, tiles, some_bytes))
Tiles-some total (frame ∷ frames) some_bytes tiles = omega arith

-- A file that holds its contents, not empty and with room for a frame below 2^64, is cut into frames
-- and the frames are dealt out to the workers of any positive number of threads, so that what the
-- workers read, put together in the order of their numbers, is the contents: whatever the short reads
-- of the file, and whatever state each frame finds its handle in.
pub parallel_read-contents :
    {S : Type 0} (file : SeekableVfsFile S) (contents : Bytes)
    → Holds file contents
    → (s s' : S) (handle : ℕ → S) (max_inflight : ℕ) → file.size s ≡ (s', some (length contents))
    → 0 < length contents
    → length contents + max_frame_size ≤ 2 ^ 64
    → 0 < max_inflight
    → (frames : List FrameRange) × (slices : List (List FrameRange))
      × ((frames_from_seekable_without_seekable_zst file s).1 ≡ some frames)
      × (worker_slices max_inflight frames ≡ some slices)
      × (frames_bytes file handle (concat slices) ≡ contents)
parallel_read-contents file contents holds s s' handle max_inflight sized some_bytes room threads =
    let (frames, cut, tiles) =
      frames_from_seekable-Tiles file s s' (length contents) sized some_bytes room in
    let (slices, dealt, whole, few) =
      worker_slices-concat max_inflight frames threads
        (Tiles-some (length contents) frames some_bytes tiles) in
    (
      frames,
      slices,
      cut,
      dealt,
      ap (frames_bytes file handle) whole ∙ Tiles-bytes file contents holds handle 0 0 frames tiles,
    )
