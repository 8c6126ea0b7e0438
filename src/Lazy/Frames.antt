-- ===== src/Lazy/Frames.antt =====
-- `frames_from_seekable` of polars-logfmt/src/lazy/lazy_logfmt_reader.rs: the byte ranges that the
-- workers of a parallel scan read, and how one of them is read.
pub mod Tiling
pub mod LineEnds
pub mod Read
use polars_logfmt.Prelude.{
  ℕ, zero, suc, ◌+◌, ◌-◌, ◌*◌, ◌%◌, ◌^◌, min, Bool, true, false, List, [], ◌∷◌, ◌++◌, Option, none,
  some, ltb, ◌==◌, if◌then◌else◌, length, take,
}
use polars_logfmt.Text.{Bytes}
use polars_logfmt.Vfs.{SeekableVfsFile}

pub record FrameRange : Type 0 where
  pub idx : ℕ
  pub start : ℕ
  pub len : ℕ
  pub is_zst : Bool
  pub comp_start : ℕ
  pub comp_len : ℕ

abbrev pub max_frame_size : ℕ
max_frame_size = 4 * 1024 * 1024

abbrev pub check_size : ℕ
check_size = 4096

abbrev pub delim : ℕ
delim = b'\n'

-- `start + MAX_FRAME_SIZE` on `u64`
abbrev pub u64_add : ℕ → ℕ → ℕ
u64_add a b = (a + b) % 2 ^ 64

abbrev frames_from : ℕ → List (ℕ × ℕ) → List FrameRange
frames_from i [] = []
frames_from i ((start, len) ∷ frames) =
    (record { idx = i; start = start; len = len; is_zst = true; comp_start = 0; comp_len = 0 })
    ∷ frames_from (i + 1) frames

unfoldable pub frames_from_seekable_with_seekable_zst : List (ℕ × ℕ) → List FrameRange
frames_from_seekable_with_seekable_zst frames = frames_from 0 frames

-- `iter().rposition(|&b| b == DELIM)`
pub rposition : Bytes → Option ℕ
rposition [] = none
rposition (b ∷ bs) = elim (rposition bs) [
  | some i ↦ some (suc i)
  | none ↦ if b == delim then some 0 else none
]

abbrev zeros : ℕ → Bytes
zeros zero = []
zeros (suc n) = 0 ∷ zeros n

-- `vec![0u8; n]` after a read that put `bytes` in front
pub buffer : ℕ → Bytes → Bytes
buffer n bytes = take n (bytes ++ zeros n)

module _ {S : Type 0} (file : SeekableVfsFile S) where
  -- The delimiter in what a read gave, as the position behind it in the file.
  pub delim_in : ℕ → ℕ → S × Option Bytes → S × Option ℕ
  delim_in seek_pos read_size (s, none) = (s, none)
  delim_in seek_pos read_size (s, some []) = (s, none)
  delim_in seek_pos read_size (s, some (b ∷ bs)) = elim (rposition (buffer read_size (b ∷ bs))) [
    | none ↦ (s, none)
    | some relpos ↦ (s, some (seek_pos + relpos + 1))
  ]

  pub read_after_seek : ℕ → ℕ → S × Bool → S × Option ℕ
  read_after_seek seek_pos read_size (s, false) = (s, none)
  read_after_seek seek_pos read_size (s, true) = delim_in seek_pos read_size (file.read read_size s)

  -- The body of the loop that looks for a delimiter in the block before `pos`.
  pub check_block : ℕ → ℕ → S → S × Option ℕ
  check_block seek_pos read_size s = read_after_seek seek_pos read_size (file.seek seek_pos s)

  -- `while pos > start`: each turn takes a block off, so that `pos` is fuel enough.
  pub find_delim : ℕ → ℕ → ℕ → S → S × Option ℕ
  find_delim zero start pos s = (s, none)
  find_delim (suc fuel) start pos s = elim (ltb start pos) [
    | false ↦ (s, none)
    | true ↦
        let read_size : ℕ = min check_size (pos - start) in
        let (s', found) = check_block (pos - read_size) read_size s in
        elim found [
          | some end ↦ (s', some end)
          | none ↦ elim (ltb pos (read_size + start)) [
            | true ↦ (s', none)
            | false ↦ find_delim fuel start (pos - read_size) s'
          ]
        ]
  ]

  abbrev or_else : ℕ → S × Option ℕ → S × ℕ
  or_else bound (s, none) = (s, bound)
  or_else bound (s, some end) = (s, end)

  -- Where the frame that starts at `start` ends.
  pub frame_end : ℕ → ℕ → S → S × ℕ
  frame_end total start s =
      let end : ℕ = min (u64_add start max_frame_size) total in
      if ltb end total then or_else end (find_delim end start end s) else (s, end)

  -- `while start < total`: each turn takes a frame off, so that `total` is fuel enough.
  pub frames_between : ℕ → ℕ → ℕ → ℕ → S → S × List FrameRange
  frames_between zero total idx start s = (s, [])
  frames_between (suc fuel) total idx start s = elim (ltb start total) [
    | false ↦ (s, [])
    | true ↦
        let (s', end) = frame_end total start s in
        let (s'', frames) = frames_between fuel total (idx + 1) end s' in
        (
          s'',
          (record {
            idx = idx;
            start = start;
            len = end - start;
            is_zst = false;
            comp_start = 0;
            comp_len = 0;
          })
              ∷ frames,
        )
  ]

  abbrev frames_of_size : S × Option ℕ → S × Option (List FrameRange)
  frames_of_size (s, none) = (s, none)
  frames_of_size (s, some total) =
      if total == 0
      then (s, none)
      else (let (s', frames) = frames_between total total 0 0 s in (s', some frames))

  unfoldable pub frames_from_seekable_without_seekable_zst : S → S × Option (List FrameRange)
  unfolding rposition buffer delim_in read_after_seek check_block find_delim frame_end
      frames_between
  frames_from_seekable_without_seekable_zst s = frames_of_size (file.size s)

  abbrev frames_of_table : S × Option (List (ℕ × ℕ)) → S × Option (List FrameRange)
  frames_of_table (s, some frames) = (s, some (frames_from_seekable_with_seekable_zst frames))
  frames_of_table (s, none) = frames_from_seekable_without_seekable_zst s

  unfoldable pub frames_from_seekable : S → S × Option (List FrameRange)
  unfolding frames_from_seekable_with_seekable_zst frames_from_seekable_without_seekable_zst
  frames_from_seekable s = frames_of_table (file.seek_table_decomp_frames s)
