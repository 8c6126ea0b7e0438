-- ===== src/Vfs.antt =====
-- `SeekableVfsFile` of polars-logfmt/src/seekable_vfs.rs, the local file of
-- polars-logfmt/src/ssh_vfs/local_file.rs and the seek table of
-- polars-logfmt/src/ssh_vfs/local_zst_file.rs.
pub mod Contract
pub mod SeekTable
pub mod Handles
pub mod Sftp
pub mod Open
mod Tests
use polars_logfmt.Prelude.{
  ℕ, zero, suc, ◌+◌, ◌-◌, min, Bool, true, false, List, [], ◌∷◌, Option, none, some, ltb, ◌==◌,
  if◌then◌else◌, length, take, drop,
}
use polars_logfmt.Text.{Bytes}

-- A file whose state is `S`: each call may do what it likes to its state. A `none` and a `false` are
-- I/O errors; `read n` is `read` into a buffer of `n` bytes, and gives the bytes that it put in front.
pub record SeekableVfsFile (S : Type 0) : Type 0 where
  pub size : S → S × Option ℕ
  pub seek : ℕ → S → S × Bool
  pub read : ℕ → S → S × Option Bytes
  pub seek_table_decomp_frames : S → S × Option (List (ℕ × ℕ))

-- `LocalSeekableFile`, whose state is the position of its `File`. How many of the bytes that are
-- there a `read` hands out is the operating system's choice: `at_most pos n` of them.
unfoldable pub local_file : Bytes → (ℕ → ℕ → ℕ) → SeekableVfsFile ℕ
local_file contents at_most = record {
  size = λ pos. (pos, some (length contents));
  seek = λ to pos. (to, true);
  read = λ n pos.
      let m : ℕ = min (at_most pos n) (min n (length contents - pos)) in
      (pos + m, some (take m (drop pos contents)));
  seek_table_decomp_frames = λ pos. (pos, none);
}

-- `seek_table.frame_end_decomp(i)` for the frames from `i`, `n` of them.
abbrev table_frames : (ℕ → Option ℕ) → ℕ → ℕ → ℕ → Option (List (ℕ × ℕ))
table_frames frame_end_decomp zero i prev_end = some []
table_frames frame_end_decomp (suc n) i prev_end = elim (frame_end_decomp i) [
  | none ↦ none
  | some end ↦ elim (table_frames frame_end_decomp n (i + 1) end) [
    | none ↦ none
    | some out ↦ some ((prev_end, end - prev_end) ∷ out)
  ]
]

-- The seek table is zeekstd's: its number of frames and where each one ends.
unfoldable pub seek_table_decomp_frames : ℕ → (ℕ → Option ℕ) → Option (List (ℕ × ℕ))
seek_table_decomp_frames num_frames frame_end_decomp =
    if num_frames == 0 then none else table_frames frame_end_decomp num_frames 0 0
