-- ===== src/Lazy/Frames/Read.antt =====
-- `FrameBytes::read_frame` of polars-logfmt/src/lazy/lazy_logfmt_reader.rs: the bytes of one frame.
pub mod Whole
use polars_logfmt.Prelude.{
  ℕ, zero, suc, ◌-◌, Bool, true, false, [], ◌∷◌, ◌++◌, Option, none, some, ltb, ◌==◌, if◌then◌else◌,
  length,
}
use polars_logfmt.Text.{Bytes}
use polars_logfmt.Vfs.{SeekableVfsFile}
use polars_logfmt.Lazy.Frames.{FrameRange}

-- `PolarsResult<Option<u64>>` with the buffer that the caller finds.
pub data FrameRead : Type 0 where
  failed : FrameRead
  skipped : FrameRead
  found : ℕ → Bytes → FrameRead

module _ {S : Type 0} (file : SeekableVfsFile S) where
  -- `while n < buf.len()`, where `front` is `buf[..n]` and `len` is `buf.len()`: each turn that goes on
  -- takes a byte at least, so that `len` and one more are fuel enough.
  pub fill : ℕ → ℕ → Bytes → S → S × Option Bytes
  fill zero len front s = (s, some front)
  fill (suc fuel) len front s = elim (ltb (length front) len) [
    | false ↦ (s, some front)
    | true ↦
        let (s', got) = file.read (len - length front) s in
        elim got [
          | none ↦ (s', none)
          | some [] ↦ (s', some front)
          | some (b ∷ bs) ↦ fill fuel len (front ++ (b ∷ bs)) s'
        ]
  ]

  pub filled : ℕ → S × Option Bytes → S × FrameRead
  filled len (s, none) = (s, FrameRead.failed)
  filled len (s, some front) = (s, FrameRead.found len front)

  pub fill_after_seek : ℕ → S × Bool → S × FrameRead
  fill_after_seek len (s, false) = (s, FrameRead.failed)
  fill_after_seek len (s, true) = filled len (fill (suc len) len [] s)

  -- The length it returns is that of the range, also when the file ends earlier.
  unfoldable pub read_frame : FrameRange → S → S × FrameRead
  unfolding fill filled fill_after_seek
  read_frame range s =
      if range.len == 0
      then (s, FrameRead.skipped)
      else fill_after_seek range.len (file.seek range.start s)
