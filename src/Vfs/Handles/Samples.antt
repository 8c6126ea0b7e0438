-- ===== src/Vfs/Handles/Samples.antt =====
-- A zstd file of nine bytes in two frames, whose decoder hands out two bytes at a time.
use polars_logfmt.Prelude.{ℕ, ◌+◌, ◌*◌, some}
use polars_logfmt.Text.{Bytes, codes}
use polars_logfmt.Vfs.{local_file}
use polars_logfmt.Vfs.Handles.{Decoder}

abbrev pub text : Bytes
text = codes "a=1\nb=23\n"

abbrev pub two_at_a_time : Decoder ℕ
two_at_a_time = record {
  seek = (local_file text (λ pos n. 2)).seek;
  read = (local_file text (λ pos n. 2)).read;
  num_frames = λ d. 2;
  frame_end_decomp = λ d i. some (4 + 5 * i);
}
