-- ===== src/Vfs/Handles/Tests.antt =====
-- Calls of a zstd file of nine bytes in two frames, whose decoder hands out two bytes at a time.
use polars_logfmt.Prelude.{ℕ, ◌+◌, ◌*◌, ◌-◌, ◌≡◌, refl, min, List, some, length, take, drop, arith}
use polars_logfmt.Text.{codes}
use polars_logfmt.Vfs.{local_file}
use polars_logfmt.Vfs.Contract.{Streams, local_file-Holds}
use polars_logfmt.Vfs.SeekTable.{Spans}
use polars_logfmt.Vfs.Handles.{LocalSeekableZstdFile, open_local_zst, local_zst_file}
use polars_logfmt.Vfs.Handles.Samples.{text, two_at_a_time}
use polars_logfmt.Vfs.Handles.Contracts.{local_zst_file-read}
use polars_logfmt.Vfs.Handles.Spans.{open_local_zst-Spans}

two_at_a_time-Streams : Streams two_at_a_time.seek two_at_a_time.read text
two_at_a_time-Streams = local_file-Holds text (λ pos n. 2) (λ pos n some_bytes. omega arith)

abbrev behind_first : LocalSeekableZstdFile two_at_a_time
behind_first = record { inner = 4; pos = 4; size = 9; path = codes "a.zst" }

-- The whole second line by one call.
reads_line : ((local_zst_file two_at_a_time).read 8 behind_first).1 ≡ some (codes "b=23\n")
unfolding local_zst_file local_file
reads_line = refl

local_zst_file-read_example :
    (s' : LocalSeekableZstdFile two_at_a_time) × ((local_zst_file two_at_a_time).read 8 behind_first
      ≡ (s', some (take 8 (drop 4 text))))
    × (s'.pos ≡ 4 + min 8 (length text - 4))
    × (s'.pos ≡ two_at_a_time-Streams.position s'.inner)
unfolding two_at_a_time-Streams local_file-Holds
local_zst_file-read_example =
    local_zst_file-read two_at_a_time text two_at_a_time-Streams 8 behind_first refl (omega arith)
      (omega arith)

open_local_zst-Spans_example :
    (ranges : List (ℕ × ℕ)) × (((local_zst_file two_at_a_time).seek_table_decomp_frames
        (open_local_zst two_at_a_time (codes "a.zst") 0)).1
      ≡ some ranges)
    × Spans 0 (open_local_zst two_at_a_time (codes "a.zst") 0).size ranges
    × (length ranges ≡ 2)
open_local_zst-Spans_example =
    open_local_zst-Spans two_at_a_time (codes "a.zst") 0 (λ i. 4 + 5 * i) 1 refl (λ i lt. refl)
      (λ i lt. omega arith)
