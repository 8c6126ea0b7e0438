-- ===== src/Vfs/Tests.antt =====
-- The seek table at a concrete file.
use polars_logfmt.Prelude.{ℕ, ◌+◌, ◌*◌, ◌≡◌, refl, length, List, some, arith}
use polars_logfmt.Vfs.{seek_table_decomp_frames}
use polars_logfmt.Vfs.SeekTable.{Spans, seek_table_decomp_frames-Spans}

seek_table_decomp_frames-Spans_example :
    (ranges : List (ℕ × ℕ)) × (seek_table_decomp_frames 3 (λ i. some (10 * i + 7)) ≡ some ranges)
    × Spans 0 27 ranges
    × (length ranges ≡ 3)
seek_table_decomp_frames-Spans_example =
    seek_table_decomp_frames-Spans (λ i. some (10 * i + 7)) (λ i. 10 * i + 7) 2 (λ i lt. refl)
      (λ i lt. omega arith)
