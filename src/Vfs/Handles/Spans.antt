-- ===== src/Vfs/Handles/Spans.antt =====
-- The frames of a zstd file that was opened.
use polars_logfmt.Prelude.{
  ℕ, suc, ◌+◌, ◌-◌, ◌≤◌, ◌<◌, List, ◌≡◌, ap, sym, ◌∙◌, subst, some, length, arith,
}
use polars_logfmt.Text.{Bytes}
use polars_logfmt.Vfs.{seek_table_decomp_frames}
use polars_logfmt.Vfs.SeekTable.{Spans, seek_table_decomp_frames-Spans}
use polars_logfmt.Logfmt.Value.{unwrap_or}
use polars_logfmt.Vfs.Handles.{Decoder, open_local_zst, local_zst_file}

-- A zstd file that is opened with frames whose ends its seek table knows, none of them before the one in
-- front of it, lists its frames: as many as the table has, one behind the other from 0 to the size of the
-- file.
pub open_local_zst-Spans :
    {D : Type 0} (zst : Decoder D) (path : Bytes) (d : D) (ends : ℕ → ℕ) (n : ℕ)
    → zst.num_frames d ≡ suc n
    → ((i : ℕ) → i < suc n → zst.frame_end_decomp d i ≡ some (ends i))
    → ((i : ℕ) → i + 1 < suc n → ends i ≤ ends (i + 1))
    → (ranges : List (ℕ × ℕ)) × (((local_zst_file zst).seek_table_decomp_frames
          (open_local_zst zst path d)).1
        ≡ some ranges)
      × Spans 0 (open_local_zst zst path d).size ranges
      × (length ranges ≡ suc n)
unfolding local_zst_file open_local_zst
open_local_zst-Spans zst path d ends n frames is_end ascends =
    let (ranges, tabled, spans, len) =
      seek_table_decomp_frames-Spans (zst.frame_end_decomp d) ends n is_end ascends in
    let last : suc n - 1 ≡ n = omega arith in
    let size : unwrap_or 0 (zst.frame_end_decomp d (zst.num_frames d - 1)) ≡ ends n =
      ap (λ k. unwrap_or 0 (zst.frame_end_decomp d (k - 1))) frames
      ∙ ap (λ k. unwrap_or 0 (zst.frame_end_decomp d k)) last
      ∙ ap (unwrap_or 0) (is_end n (omega arith)) in
    (
      ranges,
      ap (λ k. seek_table_decomp_frames k (zst.frame_end_decomp d)) frames ∙ tabled,
      subst (λ k. Spans 0 k ranges) (sym size) spans,
      len,
    )
