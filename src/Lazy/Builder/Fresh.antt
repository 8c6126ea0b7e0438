-- ===== src/Lazy/Builder/Fresh.antt =====
-- A clone of a reader has its settings and nothing of its state.
use polars_logfmt.Prelude.{true, false, ◌≡◌, refl, Option, none, some, arith}
use polars_logfmt.Text.{Bytes}
use polars_logfmt.Logfmt.Formats.{Formats}
use polars_logfmt.Logfmt.Scan.{◌>>=◌}
use polars_logfmt.Logfmt.Value.{unwrap_or}
use polars_logfmt.Lazy.Source.{LogFmtSource, Readers}
use polars_logfmt.Lazy.Builder.{
  LazyLogFmtReader, build_reader, clone_source, clone_with_fresh_handle,
}

-- The source of a clone: a handle of its own, if it is a file.
abbrev pub source_of_clone : {S : Type 0} → Readers S → LogFmtSource S → Option (LogFmtSource S)
source_of_clone readers (LogFmtSource.seekable none) = none
source_of_clone readers (LogFmtSource.seekable (some file)) =
    readers.clone_handle file >>= λ handle. some (LogFmtSource.seekable (some handle))
source_of_clone readers source = some source

-- A clone has the reader's own settings, but that it scans in parallel, and that it has a line filter, which
-- passes every line where the reader has none. It starts afresh, from a handle of its own if its source
-- is a file; it fails just if that handle cannot be had.
pub clone_with_fresh_handle-keeps :
    (fmt : Formats) (S : Type 0) (readers : Readers S) (open_vfs : Bytes → Option S)
    (r : LazyLogFmtReader fmt S)
    → clone_with_fresh_handle fmt S readers open_vfs r ≡ (
        source_of_clone readers r.source >>= λ source. some (record r {
          source = source;
          line_filter = some (unwrap_or (λ line. true) r.line_filter);
          reader_state = record { reader = none; offset = 0; finished = false };
          use_parallel = true;
        }))
unfolding clone_with_fresh_handle clone_source build_reader
clone_with_fresh_handle-keeps fmt S readers open_vfs r = go r.source
  where
    go :
        (source : LogFmtSource S)
        → clone_with_fresh_handle fmt S readers open_vfs (record r { source = source }) ≡ (
            source_of_clone readers source >>= λ source'. some (record r {
              source = source';
              line_filter = some (unwrap_or (λ line. true) r.line_filter);
              reader_state = record { reader = none; offset = 0; finished = false };
              use_parallel = true;
            }))
    go (LogFmtSource.seekable none) = refl
    go (LogFmtSource.seekable (some file)) = ground arith
    go (LogFmtSource.cursor c) = refl
    go (LogFmtSource.ssh s) = refl
    go (LogFmtSource.units u) = refl
