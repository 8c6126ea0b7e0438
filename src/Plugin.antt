-- ===== src/Plugin.antt =====
-- logfmt-scan/src/lib.rs: the scan source of a plugin, over bytes that the plugin hands in.
mod Tests
use polars_logfmt.Prelude.{ℕ, Bool, List, Option, none, some}
use polars_logfmt.Text.{Bytes}
use polars_logfmt.Ssh.{Urls}
use polars_logfmt.Logfmt.Formats.{Formats}
use polars_logfmt.Logfmt.Scan.{◌>>=◌}
use polars_logfmt.Logfmt.Value.{unwrap_or}
use polars_logfmt.Vfs.{SeekableVfsFile}
use polars_logfmt.Vfs.Handles.{VfsFileStat, kept_stat}
use polars_logfmt.Lazy.Units.{UnitSource}
use polars_logfmt.Lazy.Columns.{DataType}
use polars_logfmt.Lazy.Source.{Readers}
use polars_logfmt.Lazy.Builder.{
  SourceSpec, LazyLogFmtReader, LazyLogFmtReaderBuilder, new_builder, with_line_filter, with_source,
  with_batch_size, with_schema, with_aligned_cols_cnt, with_n_threads, with_infer_schema_length,
  default_infer_schema_length, build_reader, scan_reader,
}
use polars_logfmt.Lazy.Builder.Entry.{LogfmtScanOpts, filter_of}

-- `ReadAt` and its `ReadAtCursor` of nu_plugin_polars, whose cursors are `C`.
pub record ReadAt (C : Type 0) : Type 0 where
  pub len : Option ℕ
  pub new_cursor : C
  pub seek_cursor : ℕ → C → C × Bool
  pub read_cursor : ℕ → C → C × Option Bytes

-- What the plugin hands in: bytes to read at a position, or records by number with their count, if it is known.
pub data PluginBytes (C : Type 0) : Type 0 where
  at : ReadAt C → PluginBytes C
  records : UnitSource → Option ℕ → PluginBytes C

pub record ReadAtFile (C : Type 0) : Type 0 where
  pub source : ReadAt C
  pub cursor : C

module _ {C : Type 0} where
  abbrev pub new_read_at_file : ReadAt C → ReadAtFile C
  new_read_at_file source = record { source = source; cursor = source.new_cursor }

  abbrev with_cursor : {A : Type 0} → ReadAtFile C → C × A → ReadAtFile C × A
  with_cursor s (cursor, a) = (record s { cursor = cursor }, a)

  -- The table is that of the trait: there is none.
  unfoldable pub read_at_file : SeekableVfsFile (ReadAtFile C)
  read_at_file = record {
    size = λ s. (s, s.source.len);
    seek = λ to s. with_cursor s (s.source.seek_cursor to s.cursor);
    read = λ n s. with_cursor s (s.source.read_cursor n s.cursor);
    seek_table_decomp_frames = λ s. (s, none);
  }

  unfoldable pub stat_read_at_file : ReadAtFile C → Option VfsFileStat
  stat_read_at_file s = s.source.len >>= λ size. some (kept_stat size)

  unfoldable pub clone_read_at_file : ReadAtFile C → Option (ReadAtFile C)
  clone_read_at_file s = some (new_read_at_file s.source)

  module _ (fmt : Formats) (readers : Readers (ReadAtFile C))
      (open_vfs : Bytes → Option (ReadAtFile C)) (urls : Urls) where
    abbrev pub spec_of_bytes : PluginBytes C → SourceSpec (ReadAtFile C)
    spec_of_bytes (at source) = SourceSpec.seekable (new_read_at_file source)
    spec_of_bytes (records read_unit count_units) = SourceSpec.units read_unit

    -- The settings that the options give.
    abbrev pub plugin_builder :
        PluginBytes C → LogfmtScanOpts → LazyLogFmtReaderBuilder fmt (ReadAtFile C)
    plugin_builder source opts =
        with_line_filter fmt (ReadAtFile C)
          (filter_of fmt (ReadAtFile C) readers open_vfs urls opts.line_filter)
          (with_source fmt (ReadAtFile C) (some (spec_of_bytes source)) (
            with_schema fmt (ReadAtFile C) opts.schema (
              with_infer_schema_length fmt (ReadAtFile C)
                (unwrap_or default_infer_schema_length opts.infer_schema_length)
                (with_aligned_cols_cnt fmt (ReadAtFile C) opts.aligned_cols_cnt (
                  with_n_threads fmt (ReadAtFile C) opts.n_threads (
                    with_batch_size fmt (ReadAtFile C) opts.batch_size
                      (new_builder fmt (ReadAtFile C))))))))

    abbrev without_cmd :
        Option Bytes
        → Option (LazyLogFmtReader fmt (ReadAtFile C) × Option (List (Bytes × DataType)))
        → Option (LazyLogFmtReader fmt (ReadAtFile C) × Option (List (Bytes × DataType)))
    without_cmd (some cmd) scanned = none
    without_cmd none scanned = scanned

    -- `opts` is what `serde_json` makes of the JSON; `none` is an error.
    unfoldable pub plugin_scan :
        PluginBytes C
        → Option LogfmtScanOpts
        → Option (LazyLogFmtReader fmt (ReadAtFile C) × Option (List (Bytes × DataType)))
    plugin_scan source none = none
    plugin_scan source (some opts) = without_cmd opts.cmd (
        build_reader fmt (ReadAtFile C) readers open_vfs (plugin_builder source opts)
        >>= scan_reader fmt (ReadAtFile C) readers open_vfs)
