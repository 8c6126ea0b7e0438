-- ===== src/Lazy/Builder/Entry.antt =====
-- `scan_logfmt` of polars-logfmt/src/scan.rs: from a source and options to an opened scan.
use polars_logfmt.Prelude.{ℕ, Bool, true, List, Option, none, some, if◌then◌else◌}
use polars_logfmt.Text.{Bytes, codes}
use polars_logfmt.Text.Search.{starts_with, contains}
use polars_logfmt.Ssh.{Urls, SshResult, parse_ssh_source}
use polars_logfmt.Logfmt.Formats.{Formats}
use polars_logfmt.Logfmt.Scan.{◌>>=◌}
use polars_logfmt.Logfmt.Value.{Schema, unwrap_or}
use polars_logfmt.Lazy.Source.{Readers}
use polars_logfmt.Lazy.Columns.{DataType}
use polars_logfmt.Lazy.Builder.{
  SourceSpec, LazyLogFmtReader, LazyLogFmtReaderBuilder, new_builder, with_line_filter, with_source,
  with_cmd, with_batch_size, with_schema, with_aligned_cols_cnt, with_n_threads,
  with_infer_schema_length, default_infer_schema_length, build_reader, scan_reader,
}

pub record LogfmtScanOpts : Type 0 where
  pub line_filter : Option Bytes
  pub schema : Option Schema
  pub infer_schema_length : Option ℕ
  pub batch_size : Option ℕ
  pub n_threads : Option ℕ
  pub aligned_cols_cnt : Bool
  pub cmd : Option Bytes

module _ (fmt : Formats) (S : Type 0) (readers : Readers S) (open_vfs : Bytes → Option S)
    (urls : Urls) where
  -- The filter of the builder: without a needle it stays the one that passes every line.
  abbrev pub filter_of : Option Bytes → Bytes → Bool
  filter_of none line = true
  filter_of (some needle) line = contains line needle

  -- The settings that the options give.
  abbrev pub configured : LogfmtScanOpts → LazyLogFmtReaderBuilder fmt S
  configured opts = with_line_filter fmt S (filter_of opts.line_filter) (
      with_schema fmt S opts.schema (
        with_infer_schema_length fmt S
          (unwrap_or default_infer_schema_length opts.infer_schema_length)
          (with_aligned_cols_cnt fmt S opts.aligned_cols_cnt (
            with_n_threads fmt S opts.n_threads
              (with_batch_size fmt S opts.batch_size (new_builder fmt S))))))

  abbrev pub commanded :
      Bytes → SshResult → LazyLogFmtReaderBuilder fmt S → Option (LazyLogFmtReaderBuilder fmt S)
  commanded cmd (SshResult.ok source) b =
      some (with_cmd fmt S (some cmd) (with_source fmt S (some (SourceSpec.ssh source)) b))
  commanded cmd _ b = none

  -- The `match` on the source and the command.
  abbrev pub sourced :
      Bytes → Option Bytes → LazyLogFmtReaderBuilder fmt S → Option (LazyLogFmtReaderBuilder fmt S)
  sourced source none b = some (with_source fmt S (some (SourceSpec.path source)) b)
  sourced source (some cmd) b =
      if starts_with source (codes "ssh://")
      then commanded cmd (parse_ssh_source urls source) b
      else none

  -- `none` is an error.
  unfoldable pub scan_logfmt :
      Bytes → LogfmtScanOpts → Option (LazyLogFmtReader fmt S × Option (List (Bytes × DataType)))
  scan_logfmt source opts = sourced source opts.cmd (configured opts) >>= λ b.
      build_reader fmt S readers open_vfs b >>= scan_reader fmt S readers open_vfs
