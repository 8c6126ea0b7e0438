-- ===== src/Lazy/Builder.antt =====
-- `LazyLogFmtReaderBuilder`, `clone_with_fresh_handle` and `scan_logfmt` of
-- polars-logfmt/src/lazy/lazy_logfmt_reader.rs: the settings of a reader, and how a scan is opened.
pub mod Fresh
pub mod Entry
pub mod Opening
mod Tests
use polars_logfmt.Prelude.{ℕ, Bool, true, false, List, Option, none, some}
use polars_logfmt.Text.{Bytes}
use polars_logfmt.Ssh.{SshSource}
use polars_logfmt.Logfmt.Formats.{Formats}
use polars_logfmt.Logfmt.Scan.{◌>>=◌}
use polars_logfmt.Logfmt.Value.{Schema, unwrap_or}
use polars_logfmt.Lazy.Lines.{LineReader, LineFilter}
use polars_logfmt.Lazy.Batch.{RowFilter}
use polars_logfmt.Lazy.Units.{UnitSource}
use polars_logfmt.Lazy.Reader.{LogFmtReaderState}
use polars_logfmt.Lazy.Source.{LogFmtSource, Readers, infer_schema_from_source}
use polars_logfmt.Lazy.Columns.{DataType}
use polars_logfmt.Lazy.Dtypes.{logfmt_schema_to_polars_schema}

pub data SourceSpec (S : Type 0) : Type 0 where
  path : Bytes → SourceSpec S
  cursor : Bytes → SourceSpec S
  seekable : S → SourceSpec S
  ssh : SshSource → SourceSpec S
  units : UnitSource → SourceSpec S

abbrev pub default_infer_schema_length : ℕ
default_infer_schema_length = 1

module _ (fmt : Formats) (S : Type 0) where
  pub record LazyLogFmtReader : Type 0 where
    pub source : LogFmtSource S
    pub cmd : Option Bytes
    pub batch_size : Option ℕ
    pub row_filter : RowFilter fmt
    pub line_filter : LineFilter
    pub schema : Option Schema
    pub aligned_cols_cnt : Bool
    pub reader_state : LogFmtReaderState
    pub n_threads : Option ℕ
    pub use_parallel : Bool
    pub infer_schema_length : ℕ

  pub record LazyLogFmtReaderBuilder : Type 0 where
    pub source : Option (SourceSpec S)
    pub line_filter : Bytes → Bool
    pub cmd : Option Bytes
    pub batch_size : Option ℕ
    pub row_filter : RowFilter fmt
    pub schema : Option Schema
    pub aligned_cols_cnt : Bool
    pub n_threads : Option ℕ
    pub use_parallel : Bool
    pub infer_schema_length : ℕ

  abbrev pub new_with_default : (Bytes → Bool) → LazyLogFmtReaderBuilder
  new_with_default line_filter = record {
    source = none;
    line_filter = line_filter;
    cmd = none;
    batch_size = none;
    row_filter = none;
    schema = none;
    aligned_cols_cnt = false;
    n_threads = none;
    use_parallel = true;
    infer_schema_length = default_infer_schema_length;
  }

  abbrev pub new_builder : LazyLogFmtReaderBuilder
  new_builder = new_with_default (λ line. true)

  abbrev pub with_line_filter : (Bytes → Bool) → LazyLogFmtReaderBuilder → LazyLogFmtReaderBuilder
  with_line_filter f b = record b { line_filter = f }

  -- `source`, `from_cursor`, `from_seekable_vfs_file`, `from_ssh_source` and `from_units`.
  abbrev pub with_source : Option (SourceSpec S) → LazyLogFmtReaderBuilder → LazyLogFmtReaderBuilder
  with_source source b = record b { source = source }

  abbrev pub with_cmd : Option Bytes → LazyLogFmtReaderBuilder → LazyLogFmtReaderBuilder
  with_cmd cmd b = record b { cmd = cmd }

  abbrev pub with_batch_size : Option ℕ → LazyLogFmtReaderBuilder → LazyLogFmtReaderBuilder
  with_batch_size bs b = record b { batch_size = bs }

  abbrev pub with_row_filter : RowFilter fmt → LazyLogFmtReaderBuilder → LazyLogFmtReaderBuilder
  with_row_filter rf b = record b { row_filter = rf }

  abbrev pub with_schema : Option Schema → LazyLogFmtReaderBuilder → LazyLogFmtReaderBuilder
  with_schema schema b = record b { schema = schema }

  abbrev pub with_aligned_cols_cnt : Bool → LazyLogFmtReaderBuilder → LazyLogFmtReaderBuilder
  with_aligned_cols_cnt v b = record b { aligned_cols_cnt = v }

  abbrev pub with_n_threads : Option ℕ → LazyLogFmtReaderBuilder → LazyLogFmtReaderBuilder
  with_n_threads n b = record b { n_threads = n }

  abbrev pub with_infer_schema_length : ℕ → LazyLogFmtReaderBuilder → LazyLogFmtReaderBuilder
  with_infer_schema_length n b = record b { infer_schema_length = n }

  -- The setters of a reader: `set_schema_opt`, where `schema` and `set_schema` give it a `some`.
  abbrev pub set_schema_opt : Option Schema → LazyLogFmtReader → LazyLogFmtReader
  set_schema_opt schema r = record r { schema = schema }

  abbrev pub set_line_filter : (Bytes → Bool) → LazyLogFmtReader → LazyLogFmtReader
  set_line_filter f r = record r { line_filter = some f }

  abbrev pub set_aligned_cols_cnt : Bool → LazyLogFmtReader → LazyLogFmtReader
  set_aligned_cols_cnt v r = record r { aligned_cols_cnt = v }

  module _ (readers : Readers S) (open_vfs : Bytes → Option S) where
    -- `SourceSpec::clone`: where a handle cannot be cloned twice it panics.
    unfoldable pub clone_spec : SourceSpec S → Option (SourceSpec S)
    clone_spec (SourceSpec.seekable file) = elim (readers.clone_handle file) [
      | some h ↦ some (SourceSpec.seekable h)
      | none ↦ readers.clone_handle file >>= λ h. some (SourceSpec.seekable h)
    ]
    clone_spec (SourceSpec.path p) = some (SourceSpec.path p)
    clone_spec (SourceSpec.cursor c) = some (SourceSpec.cursor c)
    clone_spec (SourceSpec.ssh s) = some (SourceSpec.ssh s)
    clone_spec (SourceSpec.units u) = some (SourceSpec.units u)

    abbrev clone_spec_opt : Option (SourceSpec S) → Option (Option (SourceSpec S))
    clone_spec_opt none = some none
    clone_spec_opt (some spec) = clone_spec spec >>= λ spec'. some (some spec')

    -- `LazyLogFmtReaderBuilder::clone`
    unfoldable pub clone_builder : LazyLogFmtReaderBuilder → Option LazyLogFmtReaderBuilder
    unfolding clone_spec
    clone_builder b = clone_spec_opt b.source >>= λ source.
        some (record b { source = source; use_parallel = true })

    -- `none` is an error: of `open`, or that there is no source.
    unfoldable pub spec_2_log_fmt_src : Option (SourceSpec S) → Option (LogFmtSource S)
    spec_2_log_fmt_src (some (SourceSpec.path p)) =
        open_vfs p >>= λ file. some (LogFmtSource.seekable (some file))
    spec_2_log_fmt_src (some (SourceSpec.seekable file)) = some (LogFmtSource.seekable (some file))
    spec_2_log_fmt_src (some (SourceSpec.cursor c)) = some (LogFmtSource.cursor c)
    spec_2_log_fmt_src (some (SourceSpec.ssh s)) = some (LogFmtSource.ssh s)
    spec_2_log_fmt_src (some (SourceSpec.units u)) = some (LogFmtSource.units u)
    spec_2_log_fmt_src none = none

    abbrev spec_of : LogFmtSource S → Option (SourceSpec S)
    spec_of (LogFmtSource.seekable none) = none
    spec_of (LogFmtSource.seekable (some file)) =
        readers.clone_handle file >>= λ handle. some (SourceSpec.seekable handle)
    spec_of (LogFmtSource.cursor c) = some (SourceSpec.cursor c)
    spec_of (LogFmtSource.ssh s) = some (SourceSpec.ssh s)
    spec_of (LogFmtSource.units u) = some (SourceSpec.units u)

    unfoldable pub clone_source :
        LogFmtSource S → LazyLogFmtReaderBuilder → Option LazyLogFmtReaderBuilder
    clone_source o_src b = spec_of o_src >>= λ spec. some (record b { source = some spec })

    unfoldable pub build_reader : LazyLogFmtReaderBuilder → Option LazyLogFmtReader
    unfolding spec_2_log_fmt_src
    build_reader b = spec_2_log_fmt_src b.source >>= λ source. some (record {
      source = source;
      cmd = b.cmd;
      batch_size = b.batch_size;
      row_filter = b.row_filter;
      line_filter = some b.line_filter;
      schema = b.schema;
      aligned_cols_cnt = b.aligned_cols_cnt;
      reader_state = record { reader = none; offset = 0; finished = false };
      n_threads = b.n_threads;
      use_parallel = b.use_parallel;
      infer_schema_length = b.infer_schema_length;
    })

    -- `new`, `from_cursor` and `from_seekable_vfs_file` of the reader; a `none` would be a panic.
    unfoldable pub reader_of : SourceSpec S → Option LazyLogFmtReader
    unfolding build_reader
    reader_of spec = build_reader (with_source (some spec) new_builder)

    unfoldable pub clone_with_fresh_handle : LazyLogFmtReader → Option LazyLogFmtReader
    unfolding clone_source build_reader
    clone_with_fresh_handle r =
        let lf : Bytes → Bool = unwrap_or (λ line. true) r.line_filter in
        clone_source r.source (
          with_schema r.schema (
            with_row_filter r.row_filter (
              with_cmd r.cmd (
                with_infer_schema_length r.infer_schema_length (
                  with_n_threads r.n_threads (
                    with_aligned_cols_cnt r.aligned_cols_cnt
                      (with_batch_size r.batch_size (with_line_filter lf new_builder))))))))
        >>= build_reader

    -- The schema and the stream that are left in a reader, from what `infer_schema_from_source` returns.
    abbrev pub with_probe :
        LazyLogFmtReader → Option Schema × Option LineReader → Option LazyLogFmtReader
    with_probe r (none, probe) = none
    with_probe r (some schema, probe) =
        some (record r {
          schema = some schema;
          reader_state = record r.reader_state { reader = probe };
        })

    abbrev pub knowing : LazyLogFmtReader → Option Schema → Option LazyLogFmtReader
    knowing r (some schema) = some r
    knowing r none =
        infer_schema_from_source readers fmt r.source r.cmd r.line_filter r.infer_schema_length
        >>= with_probe r

    abbrev pub declared : Option Schema → Option (List (Bytes × DataType))
    declared none = none
    declared (some schema) = some (logfmt_schema_to_polars_schema schema)

    -- `LazyLogFmtReader::scan_logfmt`: the reader that Polars scans, and the schema of the frame.
    unfoldable pub scan_reader :
        LazyLogFmtReader → Option (LazyLogFmtReader × Option (List (Bytes × DataType)))
    unfolding clone_builder clone_with_fresh_handle
    scan_reader r = knowing r r.schema >>= λ r'. some (r', declared r'.schema)
