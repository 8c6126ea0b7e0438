-- ===== src/Lazy/Source.antt =====
-- `LogFmtSource` and `infer_schema_from_source` of polars-logfmt/src/lazy.rs, and the reading of a source in
-- `single_batch` and `predict_schema_from_first_line` of polars-logfmt/src/lazy/lazy_logfmt_reader.rs.
pub mod Probe
use polars_logfmt.Prelude.{ℕ, Bool, true, false, List, [], ◌∷◌, ◌++◌, Option, none, some}
use polars_logfmt.Text.{Bytes, codes}
use polars_logfmt.Text.Search.{ends_with}
use polars_logfmt.Ssh.{SshSource}
use polars_logfmt.Logfmt.Formats.{Formats}
use polars_logfmt.Logfmt.Scan.{◌>>=◌}
use polars_logfmt.Logfmt.Value.{Schema, unwrap_or}
use polars_logfmt.Vfs.{SeekableVfsFile}
use polars_logfmt.Lazy.Lines.{LineReader, LineFilter, split_lines, text_of}
use polars_logfmt.Lazy.Infer.{infer_schema_from_reader}
use polars_logfmt.Lazy.Frames.{FrameRange, frames_from_seekable}
use polars_logfmt.Lazy.Units.{UnitSource}

-- `S` are the handles of seekable files; a `Mutex` is what it holds, and a cursor its bytes: each reading
-- clones it and sets it to 0.
pub data LogFmtSource (S : Type 0) : Type 0 where
  ssh : SshSource → LogFmtSource S
  cursor : Bytes → LogFmtSource S
  seekable : Option S → LogFmtSource S
  units : UnitSource → LogFmtSource S

-- What a source is read by; each text is what a reader gives up to its end.
pub record Readers (S : Type 0) : Type 0 where
  -- `connect_ssh` with a command, and `ssh_reader` on its stream, which decodes if it is told to
  pub run : SshSource → Bytes → Bool → Option Bytes
  pub clone_handle : S → Option S
  pub read_handle : S → Bytes
  pub read_units : UnitSource → Bytes

module _ {S : Type 0} (readers : Readers S) where
  -- `LogFmtSource::clone_handle`
  unfoldable pub clone_source_handle : LogFmtSource S → Option (LogFmtSource S)
  clone_source_handle (LogFmtSource.seekable (some file)) =
      readers.clone_handle file >>= λ new_file. some (LogFmtSource.seekable (some new_file))
  clone_source_handle (LogFmtSource.seekable none) = none
  clone_source_handle (LogFmtSource.ssh source) = none
  clone_source_handle (LogFmtSource.cursor bytes) = none
  clone_source_handle (LogFmtSource.units source) = none

  abbrev pub text_of_source : Option Bytes → LogFmtSource S → Option Bytes
  text_of_source cmd (LogFmtSource.cursor bytes) = some bytes
  text_of_source cmd (LogFmtSource.ssh source) =
      readers.run source (unwrap_or (codes "cat " ++ source.path) cmd)
        (ends_with source.path (codes ".zst"))
  text_of_source cmd (LogFmtSource.seekable none) = none
  text_of_source cmd (LogFmtSource.seekable (some file)) =
      readers.clone_handle file >>= λ handle. some (readers.read_handle handle)
  text_of_source cmd (LogFmtSource.units source) = some (readers.read_units source)

  -- The reader of a source; `none` is an error.
  unfoldable pub open_source : Option Bytes → LogFmtSource S → Option LineReader
  open_source cmd source = text_of_source cmd source >>= λ text. some (split_lines text)

  module _ (fmt : Formats) where
    -- `Cursor::new(consumed).chain(reader)` for the source of a command.
    abbrev pub probe_of : LogFmtSource S → Bytes → LineReader → Option LineReader
    probe_of (LogFmtSource.ssh source) consumed reader =
        some (split_lines (consumed ++ text_of reader))
    probe_of (LogFmtSource.cursor bytes) consumed reader = none
    probe_of (LogFmtSource.seekable file) consumed reader = none
    probe_of (LogFmtSource.units source) consumed reader = none

    unfoldable pub infer_schema_from_source :
        LogFmtSource S → Option Bytes → LineFilter → ℕ → Option (Option Schema × Option LineReader)
    unfolding open_source
    infer_schema_from_source source cmd line_filter infer_schema_length =
        open_source cmd source >>= λ reader.
        infer_schema_from_reader fmt line_filter infer_schema_length reader >>= λ read.
        some (read.0.schema, probe_of source read.0.consumed read.1)

    -- On the text of the probe; `none` is an error.
    unfoldable pub predict_schema_from_first_line_handle :
        LineFilter → ℕ → Bytes → Option (Option Schema)
    predict_schema_from_first_line_handle line_filter infer_schema_length text =
        infer_schema_from_reader fmt line_filter infer_schema_length (split_lines text) >>= λ read.
        some read.0.schema

    -- The probe is set back to the start, also where the file has no frames.
    abbrev predicted_at :
        LineFilter → ℕ → Option (List FrameRange) → S × Bool → Option (Option Schema)
    predicted_at line_filter infer_schema_length frames (probe, false) = none
    predicted_at line_filter infer_schema_length none (probe, true) = some none
    predicted_at line_filter infer_schema_length (some ranges) (probe, true) =
        predict_schema_from_first_line_handle line_filter infer_schema_length
          (readers.read_handle probe)

    abbrev predicted_from : SeekableVfsFile S → LineFilter → ℕ → Option S → Option (Option Schema)
    predicted_from file line_filter infer_schema_length none = some none
    predicted_from file line_filter infer_schema_length (some probe) =
        let (probe', frames) = frames_from_seekable file probe in
        predicted_at line_filter infer_schema_length frames (file.seek 0 probe')

    unfoldable pub predict_schema_from_first_line :
        SeekableVfsFile S → LineFilter → ℕ → LogFmtSource S → Option (Option Schema)
    unfolding predict_schema_from_first_line_handle
    predict_schema_from_first_line file line_filter infer_schema_length
          (LogFmtSource.seekable none) =
        some none
    predict_schema_from_first_line file line_filter infer_schema_length
          (LogFmtSource.seekable (some orig_file)) =
        predicted_from file line_filter infer_schema_length (readers.clone_handle orig_file)
    predict_schema_from_first_line file line_filter infer_schema_length
          (LogFmtSource.units source) =
        predict_schema_from_first_line_handle line_filter infer_schema_length
          (readers.read_units source)
    predict_schema_from_first_line file line_filter infer_schema_length (LogFmtSource.ssh source) =
        some none
    predict_schema_from_first_line file line_filter infer_schema_length
          (LogFmtSource.cursor bytes) =
        some none
