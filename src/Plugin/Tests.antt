-- ===== src/Plugin/Tests.antt =====
-- A plugin that hands in four bytes.
use polars_logfmt.Prelude.{ℕ, ◌+◌, true, List, [], ◌∷◌, ◌≡◌, refl, Option, none, some, take, drop}
use polars_logfmt.Text.{Bytes, codes}
use polars_logfmt.Ssh.{Urls}
use polars_logfmt.Logfmt.Samples.{few_formats}
use polars_logfmt.Logfmt.Value.{SchemaField}
use polars_logfmt.Lazy.Columns.{DataType, int64}
use polars_logfmt.Lazy.Dtypes.{logfmt_schema_to_polars_schema}
use polars_logfmt.Lazy.Source.{Readers}
use polars_logfmt.Lazy.Builder.{LazyLogFmtReader, build_reader, scan_reader}
use polars_logfmt.Lazy.Builder.Entry.{LogfmtScanOpts}
use polars_logfmt.Plugin.{
  ReadAt, PluginBytes, ReadAtFile, new_read_at_file, read_at_file, clone_read_at_file, plugin_scan,
}

-- A cursor is its position.
abbrev four_bytes : ReadAt ℕ
four_bytes = record {
  len = some 4;
  new_cursor = 0;
  seek_cursor = λ to cursor. (to, true);
  read_cursor = λ n cursor. (cursor + n, some (take n (drop cursor (codes "a=12"))));
}

two_bytes_read : (read_at_file.read 2 (new_read_at_file four_bytes)).1 ≡ some (codes "a=")
unfolding read_at_file
two_bytes_read = refl

abbrev file_readers : Readers (ReadAtFile ℕ)
file_readers = record {
  run = λ source cmd is_zst. none;
  clone_handle = clone_read_at_file;
  read_handle = λ file. codes "a=12";
  read_units = λ units. [];
}

abbrev no_url : Urls
no_url = record {
  Url = Bytes;
  parse = λ text. none;
  scheme = λ text. [];
  username = λ text. [];
  host_str = λ text. none;
  url_port = λ text. none;
  url_path = λ text. [];
}

abbrev opts_with : Option Bytes → LogfmtScanOpts
opts_with cmd = record {
  line_filter = none;
  schema = some ((codes "a", SchemaField.integer) ∷ []);
  infer_schema_length = none;
  batch_size = none;
  n_threads = none;
  aligned_cols_cnt = true;
  cmd = cmd;
}

-- A command is refused.
command_refused :
    plugin_scan few_formats file_readers
      (λ path. none)
      no_url
      (PluginBytes.at four_bytes)
      (some (opts_with (some (codes "cat"))))
    ≡ none
unfolding plugin_scan
command_refused = refl

abbrev declared_of :
    Option (LazyLogFmtReader few_formats (ReadAtFile ℕ) × Option (List (Bytes × DataType)))
    → Option (List (Bytes × DataType))
declared_of none = none
declared_of (some (r, columns)) = columns

columns_declared :
    declared_of (
      plugin_scan few_formats file_readers
        (λ path. none)
        no_url
        (PluginBytes.at four_bytes)
        (some (opts_with none)))
    ≡ some ((codes "a", int64) ∷ [])
unfolding plugin_scan build_reader scan_reader logfmt_schema_to_polars_schema
columns_declared = refl
