-- ===== src/Lazy/Builder/Tests.antt =====
-- Readers of one command's output, with a file at one path.
use polars_logfmt.Prelude.{ℕ, ◌+◌, true, false, [], ◌∷◌, ◌++◌, ◌≡◌, refl, Option, none, some}
use polars_logfmt.Text.{Bytes, codes}
use polars_logfmt.Text.Search.{starts_with, trim}
use polars_logfmt.Text.Utf8.{is_utf8}
use polars_logfmt.Maps.{insert}
use polars_logfmt.Ssh.{SshSource, Urls, parse_ssh_source}
use polars_logfmt.Logfmt.Samples.{few_formats}
use polars_logfmt.Logfmt.Integers.{i64_from_str}
use polars_logfmt.Logfmt.Scan.{handle_parse_logfmt_line_with_schema_base}
use polars_logfmt.Logfmt.Value.{Schema, SchemaField, parse_value}
use polars_logfmt.Logfmt.Rows.{parse_logfmt_line}
use polars_logfmt.Lazy.Lines.{split_lines}
use polars_logfmt.Lazy.Infer.{infer_schema_from_reader, infer_schema_from_row}
use polars_logfmt.Lazy.Dtypes.{logfmt_schema_to_polars_schema}
use polars_logfmt.Lazy.Columns.{int64}
use polars_logfmt.Lazy.Source.{LogFmtSource, Readers, infer_schema_from_source}
use polars_logfmt.Lazy.Builder.{
  LazyLogFmtReader, build_reader, scan_reader, clone_with_fresh_handle,
}
use polars_logfmt.Lazy.Builder.Fresh.{clone_with_fresh_handle-keeps}
use polars_logfmt.Lazy.Builder.Entry.{LogfmtScanOpts, scan_logfmt}
use polars_logfmt.Lazy.Builder.Opening.{
  opened_with, FromSource, configured_reader, scan_logfmt-opened,
}

abbrev output : Bytes
output = codes "a=1" ++ b'\n' ∷ codes "a=2"

-- Every command gives the output; a handle is its number of clones.
abbrev counting_readers : Readers ℕ
counting_readers = record {
  run = λ source cmd is_zst. some output;
  clone_handle = λ n. some (n + 1);
  read_handle = λ n. output;
  read_units = λ units. [];
}

abbrev url : Bytes
url = codes "ssh://me@host/log"

-- URLs that all say the same.
abbrev one_url : Urls
one_url = record {
  Url = Bytes;
  parse = λ text. some text;
  scheme = λ text. codes "ssh";
  username = λ text. codes "me";
  host_str = λ text. some (codes "host");
  url_port = λ text. none;
  url_path = λ text. codes "/log";
}

abbrev opts : LogfmtScanOpts
opts = record {
  line_filter = none;
  schema = none;
  infer_schema_length = none;
  batch_size = some 7;
  n_threads = none;
  aligned_cols_cnt = false;
  cmd = some (codes "cat /log");
}

abbrev open_none : Bytes → Option ℕ
open_none path = none

abbrev host : SshSource
host = record {
  user = codes "me";
  host = codes "host";
  port = 22;
  path = codes "/log";
  line_filter = none;
}

abbrev of_ints : Schema
of_ints = (codes "a", SchemaField.integer) ∷ []

-- The first line was read, and the stream has it still.
abbrev opened_reader : LazyLogFmtReader few_formats ℕ
opened_reader =
    opened_with few_formats ℕ counting_readers open_none
      (configured_reader few_formats ℕ counting_readers open_none one_url opts opts.cmd
        (LogFmtSource.ssh host))
      none of_ints

command-opens :
    scan_logfmt few_formats ℕ counting_readers open_none one_url url opts
    ≡ some (opened_reader, some ((codes "a", int64) ∷ []))
unfolding scan_logfmt starts_with parse_ssh_source build_reader scan_reader infer_schema_from_source
    infer_schema_from_reader split_lines is_utf8 trim parse_logfmt_line
    handle_parse_logfmt_line_with_schema_base infer_schema_from_row logfmt_schema_to_polars_schema
    insert parse_value i64_from_str
command-opens = refl

scan_logfmt-opened_example :
    (src : LogFmtSource ℕ) × (s : Schema) × FromSource few_formats ℕ counting_readers open_none
      one_url url opts.cmd src
    × (opened_reader
        ≡ opened_with few_formats ℕ counting_readers open_none
            (configured_reader few_formats ℕ counting_readers open_none one_url opts opts.cmd src)
            none
            s)
    × (opened_reader.schema ≡ some s)
    × (some ((codes "a", int64) ∷ []) ≡ some (logfmt_schema_to_polars_schema s))
scan_logfmt-opened_example =
    scan_logfmt-opened few_formats ℕ counting_readers open_none one_url url opts opened_reader
      (some ((codes "a", int64) ∷ [])) command-opens

-- A reader of a file that has been read.
abbrev stale_reader : LazyLogFmtReader few_formats ℕ
stale_reader = record opened_reader {
  source = LogFmtSource.seekable (some 3);
  reader_state = record { reader = none; offset = 9; finished = true };
  use_parallel = false;
}

clone_with_fresh_handle-keeps_example :
    clone_with_fresh_handle few_formats ℕ counting_readers open_none stale_reader
    ≡ some (record opened_reader {
      source = LogFmtSource.seekable (some 4);
      reader_state = record { reader = none; offset = 0; finished = false };
    })
clone_with_fresh_handle-keeps_example =
    clone_with_fresh_handle-keeps few_formats ℕ counting_readers open_none stale_reader
