-- ===== src/Lib.antt =====
-- polars-logfmt reads logfmt text (lines of key=value pairs) from local files, SSH sources and
-- compressed files, and turns it into Polars data frames. This library models the program's own
-- logic; Polars, chrono, humantime, zeekstd, rayon and the operating system are parameters.
--
-- How the parts work together: a line goes through the scanner of polars-logfmt/src/logfmt.rs, which
-- hands each pair to a callback; the callback gives the value a type (by a schema, or by inference)
-- and puts it in a row. A filter of polars-logfmt/src/filter.rs may reject the row. A scan
-- (polars-logfmt/src/lazy/lazy_logfmt_reader.rs) cuts a seekable file into frames at line ends, deals
-- the frames out to workers, and infers a schema from the first lines (polars-logfmt/src/lazy.rs).
--
-- The files:
--   Prelude      shared names, Boolean tests, lists measured by native numbers
--   Text         texts as UTF-8 bytes, the UTF-8 automaton, `trim`, searches, slices
--   Maps         `HashMap` and `BTreeMap` with text keys, as association lists
--   Logfmt.Scan  `handle_parse_logfmt_line_with_schema_base`: the calls of the callback, in order, as a
--                list; a slice out of range is a panic, and is `none`. Each `while` is a recursion on
--                fuel: `advance`, `quote_loop` and `scan_from` get the bytes that are left, and one
--                more, which Scan/Total shows to be enough
--   Logfmt.Value `ParsedValue`, `SchemaField`, `infer_type` and the typing under a schema; the formats
--                of chrono, humantime and `f64` are the record `Formats`; Logfmt.Integers is
--                `i64::from_str` and `to_string` of `i64`
--   Logfmt.Rows  the rows of a line
--   Filter       polars-logfmt/src/filter.rs
--   Vfs          `SeekableVfsFile` with explicit state, the local file and the seek table of
--                polars-logfmt/src/seekable_vfs.rs and polars-logfmt/src/ssh_vfs
--   Vfs.Handles  polars-logfmt/src/ssh_vfs/local_zst_file.rs, ssh_zst_file.rs and ssh_plain_file.rs: the local
--                zstd file, and the handles over SFTP; a decoder is a record of streams, a lock is the state
--                behind it. The read loop runs on the bytes that are wanted and one more as fuel, since each
--                turn but the last gets one
--   Vfs.Sftp     `SshSeekableZstdFile` of polars-logfmt/src/ssh_vfs/mod.rs and its methods
--   Vfs.Open     `open` and `stat` of `SshSeekableZstdVfs`: which file a path opens or states; files,
--                sessions and SFTP are the record `System`
--   Lazy.Infer   schema inference: `merge_schema_field`, `infer_schema_from_reader`
--   Lazy.Frames  `frames_from_seekable` and `read_frame`: each I/O call may change the file's state and
--                may fail; the loops run on fuel that the theorems show to be enough
--   Lazy.Workers the chunks of `_parallel_batch`
--   Lazy.Source  `LogFmtSource`, `infer_schema_from_source` and `predict_schema_from_first_line`: a command, a
--                handle and units are the texts that they give
--   Lazy.Builder `LazyLogFmtReaderBuilder`, `build`, `clone_with_fresh_handle` and `scan_logfmt`; a setter
--                `x` is `with_x`. Builder/Entry is polars-logfmt/src/scan.rs
--   Lazy.Parallel  `parse_frames` and `_parallel_batch` without a slice: the state of a handle is passed on, and
--                a `none` is an error or a panic. The branches where `use_df_maker` is false are dead code,
--                and left out
--   Lazy.RowCap  the line loop of `parse_frames` under a slice: a step relation on the shared counter and
--                the workers, a step being what a worker does between two accesses of the counter; a frame that
--                cannot be read, and a line that is not UTF-8, stop a worker with an error
--   Lazy.Batch   `parse_batch_from_reader`; a `none` is an I/O error or a line that is not UTF-8
--   Lazy.Reader  `single_batch` and `wrrap_next_batch` on `LogFmtReaderState`; the loop of `single_batch`
--                runs on the lines that are left and one more as fuel, and takes one turn. Its frame is what
--                Polars makes of the columns of `rows_to_dataframe_filled`
--   Lazy.Scan    `scan` of `AnonymousScan`: the loop over the batches and the slice; the calls of
--                `next_batch` are the fuel, and Scan/Whole and Scan/Capped show how many are enough
--   Lazy.Dtypes  the types that a scan declares: `logfmt_schema_to_polars_schema` and `schema`
--   Lazy.Units   `UnitsReader`
--   Lazy.Table   `rows_to_dataframe_filled`: the named columns that it hands to Polars; the conversions
--                between numbers are the record `Casts`
--   Lazy.Table.Texts  polars-logfmt/src/stream.rs: `rows_to_dataframe`
--   Ssh          `parse_ssh_source` of polars-logfmt/src/ssh.rs; the URLs of the url crate are the record `Urls`
--   TimeFilter   polars-logfmt/src/time_filter.rs; the order of times and the frame are parameters
--   Lazy.Columns `DataFrameMaker` in the mode of the parallel scan: the typed arrays of builders, a column's
--                type and index, and a line's effect on them; a `none` is a panic
--   Lazy.Columns.Finish  `to_df`: the columns of the frame, taken out of the builders
--   Plugin       logfmt-scan/src/lib.rs: the scan source of a plugin
--
-- Not modelled: the Polars frames themselves, the SSH connection, the command line,
-- which calls other libraries; the deprecated scanner; the two modes of `DataFrameMaker` that no scan uses;
-- log output.
pub mod Prelude
pub mod Text
pub mod Maps
pub mod Logfmt
pub mod Filter
pub mod Vfs
pub mod TimeFilter
pub mod Ssh
pub mod Lazy
pub mod Plugin
