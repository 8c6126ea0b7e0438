-- ===== src/Lazy/Builder/Opening.antt =====
-- How a scan stands when it is opened.
use polars_logfmt.Prelude.{
  true, false, ◌≡◌, Bool-cases, inl, inr, refl, sym, ap, ◌∙◌, List, Option, none, some, arith,
}
use polars_logfmt.Text.{Bytes, codes}
use polars_logfmt.Text.Search.{starts_with}
use polars_logfmt.Logfmt.Formats.{Formats}
use polars_logfmt.Logfmt.Scan.{◌>>=◌}
use polars_logfmt.Logfmt.Value.{Schema, unwrap_or}
use polars_logfmt.Lazy.Lines.{LineReader}
use polars_logfmt.Lazy.Columns.{DataType}
use polars_logfmt.Lazy.Columns.Finish.Grow.{>>=-eq-some}
use polars_logfmt.Lazy.Dtypes.{logfmt_schema_to_polars_schema}
use polars_logfmt.Lazy.Source.{LogFmtSource, Readers, infer_schema_from_source}
use polars_logfmt.Lazy.Source.Probe.{kept_open, infer_schema_from_source-probe}
use polars_logfmt.Ssh.{SshSource, SshResult, Urls, parse_ssh_source}
use polars_logfmt.Lazy.Builder.{
  LazyLogFmtReader, LazyLogFmtReaderBuilder, SourceSpec, with_cmd, with_source, with_probe, knowing,
  declared, scan_reader, build_reader, default_infer_schema_length,
}
use polars_logfmt.Lazy.Builder.Entry.{
  LogfmtScanOpts, filter_of, configured, commanded, sourced, scan_logfmt,
}

module _ (fmt : Formats) (S : Type 0) (readers : Readers S) (open_vfs : Bytes → Option S) where
  -- The reader that is scanned under the schema `s`: without a schema of its own it keeps the stream of a
  -- command.
  abbrev pub opened_with : LazyLogFmtReader fmt S → Option Schema → Schema → LazyLogFmtReader fmt S
  opened_with r (some own) s = r
  opened_with r none s = record r {
    schema = some s;
    reader_state = record r.reader_state { reader = kept_open readers r.cmd r.source };
  }

  with_probe-opened :
      (r r' : LazyLogFmtReader fmt S) (found : Option Schema × Option LineReader)
      → found.1 ≡ kept_open readers r.cmd r.source
      → with_probe fmt S readers open_vfs r found ≡ some r'
      → (s : Schema) × (r'.schema ≡ some s) × (r' ≡ opened_with r none s)
  with_probe-opened r r' (none, probe) kept left = cc
  with_probe-opened r r' (some s, probe) kept left =
      let same : record r {
        schema = some s;
        reader_state = record r.reader_state { reader = probe };
      }
          ≡ r' =
        cc (left) in
      (
        s,
        ap (λ (x : LazyLogFmtReader fmt S). x.schema) (sym same),
        sym same
            ∙ ap
                (λ stream. record r {
                  schema = some s;
                  reader_state = record r.reader_state { reader = stream };
                })
                kept,
      )

  knowing-opened :
      (r r' : LazyLogFmtReader fmt S) (own : Option Schema)
      → r.schema ≡ own
      → knowing fmt S readers open_vfs r own ≡ some r'
      → (s : Schema) × (r'.schema ≡ some s) × (r' ≡ opened_with r own s)
  knowing-opened r r' (some own) is_own known =
      let same : r ≡ r' = cc (known) in
      (own, ap (λ (x : LazyLogFmtReader fmt S). x.schema) (sym same) ∙ is_own, sym same)
  knowing-opened r r' none is_own known =
      let ((schema, probe), inferred, left) =
        >>=-eq-some
          (infer_schema_from_source readers fmt r.source r.cmd r.line_filter r.infer_schema_length)
          _ _ known in
      with_probe-opened r r' (schema, probe)
        (infer_schema_from_source-probe readers r.cmd fmt r.source r.line_filter
          r.infer_schema_length schema probe inferred)
        left

  scan_reader-opened :
      (r r' : LazyLogFmtReader fmt S) (columns : Option (List (Bytes × DataType)))
      → scan_reader fmt S readers open_vfs r ≡ some (r', columns)
      → (s : Schema) × (r'.schema ≡ some s)
        × (columns ≡ some (logfmt_schema_to_polars_schema s))
        × (r' ≡ opened_with r r.schema s)
  unfolding scan_reader
  scan_reader-opened r r' columns opened =
      let (r1, known, returned) =
        >>=-eq-some (knowing fmt S readers open_vfs r r.schema) _ _ opened in
      let (s, has, stands) = knowing-opened r r1 r.schema refl known in
      let same : r1 ≡ r' = cc (returned) in
      let is_declared : declared fmt S readers open_vfs r1.schema ≡ columns = cc (returned) in
      (
        s,
        ap (λ (x : LazyLogFmtReader fmt S). x.schema) (sym same) ∙ has,
        sym is_declared ∙ ap (declared fmt S readers open_vfs) has,
        sym same ∙ stands,
      )

  module _ (urls : Urls) where
    -- Where the lines come from: a file that is opened, or the host of a command.
    abbrev pub FromSource : Bytes → Option Bytes → LogFmtSource S → Type 0
    FromSource source none src =
        (file : S) × (open_vfs source ≡ some file) × (src ≡ LogFmtSource.seekable (some file))
    FromSource source (some cmd) src =
        (starts_with source (codes "ssh://") ≡ true)
        × ((host : SshSource) × (parse_ssh_source urls source ≡ SshResult.ok host)
            × (src ≡ LogFmtSource.ssh host))

    -- The reader that the options ask for.
    abbrev pub configured_reader :
        LogfmtScanOpts → Option Bytes → LogFmtSource S → LazyLogFmtReader fmt S
    configured_reader opts cmd src = record {
      source = src;
      cmd = cmd;
      batch_size = opts.batch_size;
      row_filter = none;
      line_filter = some (filter_of fmt S readers open_vfs urls opts.line_filter);
      schema = opts.schema;
      aligned_cols_cnt = opts.aligned_cols_cnt;
      reader_state = record { reader = none; offset = 0; finished = false };
      n_threads = opts.n_threads;
      use_parallel = true;
      infer_schema_length = unwrap_or default_infer_schema_length opts.infer_schema_length;
    }

    commanded-built :
        (source cmd : Bytes) (opts : LogfmtScanOpts) (result : SshResult)
        (b : LazyLogFmtReaderBuilder fmt S) (r : LazyLogFmtReader fmt S)
        → commanded fmt S readers open_vfs urls cmd result
            (configured fmt S readers open_vfs urls opts)
          ≡ some b
        → build_reader fmt S readers open_vfs b ≡ some r
        → (host : SshSource) × (result ≡ SshResult.ok host)
          × (r ≡ configured_reader opts (some cmd) (LogFmtSource.ssh host))
    unfolding build_reader
    commanded-built source cmd opts (SshResult.ok host) b r is_commanded built =
        let same : with_cmd fmt S (some cmd) (
              with_source fmt S (some (SourceSpec.ssh host))
                (configured fmt S readers open_vfs urls opts))
            ≡ b =
          cc (is_commanded) in
        let both : some (configured_reader opts (some cmd) (LogFmtSource.ssh host)) ≡ some r =
          ap (build_reader fmt S readers open_vfs) same ∙ built in
        (host, refl, cc (both))
    commanded-built source cmd opts SshResult.invalid_url b r is_commanded built = cc
    commanded-built source cmd opts SshResult.scheme_must_be_ssh b r is_commanded built = cc
    commanded-built source cmd opts SshResult.must_include_user b r is_commanded built = cc
    commanded-built source cmd opts SshResult.must_include_host b r is_commanded built = cc
    commanded-built source cmd opts SshResult.must_include_path b r is_commanded built = cc

    sourced-built :
        (source : Bytes) (cmd : Option Bytes) (opts : LogfmtScanOpts)
        (b : LazyLogFmtReaderBuilder fmt S) (r : LazyLogFmtReader fmt S)
        → sourced fmt S readers open_vfs urls source cmd
            (configured fmt S readers open_vfs urls opts)
          ≡ some b
        → build_reader fmt S readers open_vfs b ≡ some r
        → (src : LogFmtSource S) × FromSource source cmd src × (r ≡ configured_reader opts cmd src)
    unfolding build_reader
    sourced-built source none opts b r is_sourced built =
        let same : with_source fmt S (some (SourceSpec.path source))
              (configured fmt S readers open_vfs urls opts)
            ≡ b =
          cc (is_sourced) in
        let (src, is_open, made) =
          >>=-eq-some (open_vfs source >>= λ file. some (LogFmtSource.seekable (some file)))
            (λ src. some (configured_reader opts none src)) r
            (ap (build_reader fmt S readers open_vfs) same ∙ built) in
        let (file, found, wrapped) = >>=-eq-some (open_vfs source) _ src is_open in
        (src, (file, found, cc (wrapped)), cc (made))
    sourced-built source (some cmd) opts b r is_sourced built =
        elim (Bool-cases (starts_with source (codes "ssh://"))) [
          | inl is_ssh ↦
              let (host, parsed, made) =
                commanded-built source cmd opts (parse_ssh_source urls source) b r
                  (ground (arith, is_sourced, is_ssh)) built in
              (LogFmtSource.ssh host, (is_ssh, (host, parsed, refl)), made)
          | inr is_path ↦ absurd (ground (arith, is_sourced, is_path))
        ]

    -- A scan that is opened reads the file that its source names, or the output of the command on the host that
    -- its source names, which must be an ssh:// URL; it has the settings of the options. It knows a schema,
    -- which is the one that it declares: that of the options, and then nothing is read yet; or, if they
    -- have none, an inferred one, and then its state has the stream of the command from the first byte
    -- on, or no stream where there is no command.
    pub scan_logfmt-opened :
        (source : Bytes) (opts : LogfmtScanOpts) (r : LazyLogFmtReader fmt S)
        (columns : Option (List (Bytes × DataType)))
        → scan_logfmt fmt S readers open_vfs urls source opts ≡ some (r, columns)
        → (src : LogFmtSource S) × (s : Schema) × FromSource source opts.cmd src
          × (r ≡ opened_with (configured_reader opts opts.cmd src) opts.schema s)
          × (r.schema ≡ some s)
          × (columns ≡ some (logfmt_schema_to_polars_schema s))
    unfolding scan_logfmt
    scan_logfmt-opened source opts r columns opened =
        let (b, is_sourced, opened') =
          >>=-eq-some
            (sourced fmt S readers open_vfs urls source opts.cmd
              (configured fmt S readers open_vfs urls opts))
            _ _ opened in
        let (r0, built, scanned) =
          >>=-eq-some (build_reader fmt S readers open_vfs b) _ _ opened' in
        let (src, from, is_configured) = sourced-built source opts.cmd opts b r0 is_sourced built in
        let (s, has, is_declared, stands) = scan_reader-opened r0 r columns scanned in
        (
          src,
          s,
          from,
          stands ∙ ap (λ (x : LazyLogFmtReader fmt S). opened_with x x.schema s) is_configured,
          has,
          is_declared,
        )
