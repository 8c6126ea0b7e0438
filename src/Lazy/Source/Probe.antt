-- ===== src/Lazy/Source/Probe.antt =====
-- What a probe leaves of the stream of a command.
use polars_logfmt.Prelude.{ℕ, ◌++◌, ◌≡◌, refl, sym, ap, ◌∙◌, Option, none, some}
use polars_logfmt.Text.{Bytes}
use polars_logfmt.Logfmt.Formats.{Formats}
use polars_logfmt.Logfmt.Scan.{◌>>=◌}
use polars_logfmt.Logfmt.Value.{Schema}
use polars_logfmt.Lazy.Lines.{LineReader, LineFilter, split_lines, text_of, text_of-split_lines}
use polars_logfmt.Lazy.Infer.{infer_schema_from_reader}
use polars_logfmt.Lazy.Infer.Replay.{infer_schema_from_reader-replay}
use polars_logfmt.Lazy.Columns.Finish.Grow.{>>=-eq-some}
use polars_logfmt.Lazy.Source.{
  LogFmtSource, Readers, text_of_source, open_source, probe_of, infer_schema_from_source,
}

module _ {S : Type 0} (readers : Readers S) (cmd : Option Bytes) where
  -- The stream that a probe keeps open: that of a command.
  abbrev pub kept_open : LogFmtSource S → Option LineReader
  kept_open (LogFmtSource.ssh source) = open_source readers cmd (LogFmtSource.ssh source)
  kept_open (LogFmtSource.cursor bytes) = none
  kept_open (LogFmtSource.seekable file) = none
  kept_open (LogFmtSource.units source) = none

  probe_of-kept :
      (fmt : Formats) (source : LogFmtSource S) (text consumed : Bytes) (rest : LineReader)
      → text_of_source readers cmd source ≡ some text
      → consumed ++ text_of rest ≡ text
      → probe_of readers fmt source consumed rest ≡ kept_open source
  unfolding open_source
  probe_of-kept fmt (LogFmtSource.ssh source) text consumed rest is_text whole =
      ap (λ t. some (split_lines t)) whole ∙ ap (λ o. o >>= λ t. some (split_lines t)) (sym is_text)
  probe_of-kept fmt (LogFmtSource.cursor bytes) text consumed rest is_text whole = refl
  probe_of-kept fmt (LogFmtSource.seekable file) text consumed rest is_text whole = refl
  probe_of-kept fmt (LogFmtSource.units source) text consumed rest is_text whole = refl

  -- The stream of a command is at its first byte again, and is the only one that is kept.
  pub infer_schema_from_source-probe :
      (fmt : Formats) (source : LogFmtSource S) (line_filter : LineFilter) (n : ℕ)
      (schema : Option Schema) (probe : Option LineReader)
      → infer_schema_from_source readers fmt source cmd line_filter n ≡ some (schema, probe)
      → probe ≡ kept_open source
  unfolding infer_schema_from_source open_source
  infer_schema_from_source-probe fmt source line_filter n schema probe inferred =
      let (reader, opened, inferred') = >>=-eq-some (open_source readers cmd source) _ _ inferred in
      let (text, is_text, split) = >>=-eq-some (text_of_source readers cmd source) _ _ opened in
      let ((q, rest), read, returned) =
        >>=-eq-some (infer_schema_from_reader fmt line_filter n reader) _ _ inferred' in
      let (whole, few) = infer_schema_from_reader-replay fmt line_filter n reader q rest read in
      let is_split : split_lines text ≡ reader = cc (split) in
      let same : probe_of readers fmt source q.consumed rest ≡ probe = cc (returned) in
      sym same
      ∙ probe_of-kept fmt source text q.consumed rest is_text
          (whole ∙ ap text_of (sym is_split) ∙ text_of-split_lines text)
