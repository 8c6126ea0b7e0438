-- ===== src/Lazy/Tests.antt =====
-- Runs of the probe and of the frames, and the theorems about them at concrete sources.
use polars_logfmt.Prelude.{
  ℕ, ◌≤◌, ◌≡◌, refl, List, [], ◌∷◌, ◌++◌, none, some, true, false, length, take, drop, arith,
}
use polars_logfmt.Text.{Bytes, codes}
use polars_logfmt.Text.Utf8.{is_utf8}
use polars_logfmt.Text.Search.{trim}
use polars_logfmt.Maps.{get, insert}
use polars_logfmt.Vfs.{SeekableVfsFile, local_file}
use polars_logfmt.Vfs.Contract.{Holds, local_file-Holds}
use polars_logfmt.Logfmt.Samples.{few_formats}
use polars_logfmt.Logfmt.Integers.{pos, i64_from_str}
use polars_logfmt.Logfmt.Value.{
  ParsedValue, Schema, SchemaField, parse_value, is_true_word, is_false_word,
}
use polars_logfmt.Logfmt.Scan.{handle_parse_logfmt_line_with_schema_base}
use polars_logfmt.Logfmt.Rows.{parse_logfmt_line}
use polars_logfmt.Lazy.Lines.{LineReader, text_of}
use polars_logfmt.Lazy.Infer.{
  Probe, merge_schema, infer_schema_from_row, merge_schema_field, infer_schema_from_reader,
}
use polars_logfmt.Lazy.Infer.Types.{infer_schema_from_row-Distinct, merge_schema-semilattice}
use polars_logfmt.Lazy.Infer.Replay.{infer_schema_from_reader-replay}
use polars_logfmt.Lazy.Frames.{FrameRange, frames_from_seekable_without_seekable_zst}
use polars_logfmt.Lazy.Frames.Tiling.{Tiles, frames_from_seekable-Tiles}
use polars_logfmt.Lazy.Frames.LineEnds.{AllEndWell, frames_from_seekable-AllEndWell}
use polars_logfmt.Lazy.Frames.Read.{FrameRead, read_frame}
use polars_logfmt.Lazy.Frames.Read.Whole.{read_frame-whole}
use polars_logfmt.Lazy.Workers.{worker_slices, concat}
use polars_logfmt.Lazy.Workers.Slices.{worker_slices-concat}
use polars_logfmt.Lazy.Workers.Source.{frames_bytes, parallel_read-contents}

-- The schemas of three rows: a key may be missing.
abbrev schema_of_integer : Schema
schema_of_integer =
    infer_schema_from_row few_formats ((codes "a", ParsedValue.integer (pos 1)) ∷ [])

abbrev schema_of_boolean : Schema
schema_of_boolean =
    infer_schema_from_row few_formats
      ((codes "b", ParsedValue.boolean true) ∷ (codes "a", ParsedValue.boolean false) ∷ [])

abbrev schema_of_text : Schema
schema_of_text =
    infer_schema_from_row few_formats ((codes "a", ParsedValue.string (codes "x")) ∷ [])

merge_schema-semilattice_example :
    (get (codes "a") (merge_schema schema_of_text schema_of_text) ≡ get (codes "a") schema_of_text)
    × (get (codes "a") (merge_schema schema_of_text schema_of_integer)
        ≡ get (codes "a") (merge_schema schema_of_integer schema_of_text))
    × (get
          (codes "a")
          (merge_schema (merge_schema schema_of_text schema_of_integer) schema_of_boolean)
        ≡ get
            (codes "a")
            (merge_schema schema_of_text (merge_schema schema_of_integer schema_of_boolean)))
    × (get (codes "a") schema_of_text ≡ some SchemaField.string
        → get (codes "a") (merge_schema schema_of_text schema_of_integer) ≡ some SchemaField.string)
merge_schema-semilattice_example =
    merge_schema-semilattice schema_of_text schema_of_integer schema_of_boolean (codes "a")
      (infer_schema_from_row-Distinct few_formats
        ((codes "a", ParsedValue.string (codes "x")) ∷ []))
      (infer_schema_from_row-Distinct few_formats ((codes "a", ParsedValue.integer (pos 1)) ∷ []))
      (infer_schema_from_row-Distinct few_formats
        ((codes "b", ParsedValue.boolean true) ∷ (codes "a", ParsedValue.boolean false) ∷ []))

-- Two rows with a blank line between them, and a third that a probe of two rows does not read.
abbrev three_lines : LineReader
three_lines =
    (codes "a=1" ++ b'\n' ∷ []) ∷ (b'\n' ∷ []) ∷ (codes "a=x" ++ b'\n' ∷ []) ∷ codes "a=2" ∷ []

abbrev probed : Probe few_formats
probed = record {
  schema = some ((codes "a", SchemaField.string) ∷ []);
  rows = 2;
  consumed = text_of (take 3 three_lines);
}

infer-three_lines :
    infer_schema_from_reader few_formats none 2 three_lines ≡ some (probed, codes "a=2" ∷ [])
unfolding infer_schema_from_reader is_utf8 trim parse_logfmt_line
    handle_parse_logfmt_line_with_schema_base merge_schema infer_schema_from_row insert get
    merge_schema_field parse_value i64_from_str is_true_word is_false_word
infer-three_lines = refl

infer_schema_from_reader-replay_example :
    (probed.consumed ++ codes "a=2" ≡ text_of three_lines) × (probed.rows ≤ 2)
infer_schema_from_reader-replay_example =
    infer_schema_from_reader-replay few_formats none 2 three_lines probed (codes "a=2" ∷ [])
      infer-three_lines

-- A small file whose reads give two bytes at most.
abbrev text : Bytes
text = codes "a=1" ++ b'\n' ∷ codes "b=2"

abbrev slow_file : SeekableVfsFile ℕ
slow_file = local_file text (λ pos n. 2)

slow_file-Holds : Holds slow_file text
slow_file-Holds = local_file-Holds text (λ pos n. 2) (λ pos n some_bytes. omega arith)

slow_file-size : slow_file.size 0 ≡ (0, some (length text))
unfolding local_file
slow_file-size = refl

abbrev whole_range : FrameRange
whole_range = record { idx = 0; start = 0; len = 7; is_zst = false; comp_start = 0; comp_len = 0 }

abbrev middle_range : FrameRange
middle_range = record { idx = 0; start = 1; len = 5; is_zst = false; comp_start = 0; comp_len = 0 }

slow_file-frames :
    (frames_from_seekable_without_seekable_zst slow_file 0).1 ≡ some (whole_range ∷ [])
unfolding frames_from_seekable_without_seekable_zst local_file
slow_file-frames = refl

read_frame-whole_example :
    (read_frame slow_file middle_range 0).1 ≡ FrameRead.found 5 (take 5 (drop 1 text))
read_frame-whole_example =
    read_frame-whole slow_file text slow_file-Holds middle_range 0 (omega arith) (omega arith)

frames_from_seekable-Tiles_example :
    (frames : List FrameRange) × ((frames_from_seekable_without_seekable_zst slow_file 0).1
      ≡ some frames)
    × Tiles (length text) 0 0 frames
frames_from_seekable-Tiles_example =
    frames_from_seekable-Tiles slow_file 0 0 (length text) slow_file-size (omega arith)
      (omega arith)

frames_from_seekable-AllEndWell_example :
    AllEndWell slow_file text slow_file-Holds (whole_range ∷ [])
frames_from_seekable-AllEndWell_example =
    frames_from_seekable-AllEndWell slow_file text slow_file-Holds 0 0 (whole_range ∷ [])
      slow_file-size (omega arith) slow_file-frames

worker_slices-concat_example :
    (slices : List (List ℕ)) × (worker_slices 2 (10 ∷ 11 ∷ 12 ∷ []) ≡ some slices)
    × (concat slices ≡ 10 ∷ 11 ∷ 12 ∷ [])
    × (length slices ≤ 8)
worker_slices-concat_example =
    worker_slices-concat 2 (10 ∷ 11 ∷ 12 ∷ []) (omega arith) (omega arith)

slices_of_three :
    worker_slices {A = ℕ} 2 (10 ∷ 11 ∷ 12 ∷ []) ≡ some ((10 ∷ 11 ∷ []) ∷ (12 ∷ []) ∷ [])
unfolding worker_slices
slices_of_three = refl

parallel_read-contents_example :
    (frames : List FrameRange) × (slices : List (List FrameRange))
    × ((frames_from_seekable_without_seekable_zst slow_file 0).1 ≡ some frames)
    × (worker_slices 4 frames ≡ some slices)
    × (frames_bytes slow_file (λ idx. 5) (concat slices) ≡ text)
parallel_read-contents_example =
    parallel_read-contents slow_file text slow_file-Holds 0 0 (λ idx. 5) 4 slow_file-size
      (omega arith) (omega arith) (omega arith)
