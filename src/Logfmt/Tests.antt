-- ===== src/Logfmt/Tests.antt =====
-- Runs of the scanner and of the rows, and the theorems about them at concrete lines.
use polars_logfmt.Prelude.{◌≡◌, refl, List, [], ◌∷◌, none, some, true, false, arith}
use polars_logfmt.Text.{Bytes, codes}
use polars_logfmt.Text.Utf8.{Utf8, is_utf8}
use polars_logfmt.Maps.{get, insert}
use polars_logfmt.Logfmt.Integers.{pos, negsuc, i64_from_str, i64_to_string}
use polars_logfmt.Logfmt.Samples.{line, few_formats, line_row}
use polars_logfmt.Logfmt.Scan.{Pair, handle_parse_logfmt_line_with_schema_base}
use polars_logfmt.Logfmt.Scan.Grammar.{Reads}
use polars_logfmt.Logfmt.Scan.RoundTrip.{
  last, nil, plain, escape, Field, bare, quoted, write, pairs_of, AreFields, handle-write,
  handle-empty_quotes,
}
use polars_logfmt.Logfmt.Scan.Total.{handle-Reads}
use polars_logfmt.Logfmt.Value.{
  ParsedValue, SchemaField, Schema, infer_type, parse_value, is_true_word, is_false_word,
}
use polars_logfmt.Logfmt.Rows.{Row, parse_logfmt_line_with_schema}
use polars_logfmt.Logfmt.Rows.Laws.{HasType, row_value, parse-get, parse-HasType}

abbrev line_pairs : List Pair
line_pairs =
    (codes "level", codes "INFO")
    ∷ (codes "status", codes "200")
    ∷ (codes "msg", codes "a \\\" b")
    ∷ (codes "lost", codes "x")
    ∷ []

handle-line : handle_parse_logfmt_line_with_schema_base line ≡ some line_pairs
unfolding handle_parse_logfmt_line_with_schema_base is_utf8
handle-line = refl

line-Utf8 : Utf8 line
unfolding is_utf8
line-Utf8 = refl

-- A byte that starts no character.
not_text : is_utf8 (0xc0 ∷ 0x80 ∷ []) ≡ false
unfolding is_utf8
not_text = refl

integers :
    (i64_from_str (codes "-9223372036854775808") ≡ some (negsuc 9223372036854775807))
    × (i64_from_str (codes "9223372036854775808") ≡ none)
    × (i64_from_str (codes "+7") ≡ some (pos 7))
    × (i64_from_str (codes "") ≡ none)
    × (i64_to_string (negsuc 41) ≡ codes "-42")
unfolding i64_from_str i64_to_string
integers = (refl, refl, refl, refl, refl)

inferred :
    (infer_type few_formats (codes "42") ≡ ParsedValue.integer (pos 42))
    × (infer_type few_formats (codes "1s") ≡ ParsedValue.duration (record { secs = 1; nanos = 0 }))
    × (infer_type few_formats (codes "Yes") ≡ ParsedValue.boolean true)
    × (infer_type few_formats (codes "hello") ≡ ParsedValue.string (codes "hello"))
unfolding infer_type i64_from_str is_true_word is_false_word
inferred = (refl, refl, refl, refl)

abbrev typed : Schema
typed = (codes "status", SchemaField.integer) ∷ []

abbrev two_fields : List Field
two_fields = bare (codes "k") (codes "v") ∷ quoted (codes "m") (codes "a\\\"") ∷ []

two_fields-AreFields : AreFields two_fields
two_fields-AreFields = (
  (last refl, last refl, omega arith),
  ((last refl, plain (omega arith) (omega arith) (escape nil), ground arith), tt),
)

write-Utf8 : Utf8 (write two_fields)
unfolding is_utf8
write-Utf8 = refl

handle-write_example :
    handle_parse_logfmt_line_with_schema_base (codes "k=v m=\"a\\\"\" ")
    ≡ some (pairs_of two_fields)
handle-write_example = handle-write two_fields two_fields-AreFields write-Utf8

handle-Reads_example :
    (calls : List Pair) × (handle_parse_logfmt_line_with_schema_base line ≡ some calls)
    × Reads line calls
handle-Reads_example = handle-Reads line line-Utf8

empty-Utf8 : Utf8 (codes "k=\"\"")
unfolding is_utf8
empty-Utf8 = refl

handle-empty_quotes_example :
    handle_parse_logfmt_line_with_schema_base (codes "k=\"\"") ≡ some ((codes "k", codes "\"") ∷ [])
handle-empty_quotes_example = handle-empty_quotes (codes "k") (last refl) empty-Utf8

parse-get_example :
    (calls : List Pair) × (row : Row few_formats) × Reads line calls
    × (parse_logfmt_line_with_schema few_formats line (some typed) ≡ some row)
    × ((k : Bytes) → get k row ≡ row_value few_formats (some typed) k calls)
parse-get_example = parse-get few_formats line (some typed) line-Utf8

parse-line : parse_logfmt_line_with_schema few_formats line (some typed) ≡ some line_row
unfolding parse_logfmt_line_with_schema handle_parse_logfmt_line_with_schema_base is_utf8 get
    parse_value i64_from_str insert
parse-line = refl

status-typed : get (codes "status") typed ≡ some SchemaField.integer
unfolding get
status-typed = refl

status-found : get (codes "status") line_row ≡ some (ParsedValue.integer (pos 200))
unfolding get
status-found = refl

parse-HasType_example : HasType few_formats SchemaField.integer (ParsedValue.integer (pos 200))
parse-HasType_example =
    parse-HasType few_formats line typed line_row (codes "status") SchemaField.integer
      (ParsedValue.integer (pos 200)) line-Utf8 parse-line status-typed status-found
