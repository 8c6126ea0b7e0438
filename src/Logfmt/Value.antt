-- ===== src/Logfmt/Value.antt =====
-- `ParsedValue`, `SchemaField` and the reading of one value, of polars-logfmt/src/logfmt.rs.
use polars_logfmt.Prelude.{
  ◌+◌, Bool, true, false, ◌&&◌, ◌||◌, [], ◌∷◌, Option, none, some, leb, if◌then◌else◌,
}
use polars_logfmt.Text.{Bytes, bytes_eq, codes}
use polars_logfmt.Maps.{Map, get}
use polars_logfmt.Logfmt.Formats.{Formats, Duration}
use polars_logfmt.Logfmt.Integers.{ℤ, pos, i64_from_str, i64_to_string}

pub data ParsedValue (fmt : Formats) : Type 0 where
  string : Bytes → ParsedValue fmt
  integer : ℤ → ParsedValue fmt
  float : fmt.F64 → ParsedValue fmt
  boolean : Bool → ParsedValue fmt
  date_time : fmt.DateTime → ParsedValue fmt
  duration : Duration → ParsedValue fmt

pub data SchemaField : Type 0 where
  string integer float boolean date_time duration auto : SchemaField

abbrev pub Schema : Type 0
Schema = Map SchemaField

-- `str::to_lowercase`, as far as a comparison with an ASCII word can tell: no character outside
-- ASCII has a lower case that holds a letter of the words below.
abbrev to_lowercase : Bytes → Bytes
to_lowercase [] = []
to_lowercase (b ∷ bs) = (if leb b'A' b && leb b b'Z' then b + 32 else b) ∷ to_lowercase bs

abbrev is_one_of : Bytes → Bytes → Bytes → Bytes → Bool
is_one_of x y z value =
    bytes_eq (to_lowercase value) x
    || bytes_eq (to_lowercase value) y
    || bytes_eq (to_lowercase value) z

-- `"true" | "yes" | "on"`
unfoldable pub is_true_word : Bytes → Bool
is_true_word = is_one_of (codes "true") (codes "yes") (codes "on")

-- `"false" | "no" | "off"`
unfoldable pub is_false_word : Bytes → Bool
is_false_word = is_one_of (codes "false") (codes "no") (codes "off")

abbrev pub unwrap_or {ℓ} : {A : Type ℓ} → A → Option A → A
unwrap_or a none = a
unwrap_or a (some b) = b

module _ (fmt : Formats) where
  open fmt use {
    DateTime, parse_from_rfc3339, to_rfc3339, F64, f64_from_str, f64_to_string, f64_zero,
    parse_duration, format_duration,
  }

  unfoldable pub as_string : ParsedValue fmt → Bytes
  as_string (string s) = s
  as_string (integer i) = i64_to_string i
  as_string (float f) = f64_to_string f
  as_string (boolean b) = if b then codes "true" else codes "false"
  as_string (date_time dt) = to_rfc3339 dt
  as_string (duration d) = format_duration d

  -- The texts that are not a time, a number or a duration.
  abbrev infer_word : Bytes → ParsedValue fmt
  infer_word value =
      if is_true_word value
      then boolean true
      else if is_false_word value
      then boolean false
      else string value

  abbrev or_else {ℓ} :
      {A : Type ℓ} → Option A → (A → ParsedValue fmt) → ParsedValue fmt → ParsedValue fmt
  or_else none f d = d
  or_else (some a) f d = f a

  unfoldable pub infer_type : Bytes → ParsedValue fmt
  infer_type value = or_else (parse_from_rfc3339 value) date_time (
      or_else (i64_from_str value) integer (
        or_else (parse_duration value) duration
          (or_else (f64_from_str value) float (infer_word value))))

  -- A value under the type that a schema gives its key.
  unfoldable pub parse_as : Option SchemaField → Bytes → ParsedValue fmt
  parse_as none value = string value
  parse_as (some SchemaField.string) value = string value
  parse_as (some SchemaField.integer) value = integer (unwrap_or (pos 0) (i64_from_str value))
  parse_as (some SchemaField.float) value = float (unwrap_or f64_zero (f64_from_str value))
  parse_as (some SchemaField.boolean) value = boolean (is_true_word value)
  parse_as (some SchemaField.duration) value =
      or_else (parse_duration value) duration (string value)
  parse_as (some SchemaField.date_time) value =
      or_else (parse_from_rfc3339 value) date_time (string value)
  parse_as (some SchemaField.auto) value = string value

  -- What the closure of `handle_parse_logfmt_line_with_schema` makes of a key and its value.
  unfoldable pub parse_value : Option Schema → Bytes → Bytes → ParsedValue fmt
  unfolding parse_as infer_type
  parse_value none key value = infer_type value
  parse_value (some schema) key value = parse_as (get key schema) value
