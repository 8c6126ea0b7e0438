-- ===== src/Logfmt/Scan.antt =====
-- The byte scanner `handle_parse_logfmt_line_with_schema_base` of polars-logfmt/src/logfmt.rs: an
-- index over the bytes of a line, which calls back with each key and its value. The calls are the
-- list of pairs that the model returns. `none` is a fault: an index or a slice out of bounds, or
-- `from_utf8_unchecked` on bytes that are not UTF-8.
pub mod Grammar
mod Cursor
pub mod Refine
pub mod Total
pub mod RoundTrip
use polars_logfmt.Prelude.{
  ℕ, zero, suc, ◌+◌, min, Bool, true, false, not, ◌&&◌, List, [], ◌∷◌, Option, none, some, ◌==◌,
  ltb, if◌then◌else◌, length, drop, get_elem?,
}
use polars_logfmt.Text.{Bytes, is_ascii_whitespace, not_whitespace, slice}
use polars_logfmt.Text.Utf8.{is_utf8}

abbrev pub Pair : Type 0
Pair = Bytes × Bytes

infixl 5 ◌>>=◌
abbrev pub ◌>>=◌ {ℓ κ} : {A : Type ℓ} {B : Type κ} → Option A → (A → Option B) → Option B
none >>= f = none
some a >>= f = f a

abbrev pub key_byte : ℕ → Bool
key_byte b = not (b == b'=') && not_whitespace b

-- `while i < n && p(bytes[i]) { i += 1 }`, over the bytes from `i` on.
pub advance_over : (ℕ → Bool) → Bytes → ℕ → ℕ
advance_over p [] i = i
advance_over p (b ∷ bs) i = elim (p b) [ true ↦ advance_over p bs (i + 1) | false ↦ i ]

pub advance : (ℕ → Bool) → Bytes → ℕ → ℕ
advance p bytes i = advance_over p (drop i bytes) i

-- The loop to the closing quote, over the bytes from `i` on: `i` and `val_end` when it ends. A line
-- is shorter than `usize::MAX - 2`, so `saturating_add` is `+`.
pub quote_loop : Bytes → ℕ → ℕ → ℕ × ℕ
quote_loop [] i val_end = (i, val_end)
quote_loop (b ∷ []) i val_end =
    if b == b'\\' then (i + 2, val_end) else if b == b'"' then (i + 1, i) else (i + 1, val_end)
quote_loop (b ∷ c ∷ bs) i val_end = elim (b == b'\\') [
  | true ↦ quote_loop bs (i + 2) val_end
  | false ↦ elim (b == b'"') [ true ↦ (i + 1, i) | false ↦ quote_loop (c ∷ bs) (i + 1) val_end ]
]

-- `std::str::from_utf8_unchecked`
abbrev pub from_utf8_unchecked : Bytes → Option Bytes
from_utf8_unchecked bs = if is_utf8 bs then some bs else none

-- What one turn of the outer loop does: `break`, or go on at an index after at most one call.
pub data Turn : Type 0 where
  stop : Turn
  next : ℕ → Option Pair → Turn

pub quoted_value : Bytes → Bytes → ℕ → Option Turn
quoted_value bytes key val_start =
    let (i, found) = quote_loop (drop val_start bytes) val_start val_start in
    let val_end = if found == val_start then min i (length bytes) else found in
    slice bytes val_start val_end >>= λ raw.
    from_utf8_unchecked raw >>= λ value. some (next i (some (key, value)))

pub unquoted_value : Bytes → Bytes → ℕ → Option Turn
unquoted_value bytes key val_start =
    let val_end = advance not_whitespace bytes val_start in
    slice bytes val_start val_end >>= λ raw.
    from_utf8_unchecked raw >>= λ value. some (next val_end (some (key, value)))

-- From behind the `=`.
pub value_at : Bytes → Bytes → ℕ → Option Turn
value_at bytes key i = elim (get_elem? bytes i) [
  | none ↦ some (next i none)
  | some b ↦ if b == b'"' then quoted_value bytes key (i + 1) else unquoted_value bytes key i
]

pub skip_token : Bytes → ℕ → Option Turn
skip_token bytes i = some (next (advance not_whitespace bytes i) none)

-- From behind a key that is not empty.
pub equals_at : Bytes → Bytes → ℕ → Option Turn
equals_at bytes key key_end =
    let i = advance is_ascii_whitespace bytes key_end in
    elim (get_elem? bytes i) [
      | none ↦ skip_token bytes i
      | some b ↦ if b == b'=' then value_at bytes key (i + 1) else skip_token bytes i
    ]

pub key_at : Bytes → ℕ → Option Turn
key_at bytes key_start =
    let key_end = advance key_byte bytes key_start in
    if key_end == key_start
    then skip_token bytes key_end
    else slice bytes key_start key_end >>= λ key.
        if is_utf8 key then equals_at bytes key key_end else skip_token bytes key_end

pub turn : Bytes → ℕ → Option Turn
turn bytes i0 =
    let i = advance is_ascii_whitespace bytes i0 in
    if ltb i (length bytes) then key_at bytes i else some stop

abbrev pub emit : Option Pair → List Pair → List Pair
emit none calls = calls
emit (some pair) calls = pair ∷ calls

-- The outer loop. A turn that does not stop ends behind the index where it began, so that
-- `length bytes` turns and one more are enough; `none` also stands for too little fuel.
pub scan_from : ℕ → Bytes → ℕ → Option (List Pair)
scan_from zero bytes i = none
scan_from (suc fuel) bytes i = elim (ltb i (length bytes)) [
  | false ↦ some []
  | true ↦ elim (turn bytes i) [
    | none ↦ none
    | some stop ↦ some []
    | some (next j call) ↦ elim (scan_from fuel bytes j) [
      | none ↦ none
      | some calls ↦ some (emit call calls)
    ]
  ]
]

-- `handle_parse_logfmt_line_with_schema_base`
unfoldable pub handle_parse_logfmt_line_with_schema_base : Bytes → Option (List Pair)
unfolding advance_over advance quote_loop quoted_value unquoted_value value_at skip_token equals_at
    key_at turn scan_from
handle_parse_logfmt_line_with_schema_base line = scan_from (length line + 1) line 0
