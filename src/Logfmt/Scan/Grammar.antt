-- ===== src/Logfmt/Scan/Grammar.antt =====
-- What a logfmt line means, read off its bytes with no index: the specification of the scanner.
use polars_logfmt.Prelude.{
  true, false, List, [], ◌∷◌, ◌++◌, ◌≡◌, Option, none, some, ◌==◌, if◌then◌else◌, take_while,
  drop_while,
}
use polars_logfmt.Text.{Bytes, is_ascii_whitespace, not_whitespace}
use polars_logfmt.Logfmt.Scan.{Pair, key_byte, emit}

-- The text before the quote that closes, and what follows it; `none` if no quote does. A byte behind
-- a backslash closes nothing.
abbrev pub prepend : Bytes → Option Pair → Option Pair
prepend bs none = none
prepend bs (some (text, rest)) = some (bs ++ text, rest)

abbrev pub closing_quote : Bytes → Option Pair
closing_quote [] = none
closing_quote (b ∷ []) = if b == b'\\' then none else if b == b'"' then some ([], []) else none
closing_quote (b ∷ c ∷ bs) = elim (b == b'\\') [
  | true ↦ prepend (b ∷ c ∷ []) (closing_quote bs)
  | false ↦ elim (b == b'"') [
    | true ↦ some ([], c ∷ bs)
    | false ↦ prepend (b ∷ []) (closing_quote (c ∷ bs))
  ]
]

pub data Read : Type 0 where
  finished : Read
  reads : Bytes → Option Pair → Read

-- From behind an opening quote. A text that is never closed runs to the end of the line, and an
-- empty text is read as its closing quote.
abbrev pub read_quoted : Bytes → Option Pair → Bytes → Read
read_quoted key none r = reads [] (some (key, r))
read_quoted key (some ([], rest)) r = reads rest (some (key, b'"' ∷ []))
read_quoted key (some (b ∷ text, rest)) r = reads rest (some (key, b ∷ text))

abbrev pub skip_word : Bytes → Read
skip_word r = reads (drop_while not_whitespace r) none

abbrev pub read_value : Bytes → Bytes → Read
read_value key [] = reads [] none
read_value key (b ∷ bs) =
    if b == b'"'
    then read_quoted key (closing_quote bs) bs
    else reads (drop_while not_whitespace (b ∷ bs)) (some (key, take_while not_whitespace (b ∷ bs)))

abbrev pub read_equals : Bytes → Bytes → Read
read_equals key [] = reads [] none
read_equals key (b ∷ bs) = if b == b'=' then read_value key bs else skip_word (b ∷ bs)

abbrev pub read_after_key : Bytes → Bytes → Read
read_after_key [] r = skip_word r
read_after_key (k ∷ ks) r = read_equals (k ∷ ks) (drop_while is_ascii_whitespace r)

abbrev pub read_token : Bytes → Read
read_token [] = finished
read_token (b ∷ bs) = read_after_key (take_while key_byte (b ∷ bs)) (drop_while key_byte (b ∷ bs))

abbrev pub read_turn : Bytes → Read
read_turn r = read_token (drop_while is_ascii_whitespace r)

-- A line and the pairs that it holds, in order.
pub data Reads : Bytes → List Pair → Type 0 where
  done : {r : Bytes} → read_turn r ≡ finished → Reads r []
  more :
      {r rest : Bytes} {call : Option Pair} {calls : List Pair}
      → read_turn r ≡ reads rest call
      → Reads rest calls
      → Reads r (emit call calls)
