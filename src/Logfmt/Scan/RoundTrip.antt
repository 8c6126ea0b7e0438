-- ===== src/Logfmt/Scan/RoundTrip.antt =====
-- Lines written as logfmt, and what the scanner reads back from them.
use polars_logfmt.Prelude.{
  ℕ, Bool, true, false, List, [], ◌∷◌, ◌++◌, ◌≡◌, ◌≢◌, refl, ◌∙◌, some, ◌==◌, arith, take_while,
  drop_while,
}
use mathlib.Core.Path.{ap₂}
use polars_logfmt.Text.{Bytes, not_whitespace}
use polars_logfmt.Text.Utf8.{Utf8}
use polars_logfmt.Logfmt.Scan.{Pair, key_byte, handle_parse_logfmt_line_with_schema_base}
use polars_logfmt.Logfmt.Scan.Grammar.{
  closing_quote, reads, read_after_key, read_token, read_value, read_turn, Reads, done, more,
}
use polars_logfmt.Logfmt.Scan.Total.{handle-eq-Reads}

-- A text between quotes: a backslash takes the byte after it along, and no quote stands free.
pub data Escaped : Bytes → Type 0 where
  nil : Escaped []
  plain : {b : ℕ} {bs : Bytes} → b ≢ b'\\' → b ≢ b'"' → Escaped bs → Escaped (b ∷ bs)
  escape : {b : ℕ} {bs : Bytes} → Escaped bs → Escaped (b'\\' ∷ b ∷ bs)

-- A word of bytes that pass a test.
pub data Word (p : ℕ → Bool) : Bytes → Type 0 where
  last : {b : ℕ} → p b ≡ true → Word p (b ∷ [])
  cons : {b : ℕ} {bs : Bytes} → p b ≡ true → Word p bs → Word p (b ∷ bs)

-- A field of a line. Its value is bare or quoted.
pub data Field : Type 0 where
  bare quoted : Bytes → Bytes → Field

abbrev pub write_field : Field → Bytes → Bytes
write_field (bare key value) rest = key ++ b'=' ∷ (value ++ b' ' ∷ rest)
write_field (quoted key text) rest = key ++ b'=' ∷ b'"' ∷ (text ++ b'"' ∷ b' ' ∷ rest)

-- Each field with a space behind it.
abbrev pub write : List Field → Bytes
write [] = []
write (f ∷ fs) = write_field f (write fs)

abbrev pub pair_of : Field → Pair
pair_of (bare key value) = (key, value)
pair_of (quoted key text) = (key, text)

abbrev pub pairs_of : List Field → List Pair
pairs_of [] = []
pairs_of (f ∷ fs) = pair_of f ∷ pairs_of fs

abbrev StartsBare : Bytes → Type 0
StartsBare [] = Unit {0}
StartsBare (b ∷ _) = b ≢ b'"'

abbrev pub IsField : Field → Type 0
IsField (bare key value) = Word key_byte key × Word not_whitespace value × StartsBare value
IsField (quoted key text) = Word key_byte key × Escaped text × (text ≢ [])

abbrev pub AreFields : List Field → Type 0
AreFields [] = Unit {0}
AreFields (f ∷ fs) = IsField f × AreFields fs

closing_quote-plain :
    (b : ℕ) (r text rest : Bytes)
    → b ≢ b'\\'
    → b ≢ b'"'
    → closing_quote r ≡ some (text, rest)
    → closing_quote (b ∷ r) ≡ some (b ∷ text, rest)
closing_quote-plain b [] text rest p q e = cc
closing_quote-plain b (c ∷ r) text rest p q e = ground arith

closing_quote-Escaped :
    {text : Bytes} (rest : Bytes)
    → Escaped text
    → closing_quote (text ++ b'"' ∷ rest) ≡ some (text, rest)
closing_quote-Escaped [] nil = refl
closing_quote-Escaped (b ∷ rest) nil = refl
closing_quote-Escaped rest (plain {b} {bs} p q t) =
    closing_quote-plain b (bs ++ b'"' ∷ rest) bs rest p q (closing_quote-Escaped rest t)
closing_quote-Escaped rest (escape {b} {bs} t) = rw (closing_quote-Escaped rest t)

module _ (p : ℕ → Bool) (b : ℕ) (rest : Bytes) (stops : p b ≡ false) where
  take_while-Word : {w : Bytes} → Word p w → take_while p (w ++ b ∷ rest) ≡ w
  take_while-Word (last h) = ground arith
  take_while-Word (cons h t) = ground (arith, take_while-Word t)

  drop_while-Word : {w : Bytes} → Word p w → drop_while p (w ++ b ∷ rest) ≡ b ∷ rest
  drop_while-Word (last h) = ground arith
  drop_while-Word (cons h t) = ground (arith, drop_while-Word t)

Word-head :
    {p : ℕ → Bool} {w : Bytes} → Word p w → (b : ℕ) × (bs : Bytes) × (w ≡ b ∷ bs) × (p b ≡ true)
Word-head (last {b} h) = (b, [], refl, h)
Word-head (cons {b} {bs} h t) = (b, bs, refl, h)

read_token-key :
    (b : ℕ) (bs r rest : Bytes)
    → take_while key_byte (b ∷ r) ≡ b ∷ bs
    → drop_while key_byte (b ∷ r) ≡ b'=' ∷ rest
    → key_byte b ≡ true
    → read_turn (b ∷ r) ≡ read_value (b ∷ bs) rest
read_token-key b bs r rest front back h = skip ∙ ap₂ read_after_key front back
  where
    skip : read_turn (b ∷ r) ≡ read_token (b ∷ r)
    skip = ground arith

read_turn-Word :
    (key rest : Bytes) → Word key_byte key → read_turn (key ++ b'=' ∷ rest) ≡ read_value key rest
read_turn-Word key rest w =
    let (b, bs, e, h) = Word-head w in
    let front = take_while-Word key_byte b'=' rest refl w in
    let back = drop_while-Word key_byte b'=' rest refl w in
    rw e (read_token-key b bs (bs ++ b'=' ∷ rest) rest (rw e at front) (rw e at back) h)

read_value-word :
    (key : Bytes) (b : ℕ) (r w rest : Bytes)
    → b ≢ b'"'
    → take_while not_whitespace (b ∷ r) ≡ w
    → drop_while not_whitespace (b ∷ r) ≡ rest
    → read_value key (b ∷ r) ≡ reads rest (some (key, w))
read_value-word key b r w rest ne front back =
    let unquoted : (b == b'"') ≡ false = ground arith in
    rw unquoted (ap₂ (λ s v. reads s (some (key, v))) back front)

read_value-bare :
    (key value rest : Bytes)
    → Word not_whitespace value
    → StartsBare value
    → read_value key (value ++ b' ' ∷ rest) ≡ reads (b' ' ∷ rest) (some (key, value))
read_value-bare key value rest w free =
    let (b, bs, e, h) = Word-head w in
    let front = take_while-Word not_whitespace b' ' rest refl w in
    let back = drop_while-Word not_whitespace b' ' rest refl w in
    rw e (
      read_value-word key b (bs ++ b' ' ∷ rest) (b ∷ bs) (b' ' ∷ rest) (rw e at free)
        (rw e at front) (rw e at back))

read_value-quoted :
    (key text rest : Bytes)
    → Escaped text
    → text ≢ []
    → read_value key (b'"' ∷ (text ++ b'"' ∷ rest)) ≡ reads rest (some (key, text))
read_value-quoted key [] rest t ne = absurd (ne refl)
read_value-quoted key (b ∷ text) rest t ne = rw (closing_quote-Escaped rest t)

read_turn-write_field :
    (f : Field) (rest : Bytes)
    → IsField f
    → read_turn (write_field f rest) ≡ reads (b' ' ∷ rest) (some (pair_of f))
read_turn-write_field (bare key value) rest (k, v, free) =
    read_turn-Word key (value ++ b' ' ∷ rest) k ∙ read_value-bare key value rest v free
read_turn-write_field (quoted key text) rest (k, t, ne) =
    read_turn-Word key (b'"' ∷ (text ++ b'"' ∷ b' ' ∷ rest)) k
    ∙ read_value-quoted key text (b' ' ∷ rest) t ne

Reads-space : {r : Bytes} {calls : List Pair} → Reads r calls → Reads (b' ' ∷ r) calls
Reads-space (done p) = done p
Reads-space (more p t) = more p t

Reads-write : (fs : List Field) → AreFields fs → Reads (write fs) (pairs_of fs)
Reads-write [] h = done refl
Reads-write (f ∷ fs) (h, hs) =
    more (read_turn-write_field f (write fs) h) (Reads-space (Reads-write fs hs))

-- What is written as fields of a line, with a space behind each, is read back as the same keys and
-- values in the same order, if every key is a word with no `=`, every bare value a word that does
-- not start with a quote, and every quoted text is not empty and has its quotes and backslashes
-- escaped (the escapes stay in the value), and the whole is valid UTF-8.
pub handle-write :
    (fs : List Field)
    → AreFields fs
    → Utf8 (write fs)
    → handle_parse_logfmt_line_with_schema_base (write fs) ≡ some (pairs_of fs)
handle-write fs h u = handle-eq-Reads (write fs) (pairs_of fs) u (Reads-write fs h)

-- A key with an empty text between quotes is read with the closing quote for its value, and nothing
-- else is read from the line, if the line is valid UTF-8.
pub handle-empty_quotes :
    (key : Bytes)
    → Word key_byte key
    → Utf8 (key ++ b'=' ∷ b'"' ∷ b'"' ∷ [])
    → handle_parse_logfmt_line_with_schema_base (key ++ b'=' ∷ b'"' ∷ b'"' ∷ [])
      ≡ some ((key, b'"' ∷ []) ∷ [])
handle-empty_quotes key w u =
    handle-eq-Reads (key ++ b'=' ∷ b'"' ∷ b'"' ∷ []) ((key, b'"' ∷ []) ∷ []) u
      (more (read_turn-Word key (b'"' ∷ b'"' ∷ []) w) (done refl))
