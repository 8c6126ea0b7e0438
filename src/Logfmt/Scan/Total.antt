-- ===== src/Logfmt/Scan/Total.antt =====
-- The scanner stops on every valid line, with no fault, and its calls are the pairs of the grammar.
use polars_logfmt.Prelude.{
  ℕ, zero, suc, ◌+◌, ◌<◌, ◌≤◌, false, List, [], ◌∷◌, ◌≡◌, refl, sym, ◌∙◌, ap, Option, none, some,
  arith, length, drop, take_while, drop_while, drop_while-stops, length-drop_while, length-drop,
}
use polars_logfmt.Text.{Bytes, is_ascii_whitespace, not_whitespace}
use polars_logfmt.Text.Utf8.{Utf8}
use polars_logfmt.Logfmt.Scan.{
  Pair, key_byte, Turn, stop, next, emit, turn, scan_from,
  handle_parse_logfmt_line_with_schema_base,
}
use polars_logfmt.Logfmt.Scan.Grammar.{
  prepend, closing_quote, Read, finished, reads, read_quoted, read_value, read_equals,
  read_after_key, read_token, read_turn, Reads, done, more,
}
use polars_logfmt.Logfmt.Scan.Cursor.{lt_of_drop}
use polars_logfmt.Logfmt.Scan.Refine.{Agrees, turn-Agrees}

abbrev Shorter : ℕ → Read → Type 0
Shorter n finished = Unit {0}
Shorter n (reads rest _) = length rest < n

abbrev ShorterPair : ℕ → Option Pair → Type 0
ShorterPair n none = Unit {0}
ShorterPair n (some (_, rest)) = length rest ≤ n

prepend-ShorterPair :
    (bs : Bytes) (n m : ℕ) (o : Option Pair)
    → n ≤ m
    → ShorterPair n o
    → ShorterPair m (prepend bs o)
prepend-ShorterPair bs n m none le h = tt
prepend-ShorterPair bs n m (some (text, rest)) le h = omega arith

closing_quote-ShorterPair : (r : Bytes) → ShorterPair (length r) (closing_quote r)
closing_quote-ShorterPair [] = tt
closing_quote-ShorterPair (b ∷ []) = ground arith
closing_quote-ShorterPair (b ∷ c ∷ r) = ground (
  arith,
  prepend-ShorterPair (b ∷ c ∷ []) (length r) (length (b ∷ c ∷ r)) (closing_quote r) (omega arith)
      (closing_quote-ShorterPair r),
  prepend-ShorterPair (b ∷ []) (length (c ∷ r)) (length (b ∷ c ∷ r)) (closing_quote (c ∷ r))
      (omega arith) (closing_quote-ShorterPair (c ∷ r)),
)

read_quoted-Shorter :
    (key r : Bytes) (o : Option Pair) (n : ℕ)
    → length r < n
    → ShorterPair (length r) o
    → Shorter n (read_quoted key o r)
read_quoted-Shorter key r none n lt h = omega arith
read_quoted-Shorter key r (some ([], rest)) n lt h = omega arith
read_quoted-Shorter key r (some (b ∷ text, rest)) n lt h = omega arith

read_value-Shorter : (key r : Bytes) (n : ℕ) → length r < n → Shorter n (read_value key r)
read_value-Shorter key [] n lt = lt
read_value-Shorter key (b ∷ r) n lt = ground (
  arith,
  read_quoted-Shorter key r (closing_quote r) n (omega arith) (closing_quote-ShorterPair r),
  length-drop_while not_whitespace (b ∷ r),
)

read_equals-Shorter : (key r : Bytes) (n : ℕ) → length r < n → Shorter n (read_equals key r)
read_equals-Shorter key [] n lt = lt
read_equals-Shorter key (b ∷ r) n lt =
    ground (arith, read_value-Shorter key r n, length-drop_while not_whitespace (b ∷ r))

-- After its white space a turn takes one byte at least.
read_after_key-Shorter :
    (b : ℕ) (r ks rest : Bytes) (n : ℕ)
    → is_ascii_whitespace b ≡ false
    → length (b ∷ r) ≤ n
    → take_while key_byte (b ∷ r) ≡ ks
    → drop_while key_byte (b ∷ r) ≡ rest
    → Shorter n (read_after_key ks rest)
read_after_key-Shorter b r [] rest n word le front back =
    rw (← back) (ground (arith, length-drop_while not_whitespace r))
read_after_key-Shorter b r (k ∷ ks) rest n word le front back =
    read_equals-Shorter (k ∷ ks) (drop_while is_ascii_whitespace rest) n
      (ground (arith, length-drop_while is_ascii_whitespace rest, length-drop_while key_byte r))

read_token-Shorter :
    (r s : Bytes) → drop_while is_ascii_whitespace r ≡ s → Shorter (length r) (read_token s)
read_token-Shorter r [] e = tt
read_token-Shorter r (b ∷ s) e =
    read_after_key-Shorter b s _ _ (length r) (drop_while-stops is_ascii_whitespace r b s e)
      (omega (arith, ap length e, length-drop_while is_ascii_whitespace r)) refl refl

-- What the loop returns from index `i` on, where the rest of the line is `r`.
record Scans (found : Option (List Pair)) (r : Bytes) : Type 0 where
  calls : List Pair
  returns : found ≡ some calls
  reading : Reads r calls

module _ (fuel : ℕ) (bytes : Bytes) (i : ℕ) where
  scan_from-past : length bytes ≤ i → scan_from (suc fuel) bytes i ≡ some []
  unfolding scan_from
  scan_from-past le = ground arith

  scan_from-stop :
      i < length bytes → turn bytes i ≡ some stop → scan_from (suc fuel) bytes i ≡ some []
  unfolding scan_from
  scan_from-stop lt e = ground arith

  scan_from-next :
      (j : ℕ) (call : Option Pair) (calls : List Pair)
      → i < length bytes
      → turn bytes i ≡ some (next j call)
      → scan_from fuel bytes j ≡ some calls
      → scan_from (suc fuel) bytes i ≡ some (emit call calls)
  unfolding scan_from
  scan_from-next j call calls lt e rest = ground arith

  -- One turn, and the loop after it.
  scan_from-turn :
      (r : Bytes) (t : Option Turn) (read : Read)
      → i < length bytes
      → ((j : ℕ) (rest : Bytes)
          → drop j bytes ≡ rest
          → Utf8 rest
          → length rest < length r
          → Scans (scan_from fuel bytes j) rest)
      → turn bytes i ≡ t
      → read_turn r ≡ read
      → Agrees bytes t read
      → Shorter (length r) read
      → Scans (scan_from (suc fuel) bytes i) r
  scan_from-turn r none read lt loop p q agrees shorter = elim agrees [ ]
  scan_from-turn r (some stop) finished lt loop p q agrees shorter = record {
    calls = [];
    returns = scan_from-stop lt p;
    reading = done q;
  }
  scan_from-turn r (some stop) (reads rest call) lt loop p q agrees shorter = elim agrees [ ]
  scan_from-turn r (some (next j call)) finished lt loop p q agrees shorter = elim agrees [ ]
  scan_from-turn r (some (next j call)) (reads rest call') lt loop p q (at, same, v) shorter =
      let later = loop j rest at v shorter in
      record {
        calls = emit call later.calls;
        returns = scan_from-next j call later.calls lt p later.returns;
        reading = more (rw same q) later.reading;
      }

scan_from-Scans :
    (fuel : ℕ) (bytes : Bytes) (i : ℕ) (r : Bytes)
    → drop i bytes ≡ r
    → Utf8 r
    → length r < fuel
    → Scans (scan_from fuel bytes i) r
scan_from-Scans zero bytes i r e u lt = absurd (omega arith)
scan_from-Scans (suc fuel) bytes i [] e u lt = record {
  calls = [];
  returns = scan_from-past fuel bytes i (omega (arith, length-drop i bytes, ap length e));
  reading = done refl;
}
scan_from-Scans (suc fuel) bytes i (b ∷ r) e u lt =
    scan_from-turn fuel bytes i (b ∷ r) _ _ (lt_of_drop bytes i b r e)
      (λ j rest at v shorter. scan_from-Scans fuel bytes j rest at v (omega arith)) refl refl
      (turn-Agrees bytes i (b ∷ r) _ e refl u) (read_token-Shorter (b ∷ r) _ refl)

Reads-same : (r r' : Bytes) {xs ys : List Pair} → r ≡ r' → Reads r xs → Reads r' ys → xs ≡ ys
Reads-same r r' e (done p) (done q) = refl
Reads-same r r' e (done p) (more q s) = cc (p, q, ap read_turn e)
Reads-same r r' e (more q s) (done p) = cc (p, q, ap read_turn e)
Reads-same r r' e (more {rest = a} {call = c} {calls = xs} p s)
      (more {rest = b} {call = d} {calls = ys} q t) =
    let turns : reads a c ≡ reads b d = sym p ∙ ap read_turn e ∙ q in
    let same : c ≡ d = cc turns in
    let later : xs ≡ ys = Reads-same a b (cc turns) s t in rw (same, later)

-- The grammar gives a line one list of pairs.
pub Reads-unique : {r : Bytes} {xs ys : List Pair} → Reads r xs → Reads r ys → xs ≡ ys
Reads-unique {r} s t = Reads-same r r refl s t

-- On every line that is valid UTF-8 the scanner returns, with no index or slice out of bounds and no
-- key or value that is not UTF-8, and its calls are the pairs that the grammar reads, in order.
pub handle-Reads :
    (line : Bytes)
    → Utf8 line
    → (calls : List Pair) × (handle_parse_logfmt_line_with_schema_base line ≡ some calls)
      × Reads line calls
unfolding handle_parse_logfmt_line_with_schema_base
handle-Reads line u =
    let scan = scan_from-Scans (length line + 1) line 0 line refl u (omega arith) in
    (scan.calls, scan.returns, scan.reading)

-- A line that the grammar reads as some pairs makes the scanner call with exactly these.
pub handle-eq-Reads :
    (line : Bytes) (calls : List Pair)
    → Utf8 line
    → Reads line calls
    → handle_parse_logfmt_line_with_schema_base line ≡ some calls
handle-eq-Reads line calls u reading =
    let (found, returns, read) = handle-Reads line u in
    returns ∙ ap some (Reads-unique read reading)
