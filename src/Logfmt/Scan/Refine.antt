-- ===== src/Logfmt/Scan/Refine.antt =====
-- The turns of the scanner are those of the grammar.
use polars_logfmt.Prelude.{
  ℕ, ◌+◌, ◌≤◌, ◌<◌, min, Bool, true, false, [], ◌∷◌, ◌++◌, ◌≡◌, refl, sym, ◌∙◌, Option, none, some,
  ◌==◌, if◌then◌else◌, arith, length, drop, take_while, drop_while, take_while-append-drop_while,
  append_assoc, append-nil, length-append, length-drop, ap, Bool-cases, inl, inr, ==_iff, get_elem?,
  ltb,
}
use polars_logfmt.Text.{Bytes, is_ascii_whitespace, not_whitespace, slice}
use polars_logfmt.Text.Utf8.{Utf8, Utf8-nil, Utf8-cons, Utf8-uncons, Utf8-split, Utf8-take_while}
use polars_logfmt.Logfmt.Scan.{
  Pair, key_byte, advance, quote_loop, Turn, stop, next, quoted_value, unquoted_value, value_at,
  skip_token, equals_at, key_at, turn,
}
use polars_logfmt.Logfmt.Scan.Grammar.{
  prepend, closing_quote, Read, finished, reads, read_quoted, skip_word, read_value, read_equals,
  read_after_key, read_token,
}
use polars_logfmt.Logfmt.Scan.Cursor.{
  drop-append, drop-past, lt_of_drop, drop-suc, slice-append, get_elem?-drop, advance-eq,
  drop-advance,
}

-- A turn that ends at an index, against a turn that ends before a rest of the line.
abbrev pub Agrees : Bytes → Option Turn → Read → Type 0
Agrees bytes (some stop) finished = Unit {0}
Agrees bytes (some (next i call)) (reads r call') = (drop i bytes ≡ r) × (call ≡ call') × Utf8 r
Agrees bytes _ _ = ⊥

not_whitespace-ascii : (b : ℕ) → not_whitespace b ≡ false → b < 128
not_whitespace-ascii b h = ground arith

key_byte-ascii : (b : ℕ) → key_byte b ≡ false → b < 128
key_byte-ascii b h = ground arith

pub Utf8-skip : (r : Bytes) → Utf8 r → Utf8 (drop_while is_ascii_whitespace r)
Utf8-skip [] u = u
Utf8-skip (b ∷ r) u = ground (arith, Utf8-skip r, Utf8-uncons b r)

-- Where the loop over a quoted text ends: `q` is its `i` and its `val_end`.
abbrev Closes : ℕ × ℕ → Bytes → ℕ → ℕ → Option Pair → Type 0
Closes q r i e none = (q.1 ≡ e) × (i + length r ≤ q.0)
Closes q r i e (some (text, rest)) =
    (q.0 ≡ i + length text + 1) × (q.1 ≡ i + length text) × (r ≡ text ++ b'"' ∷ rest)

Closes-prepend :
    (q : ℕ × ℕ) (bs r : Bytes) (i e : ℕ) (o : Option Pair)
    → Closes q r (i + length bs) e o
    → Closes q (bs ++ r) i e (prepend bs o)
Closes-prepend q bs r i e none c = (c.0, omega (arith, length-append bs r, c.1))
Closes-prepend q bs r i e (some (text, rest)) c = (
  omega (arith, length-append bs text, c.0),
  omega (arith, length-append bs text, c.1),
  rw c.2 (sym (append_assoc bs text (b'"' ∷ rest))),
)

quote_loop-Closes : (r : Bytes) (i e : ℕ) → Closes (quote_loop r i e) r i e (closing_quote r)
unfolding quote_loop
quote_loop-Closes [] i e = omega arith
quote_loop-Closes (b ∷ []) i e = ground arith
quote_loop-Closes (b ∷ c ∷ r) i e = elim (Bool-cases (b == b'\\')) [
  | inl slash ↦
      rw (slash, quote_loop, closing_quote)
        (Closes-prepend _ (b ∷ c ∷ []) r i e _ (quote_loop-Closes r (i + 2) e))
  | inr other ↦
      rw (other, quote_loop, closing_quote)
        (elim (Bool-cases (b == b'"')) [
          | inl quote ↦
              rw (quote, quote_loop, closing_quote)
                (omega arith, omega arith, rw ((==_iff b b'"').0 quote))
          | inr plain ↦
              rw (plain, quote_loop, closing_quote)
                (Closes-prepend _ (b ∷ []) (c ∷ r) i e _ (quote_loop-Closes (c ∷ r) (i + 1) e))
        ])
]

module _ (bytes : Bytes) (i : ℕ) where
  skip_token-Agrees :
      (r : Bytes) → drop i bytes ≡ r → Utf8 r → Agrees bytes (skip_token bytes i) (skip_word r)
  unfolding skip_token
  skip_token-Agrees r e u = (
    drop-advance not_whitespace bytes i e,
    refl,
    (Utf8-take_while not_whitespace r not_whitespace-ascii u).1,
  )

  -- The prefix that a test accepts is the slice from `i` to where `advance` stops.
  slice-advance :
      (p : ℕ → Bool) (b : ℕ) (r : Bytes)
      → drop i bytes ≡ b ∷ r
      → slice bytes i (advance p bytes i) ≡ some (take_while p (b ∷ r))
  slice-advance p b r e = rw (advance-eq p bytes i e) (
      slice-append bytes i (take_while p (b ∷ r)) (drop_while p (b ∷ r))
        (let lt = lt_of_drop bytes i b r e in omega arith)
        (e ∙ sym (take_while-append-drop_while p (b ∷ r))))

  unquoted_value-Agrees :
      (key : Bytes) (b : ℕ) (r : Bytes)
      → drop i bytes ≡ b ∷ r
      → Utf8 (b ∷ r)
      → Agrees bytes (unquoted_value bytes key i) (
          reads (drop_while not_whitespace (b ∷ r)) (some (key, take_while not_whitespace (b ∷ r))))
  unfolding unquoted_value
  unquoted_value-Agrees key b r e u =
      let (front, back) = Utf8-take_while not_whitespace (b ∷ r) not_whitespace-ascii u in
      rw (slice-advance not_whitespace b r e, front)
        (drop-advance not_whitespace bytes i e, refl, back)

  quoted_value-eq :
      (key text tail : Bytes)
      → i ≤ length bytes
      → drop i bytes ≡ text ++ tail
      → Utf8 text
      → let q = quote_loop (drop i bytes) i i in
        (if q.1 == i then min q.0 (length bytes) else q.1) ≡ i + length text
        → quoted_value bytes key i ≡ some (next q.0 (some (key, text)))
  unfolding quoted_value
  quoted_value-eq key text tail le e u h = rw (h, slice-append bytes i text tail le e, u)

  quoted_value-Agrees :
      (key r : Bytes) (o : Option Pair)
      → i ≤ length bytes
      → drop i bytes ≡ r
      → Utf8 r
      → Closes (quote_loop (drop i bytes) i i) r i i o
      → Agrees bytes (quoted_value bytes key i) (read_quoted key o r)
  quoted_value-Agrees key r none le e u (same, far) =
      let size : i + length r ≡ length bytes = omega (arith, length-drop i bytes, ap length e) in
      rw (quoted_value-eq key r [] le (e ∙ sym (append-nil r)) u (ground arith))
        (drop-past bytes (quote_loop (drop i bytes) i i).0 (omega arith), refl, Utf8-nil)
  quoted_value-Agrees key r (some ([], rest)) le e u (j, found, text) =
      let quote : ℕ = b'"' in
      let e' : drop i bytes ≡ quote ∷ rest = e ∙ text in
      let lt = lt_of_drop bytes i quote rest e' in
      rw
        (quoted_value-eq key (quote ∷ []) rest le e' (Utf8-cons quote [] (omega arith) Utf8-nil)
          (ground arith))
        (
          let past : (quote_loop (drop i bytes) i i).0 ≡ i + 1 = omega arith in
              rw past (drop-suc bytes i quote rest e'),
          refl,
          Utf8-uncons quote rest (omega arith) (rw text at u),
        )
  quoted_value-Agrees key r (some (b ∷ text, rest)) le e u (j, found, whole) =
      let (front, back) = Utf8-split (b ∷ text) rest b'"' (omega arith) (rw whole at u) in
      rw (quoted_value-eq key (b ∷ text) (b'"' ∷ rest) le (e ∙ whole) front (ground arith)) (
        rw j (
            drop-suc bytes (i + length (b ∷ text)) b'"' rest
              (drop-append bytes i (b ∷ text) (b'"' ∷ rest) (e ∙ whole))),
        refl,
        back,
      )

  get_elem?-nil : drop i bytes ≡ [] → get_elem? bytes i ≡ none
  get_elem?-nil e = get_elem?-drop bytes i ∙ rw e

  get_elem?-cons : (b : ℕ) (r : Bytes) → drop i bytes ≡ b ∷ r → get_elem? bytes i ≡ some b
  get_elem?-cons b r e = get_elem?-drop bytes i ∙ rw e

value_at-Agrees :
    (bytes : Bytes) (i : ℕ) (key r : Bytes)
    → drop i bytes ≡ r
    → Utf8 r
    → Agrees bytes (value_at bytes key i) (read_value key r)
unfolding value_at
value_at-Agrees bytes i key [] e u = rw (get_elem?-nil bytes i e, value_at) (e, refl, u)
value_at-Agrees bytes i key (b ∷ r) e u = elim (Bool-cases (b == b'"')) [
  | inl quote ↦
      let at : drop (i + 1) bytes ≡ r = drop-suc bytes i b r e in
      let lt = lt_of_drop bytes i b r e in
      let ascii = (==_iff b b'"').0 quote in
      rw (get_elem?-cons bytes i b r e, value_at, quote)
        (quoted_value-Agrees bytes (i + 1) key r (closing_quote r) (omega arith) at
          (Utf8-uncons b r (omega arith) u) (rw at (quote_loop-Closes r (i + 1) (i + 1))))
  | inr plain ↦
      rw (get_elem?-cons bytes i b r e, value_at, plain) (unquoted_value-Agrees bytes i key b r e u)
]

equals_at-Agrees :
    (bytes : Bytes) (i : ℕ) (key r s : Bytes)
    → drop i bytes ≡ r
    → drop_while is_ascii_whitespace r ≡ s
    → Utf8 r
    → Agrees bytes (equals_at bytes key i) (read_equals key s)
unfolding equals_at
equals_at-Agrees bytes i key r [] e f u =
    let j : ℕ = advance is_ascii_whitespace bytes i in
    let at : drop j bytes ≡ [] = drop-advance is_ascii_whitespace bytes i e ∙ f in
    rw (get_elem?-nil bytes j at, equals_at) (skip_token-Agrees bytes j [] at Utf8-nil)
equals_at-Agrees bytes i key r (b ∷ s) e f u =
    let j : ℕ = advance is_ascii_whitespace bytes i in
    let at : drop j bytes ≡ b ∷ s = drop-advance is_ascii_whitespace bytes i e ∙ f in
    let v : Utf8 (b ∷ s) = rw (← f) (Utf8-skip r u) in
    elim (Bool-cases (b == b'=')) [
      | inl equals ↦
          let ascii = (==_iff b b'=').0 equals in
          rw (get_elem?-cons bytes j b s at, equals_at, equals)
            (value_at-Agrees bytes (j + 1) key s (drop-suc bytes j b s at)
              (Utf8-uncons b s (omega arith) v))
      | inr other ↦
          rw (get_elem?-cons bytes j b s at, equals_at, other)
            (skip_token-Agrees bytes j (b ∷ s) at v)
    ]

key_at-Agrees :
    (bytes : Bytes) (i b : ℕ) (r ks rest : Bytes)
    → drop i bytes ≡ b ∷ r
    → Utf8 (b ∷ r)
    → take_while key_byte (b ∷ r) ≡ ks
    → drop_while key_byte (b ∷ r) ≡ rest
    → Agrees bytes (key_at bytes i) (read_after_key ks rest)
unfolding key_at
key_at-Agrees bytes i b r [] rest e u front back =
    let j : ℕ = advance key_byte bytes i in
    let at : drop j bytes ≡ rest = drop-advance key_byte bytes i e ∙ back in
    let none_read : j ≡ i = omega (arith, advance-eq key_byte bytes i e, ap length front) in
    rw ((==_iff j i).1 none_read) (
      skip_token-Agrees bytes j rest at
        (rw (← back) (Utf8-take_while key_byte (b ∷ r) key_byte-ascii u).1))
key_at-Agrees bytes i b r (k ∷ ks) rest e u front back =
    let j : ℕ = advance key_byte bytes i in
    let at : drop j bytes ≡ rest = drop-advance key_byte bytes i e ∙ back in
    let valid = Utf8-take_while key_byte (b ∷ r) key_byte-ascii u in
    let some_read : (j == i) ≡ false =
      ground (arith, advance-eq key_byte bytes i e, ap length front) in
    let key : slice bytes i j ≡ some (k ∷ ks) =
      slice-advance bytes i key_byte b r e ∙ ap some front in
    let good : Utf8 (k ∷ ks) = rw (← front) valid.0 in
    let good_rest : Utf8 rest = rw (← back) valid.1 in
    rw (some_read, key, good)
      (equals_at-Agrees bytes j (k ∷ ks) rest (drop_while is_ascii_whitespace rest) at refl
        good_rest)

-- One turn of the scanner is one step of the grammar.
pub turn-Agrees :
    (bytes : Bytes) (i : ℕ) (r s : Bytes)
    → drop i bytes ≡ r
    → drop_while is_ascii_whitespace r ≡ s
    → Utf8 r
    → Agrees bytes (turn bytes i) (read_token s)
unfolding turn
turn-Agrees bytes i r [] e f u =
    let j : ℕ = advance is_ascii_whitespace bytes i in
    let at : drop j bytes ≡ [] = drop-advance is_ascii_whitespace bytes i e ∙ f in
    let past : ltb j (length bytes) ≡ false = ground (arith, length-drop j bytes, ap length at) in
    rw past tt
turn-Agrees bytes i r (b ∷ s) e f u =
    let j : ℕ = advance is_ascii_whitespace bytes i in
    let at : drop j bytes ≡ b ∷ s = drop-advance is_ascii_whitespace bytes i e ∙ f in
    let before : ltb j (length bytes) ≡ true = ground (arith, lt_of_drop bytes j b s at) in
    let v : Utf8 (b ∷ s) = rw (← f) (Utf8-skip r u) in
    rw before (key_at-Agrees bytes j b s _ _ at v refl refl)
