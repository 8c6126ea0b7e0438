-- ===== src/Lazy/Units/Stream.antt =====
-- The units reader hands out the text of the units.
use polars_logfmt.Prelude.{
  ℕ, zero, suc, ◌+◌, ◌≤◌, ◌<◌, min, true, List, [], ◌∷◌, ◌++◌, ◌≡◌, refl, sym, ap, ◌∙◌, Option,
  none, some, ◌==◌, ==_iff, length, take, drop, get_elem?, get_elem?-bound, length-drop,
  length-take, take-append-drop, drop-add, append_assoc, arith, Bool-cases, Option-cases, inl, inr,
}
use polars_logfmt.Text.{Bytes}
use polars_logfmt.Lazy.Lines.{text_of}
use polars_logfmt.Lazy.Units.{UnitsReader, read_next, fill, fill_buf, consume, read}

-- The source with these units.
abbrev pub of_units : List Bytes → ℕ → Option (Option Bytes)
of_units units i = some (get_elem? units i)

-- What the reader has not handed out.
pub unread : List Bytes → UnitsReader → Bytes
unread units r = drop r.pos r.buf ++ text_of (drop r.next units)

drop-get_elem? :
    {A : Type 0} (i : ℕ) (xs : List A) (x : A)
    → get_elem? xs i ≡ some x
    → drop i xs ≡ x ∷ drop (i + 1) xs
drop-get_elem? i [] x h = cc
drop-get_elem? zero (y ∷ xs) x h = ground (arith, h)
drop-get_elem? (suc i) (y ∷ xs) x h =
    let shift : suc i + 1 ≡ suc (i + 1) = omega arith in rw shift (drop-get_elem? i xs x h)

drop-get_elem?-none :
    {A : Type 0} (i : ℕ) (xs : List A) → get_elem? xs i ≡ none → (drop i xs ≡ []) × (length xs ≤ i)
drop-get_elem?-none zero [] h = (refl, omega arith)
drop-get_elem?-none (suc i) [] h = (refl, omega arith)
drop-get_elem?-none zero (y ∷ xs) h = cc
drop-get_elem?-none (suc i) (y ∷ xs) h =
    let (none_left, le) = drop-get_elem?-none i xs h in (none_left, omega (arith, le))

drop-all : {A : Type 0} (xs : List A) → drop (length xs) xs ≡ []
drop-all [] = refl
drop-all (x ∷ xs) = drop-all xs

module _ (units : List Bytes) where
  -- The buffer after `fill_buf`.
  abbrev Filled : UnitsReader → UnitsReader → Bytes → Type 0
  Filled r r' available =
      (available ≡ drop r'.pos r'.buf)
      × (unread units r' ≡ unread units r)
      × (r'.pos ≤ length r'.buf)
      × (available ≡ [] → unread units r ≡ [])

  used_up :
      (r : UnitsReader)
      → (r.pos == length r.buf) ≡ true
      → unread units r ≡ text_of (drop r.next units)
  unfolding unread
  used_up r empty =
      ap (λ b. b ++ text_of (drop r.next units))
        (ap (λ k. drop k r.buf) ((==_iff r.pos (length r.buf)).0 empty) ∙ drop-all r.buf)

  fill-Filled :
      (fuel : ℕ) (r : UnitsReader)
      → r.pos ≤ length r.buf
      → r.next ≤ length units
      → length units < r.next + fuel
      → (r' : UnitsReader) × (available : Bytes) × (fill (of_units units) fuel r
          ≡ (r', some available))
        × Filled r r' available
  unfolding fill read_next unread
  fill-Filled zero r le known enough = absurd (omega (arith, known, enough))
  fill-Filled (suc fuel) r le known enough = elim (Bool-cases (r.pos == length r.buf)) [
    | inr some_left ↦ (
      r,
      drop r.pos r.buf,
      ground (arith, some_left),
      (
        refl,
        refl,
        le,
        λ none_left.
            absurd (ground (arith, some_left, le, length-drop r.pos r.buf, ap length none_left)),
      ),
    )
    | inl empty ↦ elim (Option-cases (get_elem? units r.next)) [
      | inl last ↦
          let (none_left, beyond) = drop-get_elem?-none r.next units last in
          let used : unread units r ≡ [] = used_up r empty ∙ ap text_of none_left in
          (
            record { next = r.next; buf = []; pos = 0 },
            [],
            ground (arith, empty, last),
            (refl, ap text_of none_left ∙ sym used, omega arith, λ e. used),
          )
      | inr (bytes, more) ↦
          let r1 : UnitsReader = record { next = r.next + 1; buf = bytes; pos = 0 } in
          let there : r.next < length units = get_elem?-bound r.next units bytes more in
          let (r', available, filled, (is_drop, same, le', ends)) =
            fill-Filled fuel r1 (omega arith) (omega (arith, there)) (omega (arith, enough)) in
          let step : unread units r1 ≡ unread units r =
            sym (used_up r empty ∙ ap text_of (drop-get_elem? r.next units bytes more)) in
          (
            r',
            available,
            ground (arith, empty, more, filled),
            (is_drop, same ∙ step, le', λ e. sym step ∙ ends e),
          )
    ]
  ]

-- The bytes handed out, and those behind the new position.
handed_out :
    (n pos : ℕ) (buf later : Bytes)
    → pos ≤ length buf
    → n ≤ length (drop pos buf)
    → take n (drop pos buf) ++ (drop (min (pos + n) (length buf)) buf ++ later)
      ≡ drop pos buf ++ later
handed_out n pos buf later le fits =
    let whole : min (pos + n) (length buf) ≡ pos + n =
      omega (arith, fits, length-drop pos buf, le) in
    ap (λ k. take n (drop pos buf) ++ (drop k buf ++ later)) whole
    ∙ ap (λ d. take n (drop pos buf) ++ (d ++ later)) (sym (drop-add pos n buf))
    ∙ sym (append_assoc (take n (drop pos buf)) (drop n (drop pos buf)) later)
    ∙ ap (λ d. d ++ later) (take-append-drop n (drop pos buf))

nil_of_length : (xs : Bytes) → length xs ≡ 0 → xs ≡ []
nil_of_length [] h = refl
nil_of_length (x ∷ xs) h = absurd (omega (arith, h))

-- Over a source that is a list of units, a reader that stands in its buffer and has not gone beyond the
-- last unit returns from `read`, with a turn for each unit and one more as fuel: what it hands out,
-- before what it has not handed out then, is what it had not handed out before; it is no longer than
-- the buffer, and it is nothing only at the end of the source or for a buffer of no bytes.
pub read-unread :
    (units : List Bytes) (out_len : ℕ) (r : UnitsReader)
    → r.pos ≤ length r.buf
    → r.next ≤ length units
    → (r' : UnitsReader) × (out : Bytes) × (read (of_units units) (length units + 1) out_len r
        ≡ (r', some out))
      × (out ++ unread units r' ≡ unread units r)
      × (length out ≤ out_len)
      × (out ≡ [] → 0 < out_len → unread units r ≡ [])
      × (r'.pos ≤ length r'.buf)
unfolding read unread fill_buf consume
read-unread units out_len r le known =
    let (r1, available, filled, (is_drop, same, le1, ends)) =
      fill-Filled units (length units + 1) r le known (omega arith) in
    let n : ℕ = min (length available) out_len in
    let r' : UnitsReader = record r1 { pos = min (r1.pos + n) (length r1.buf) } in
    (
      r',
      take n available,
      ground (arith, filled),
      ap (λ a. take n a ++ unread units r') is_drop
          ∙ handed_out n r1.pos r1.buf (text_of (drop r1.next units)) le1
              (omega (arith, ap length is_drop))
          ∙ same,
      omega (arith, length-take n available),
      (λ none_out some_room. ends (
          nil_of_length available
            (omega (arith, ap length none_out, length-take n available, some_room)))),
      omega arith,
    )
