-- ===== src/Text/Utf8.antt =====
-- `str::from_utf8` as an automaton over bytes, and where a valid text may be cut.
use polars_logfmt.Prelude.{
  ℕ, ◌<◌, Bool, true, false, ◌&&◌, ◌||◌, List, [], ◌∷◌, ◌++◌, ◌≡◌, ◌∙◌, refl, Option, none, some,
  ◌==◌, ltb, leb, if◌then◌else◌, arith, take_while, drop_while, sym, append-nil,
  take_while-append-drop_while, drop_while-stops,
}

-- What must follow inside a sequence. After E0, ED, F0 and F4 the next byte has a narrower range.
pub data Utf8State : Type 0 where
  boundary tail1 tail2 tail3 after_e0 after_ed after_f0 after_f4 : Utf8State

abbrev within : ℕ → ℕ → ℕ → Bool
within lo hi b = leb lo b && leb b hi

abbrev expect : Bool → Utf8State → Option Utf8State
expect ok s = if ok then some s else none

unfoldable pub lead_byte : ℕ → Option Utf8State
lead_byte b =
    if ltb b 0x80
    then some boundary
    else if within 0xc2 0xdf b
    then some tail1
    else if b == 0xe0
    then some after_e0
    else if within 0xe1 0xec b || within 0xee 0xef b
    then some tail2
    else if b == 0xed
    then some after_ed
    else if b == 0xf0
    then some after_f0
    else if within 0xf1 0xf3 b
    then some tail3
    else expect (b == 0xf4) after_f4

unfoldable pub utf8_step : Utf8State → ℕ → Option Utf8State
unfolding lead_byte
utf8_step boundary b = lead_byte b
utf8_step tail1 b = expect (within 0x80 0xbf b) boundary
utf8_step tail2 b = expect (within 0x80 0xbf b) tail1
utf8_step tail3 b = expect (within 0x80 0xbf b) tail2
utf8_step after_e0 b = expect (within 0xa0 0xbf b) tail1
utf8_step after_ed b = expect (within 0x80 0x9f b) tail1
utf8_step after_f0 b = expect (within 0x90 0xbf b) tail2
utf8_step after_f4 b = expect (within 0x80 0x8f b) tail2

abbrev at_boundary : Utf8State → Bool
at_boundary boundary = true
at_boundary _ = false

unfoldable pub accepts : Utf8State → List ℕ → Bool
unfolding utf8_step
accepts s [] = at_boundary s
accepts s (b ∷ bs) = elim (utf8_step s b) [ none ↦ false | some t ↦ accepts t bs ]

-- `str::from_utf8(bytes).is_ok()`
unfoldable pub is_utf8 : List ℕ → Bool
unfolding accepts
is_utf8 = accepts boundary

abbrev pub Utf8 : List ℕ → Type 0
Utf8 bs = is_utf8 bs ≡ true

-- An ASCII byte stands at a boundary only, and leaves a boundary behind.
accepts-ascii :
    (s : Utf8State) (b : ℕ) (bs : List ℕ)
    → b < 128
    → accepts s (b ∷ bs) ≡ true
    → (s ≡ boundary) × (accepts boundary bs ≡ true)
unfolding accepts
accepts-ascii boundary b bs lt h = ground arith
accepts-ascii _ b bs lt h = ground arith

accepts-cons_ascii :
    (b : ℕ) (bs : List ℕ) → b < 128 → accepts boundary bs ≡ true → accepts boundary (b ∷ bs) ≡ true
unfolding accepts
accepts-cons_ascii b bs lt h = ground arith

-- The state after one byte of an accepted text.
record After (s : Utf8State) (b : ℕ) (bs : List ℕ) : Type 0 where
  state : Utf8State
  rest : (cs : List ℕ) → accepts s (b ∷ cs) ≡ accepts state cs
  accepted : accepts state bs ≡ true

accepts-After : (s : Utf8State) (b : ℕ) (bs : List ℕ) → accepts s (b ∷ bs) ≡ true → After s b bs
unfolding accepts
accepts-After s b bs h = go (utf8_step s b) refl
  where
    go : (o : Option Utf8State) → utf8_step s b ≡ o → After s b bs
    go none e = cc (rw (e, accepts) at h)
    go (some t) e = record {
      state = t;
      rest = λ cs. rw (e, accepts);
      accepted = rw (e, accepts) at h;
    }

accepts-split :
    (s : Utf8State) (xs ys : List ℕ) (b : ℕ)
    → b < 128
    → accepts s (xs ++ b ∷ ys) ≡ true
    → (accepts s xs ≡ true) × (accepts boundary ys ≡ true)
accepts-split s [] ys b lt h =
    let (e, k) = accepts-ascii s b ys lt h in (rw e (unfold accepts in refl), k)
accepts-split s (x ∷ xs) ys b lt h =
    let after = accepts-After s x (xs ++ b ∷ ys) h in
    let (front, back) = accepts-split after.state xs ys b lt after.accepted in
    (after.rest xs ∙ front, back)

-- A valid text cut at an ASCII byte is two valid texts.
pub Utf8-split : (xs ys : List ℕ) (b : ℕ) → b < 128 → Utf8 (xs ++ b ∷ ys) → Utf8 xs × Utf8 ys
unfolding is_utf8
Utf8-split = accepts-split boundary

pub Utf8-nil : Utf8 []
unfolding is_utf8
Utf8-nil = refl

-- An ASCII byte may be put in front of a valid text, and taken away.
pub Utf8-cons : (b : ℕ) (bs : List ℕ) → b < 128 → Utf8 bs → Utf8 (b ∷ bs)
unfolding is_utf8
Utf8-cons b bs lt h = accepts-cons_ascii b bs lt h

pub Utf8-uncons : (b : ℕ) (bs : List ℕ) → b < 128 → Utf8 (b ∷ bs) → Utf8 bs
Utf8-uncons b bs lt h = (Utf8-split [] bs b lt h).1

-- A test that fails on ASCII bytes only cuts a valid text into two.
pub Utf8-take_while :
    (p : ℕ → Bool) (xs : List ℕ)
    → ((b : ℕ) → p b ≡ false → b < 128)
    → Utf8 xs
    → Utf8 (take_while p xs) × Utf8 (drop_while p xs)
Utf8-take_while p xs ascii h = go (drop_while p xs) refl
  where
    whole : take_while p xs ++ drop_while p xs ≡ xs
    whole = take_while-append-drop_while p xs

    go : (ys : List ℕ) → drop_while p xs ≡ ys → Utf8 (take_while p xs) × Utf8 (drop_while p xs)
    go [] e =
        let all : take_while p xs ≡ xs = sym (append-nil _) ∙ (rw e at whole) in
        (rw all h, rw e Utf8-nil)
    go (b ∷ ys) e =
        let lt = ascii b (drop_while-stops p xs b ys e) in
        let cut : Utf8 (take_while p xs ++ b ∷ ys) = rw (← e, whole) h in
        let (front, back) = Utf8-split (take_while p xs) ys b lt cut in
        (front, rw e (Utf8-cons b ys lt back))
