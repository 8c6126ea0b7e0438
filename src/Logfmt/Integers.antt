-- ===== src/Logfmt/Integers.antt =====
-- `i64::from_str` and `i64::to_string` of the Rust standard library.
use polars_logfmt.Prelude.{
  ℕ, zero, suc, ◌+◌, ◌-◌, ◌*◌, ◌/◌, ◌%◌, ◌^◌, Bool, ◌&&◌, [], ◌∷◌, Option, none, some, ◌==◌, ltb,
  leb, if◌then◌else◌,
}
use polars_logfmt.Text.{Bytes}

-- `negsuc n` is -(n + 1).
pub data ℤ : Type 0 where
  pos : ℕ → ℤ
  negsuc : ℕ → ℤ

abbrev neg : ℕ → ℤ
neg zero = pos 0
neg (suc n) = negsuc n

abbrev is_digit : ℕ → Bool
is_digit b = leb b'0' b && leb b b'9'

digits_from : ℕ → Bytes → Option ℕ
digits_from n [] = some n
digits_from n (b ∷ bs) =
    let rest = digits_from (n * 10 + (b - b'0')) bs in if is_digit b then rest else none

-- One digit at least.
magnitude : Bytes → Option ℕ
magnitude [] = none
magnitude (b ∷ bs) = digits_from 0 (b ∷ bs)

abbrev in_range : ℕ → (ℕ → ℤ) → Option ℕ → Option ℤ
in_range limit sign none = none
in_range limit sign (some n) = if leb n limit then some (sign n) else none

-- `i64::from_str(value).ok()`
unfoldable pub i64_from_str : Bytes → Option ℤ
unfolding magnitude digits_from
i64_from_str [] = none
i64_from_str (b ∷ bs) =
    if b == b'-'
    then in_range (2 ^ 63) neg (magnitude bs)
    else in_range (2 ^ 63 - 1) pos (magnitude (if b == b'+' then bs else b ∷ bs))

-- The decimal digits of `n` before `tail`; `n + 1` rounds are enough.
decimal : ℕ → ℕ → Bytes → Bytes
decimal zero n tail = tail
decimal (suc fuel) n tail =
    let rest = decimal fuel (n / 10) ((b'0' + n % 10) ∷ tail) in
    if ltb n 10 then (b'0' + n % 10) ∷ tail else rest

-- `i.to_string()`
unfoldable pub i64_to_string : ℤ → Bytes
unfolding decimal
i64_to_string (pos n) = decimal (n + 1) n []
i64_to_string (negsuc n) = b'-' ∷ decimal (n + 2) (n + 1) []
