-- ===== src/Text.antt =====
-- Texts as the bytes of their UTF-8 form, and the operations of the Rust standard library that the
-- program applies to them: byte classes, `str::from_utf8`, slices, comparison.
pub mod Utf8
pub mod Search
use Prim.Native.Char.{code}
use Prim.Native.String.{String}
use polars_logfmt.Prelude.{
  ℕ, ◌-◌, Bool, true, false, not, ◌&&◌, ◌||◌, List, [], ◌∷◌, ◌≡◌, refl, ◌↔◌, Option, none, some,
  ◌==◌, ==_iff, ltb, leb, if◌then◌else◌, length, take, drop, arith,
}

abbrev pub Bytes : Type 0
Bytes = List ℕ

-- The bytes of an ASCII literal.
abbrev pub codes : String → Bytes
codes String.[] = []
codes (String.◌∷◌ c s) = code c ∷ codes s

-- `u8::is_ascii_whitespace`: space, tab, line feed, form feed and carriage return.
abbrev pub is_ascii_whitespace : ℕ → Bool
is_ascii_whitespace b = b == 32 || b == 9 || b == 10 || b == 12 || b == 13

abbrev pub not_whitespace : ℕ → Bool
not_whitespace b = not (is_ascii_whitespace b)

-- `==` on texts.
abbrev pub bytes_eq : Bytes → Bytes → Bool
bytes_eq [] [] = true
bytes_eq (x ∷ xs) (y ∷ ys) = x == y && bytes_eq xs ys
bytes_eq _ _ = false

pub bytes_eq_iff : (xs ys : Bytes) → (bytes_eq xs ys ≡ true) ↔ (xs ≡ ys)
bytes_eq_iff (x ∷ xs) (y ∷ ys) = ground (arith, bytes_eq_iff xs ys)
bytes_eq_iff _ _ = ground arith

-- `&bytes[from..to]`; `none` is the panic of a range that is reversed or out of bounds.
abbrev pub slice : Bytes → ℕ → ℕ → Option Bytes
slice bytes from to =
    if leb from to && leb to (length bytes) then some (take (to - from) (drop from bytes)) else none
