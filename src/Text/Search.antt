-- ===== src/Text/Search.antt =====
-- `str::trim`, `str::contains`, `str::split_once`, `str::starts_with` of the Rust standard library,
-- over the bytes of a text.
pub mod Trim
use mathlib.Core.List.{reverse}
use polars_logfmt.Prelude.{
  ℕ, Bool, true, false, ◌&&◌, ◌||◌, List, [], ◌∷◌, ◌++◌, Option, none, some, ◌==◌, leb,
  if◌then◌else◌,
}

abbrev within : ℕ → ℕ → ℕ → Bool
within lo hi b = leb lo b && leb b hi

-- The characters of the Unicode property White_Space, by the length of their UTF-8 form.
abbrev pub space1 : ℕ → Bool
space1 a = a == 32 || within 9 13 a

abbrev pub space2 : ℕ → ℕ → Bool
space2 a b = a == 0xc2 && (b == 0x85 || b == 0xa0)

abbrev pub space3 : ℕ → ℕ → ℕ → Bool
space3 a b c =
    (a == 0xe1 && b == 0x9a && c == 0x80)
    || (a == 0xe2 && b == 0x80 && (within 0x80 0x8a c || c == 0xa8 || c == 0xa9 || c == 0xaf))
    || (a == 0xe2 && b == 0x81 && c == 0x9f)
    || (a == 0xe3 && b == 0x80 && c == 0x80)

-- Drops characters from the front while they are white space.
module _ (s1 : ℕ → Bool) (s2 : ℕ → ℕ → Bool) (s3 : ℕ → ℕ → ℕ → Bool) where
  pub trim_by : List ℕ → List ℕ
  trim_by [] = []
  trim_by (a ∷ []) = if s1 a then [] else a ∷ []
  trim_by (a ∷ b ∷ []) = elim (s1 a) [
    | true ↦ trim_by (b ∷ [])
    | false ↦ if s2 a b then [] else a ∷ b ∷ []
  ]
  trim_by (a ∷ b ∷ c ∷ r) = elim (s1 a) [
    | true ↦ trim_by (b ∷ c ∷ r)
    | false ↦ elim (s2 a b) [
      | true ↦ trim_by (c ∷ r)
      | false ↦ elim (s3 a b c) [ true ↦ trim_by r | false ↦ a ∷ b ∷ c ∷ r ]
    ]
  ]

pub trim_start : List ℕ → List ℕ
trim_start = trim_by space1 space2 space3

pub trim_end : List ℕ → List ℕ
trim_end s = reverse (trim_by space1 (λ b a. space2 a b) (λ c b a. space3 a b c) (reverse s))

unfoldable pub trim : List ℕ → List ℕ
unfolding trim_by trim_start trim_end
trim s = trim_end (trim_start s)

abbrev pub is_empty : List ℕ → Bool
is_empty [] = true
is_empty (_ ∷ _) = false

-- What follows a prefix.
unfoldable pub strip_prefix : List ℕ → List ℕ → Option (List ℕ)
strip_prefix [] s = some s
strip_prefix (p ∷ ps) [] = none
strip_prefix (p ∷ ps) (b ∷ s) = if p == b then strip_prefix ps s else none

abbrev is_some {ℓ} : {A : Type ℓ} → Option A → Bool
is_some none = false
is_some (some _) = true

unfoldable pub starts_with : List ℕ → List ℕ → Bool
unfolding strip_prefix
starts_with s prefix = is_some (strip_prefix prefix s)

-- Over the bytes from the last to the first.
unfoldable pub ends_with : List ℕ → List ℕ → Bool
unfolding strip_prefix
ends_with s suffix = is_some (strip_prefix (reverse suffix) (reverse s))

unfoldable pub contains : List ℕ → List ℕ → Bool
unfolding strip_prefix
contains [] needle = is_empty needle
contains (b ∷ s) needle = is_some (strip_prefix needle (b ∷ s)) || contains s needle

abbrev pub keep : ℕ → Option (List ℕ × List ℕ) → Option (List ℕ × List ℕ)
keep b none = none
keep b (some (front, back)) = some (b ∷ front, back)

abbrev found : Option (List ℕ) → Option (List ℕ × List ℕ) → Option (List ℕ × List ℕ)
found (some rest) later = some ([], rest)
found none later = later

-- The text before the first occurrence and the text after it.
unfoldable pub split_once : List ℕ → List ℕ → Option (List ℕ × List ℕ)
unfolding strip_prefix
split_once [] op = if is_empty op then some ([], []) else none
split_once (b ∷ s) op = found (strip_prefix op (b ∷ s)) (keep b (split_once s op))
