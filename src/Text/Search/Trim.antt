-- ===== src/Text/Search/Trim.antt =====
-- Where `str::trim` leaves a text as it is.
use mathlib.Core.List.{reverse, reverse-append, reverse-cons, reverse-reverse}
use polars_logfmt.Prelude.{
  ℕ, Bool, true, false, ◌&&◌, List, [], ◌∷◌, ◌++◌, ◌≡◌, ap, ◌∙◌, leb, arith,
}
use polars_logfmt.Text.Search.{trim, trim_by, trim_start, trim_end, space1, space2, space3}

-- A byte of ASCII that is no white space and no control character.
abbrev pub visible : ℕ → Bool
visible b = leb b'!' b && leb b 126

module _ (s1 : ℕ → Bool) (s2 : ℕ → ℕ → Bool) (s3 : ℕ → ℕ → ℕ → Bool) where
  trim_by-stops :
      (b : ℕ) (s : List ℕ)
      → s1 b ≡ false
      → ((c : ℕ) → s2 b c ≡ false)
      → ((c d : ℕ) → s3 b c d ≡ false)
      → trim_by s1 s2 s3 (b ∷ s) ≡ b ∷ s
  unfolding trim_by
  trim_by-stops b [] h1 h2 h3 = ground arith
  trim_by-stops b (c ∷ []) h1 h2 h3 = ground (arith, h2 c)
  trim_by-stops b (c ∷ d ∷ s) h1 h2 h3 = ground (arith, h2 c, h3 c d)

trim_start-visible : (b : ℕ) (s : List ℕ) → visible b ≡ true → trim_start (b ∷ s) ≡ b ∷ s
unfolding trim_start
trim_start-visible b s h =
    trim_by-stops _ _ _ b s (ground arith) (λ c. ground arith) (λ c d. ground arith)

trim_end-visible : (s : List ℕ) (b : ℕ) → visible b ≡ true → trim_end (s ++ b ∷ []) ≡ s ++ b ∷ []
unfolding trim_end
trim_end-visible s b h =
    ap reverse (
      ap (trim_by space1 (λ b a. space2 a b) (λ c b a. space3 a b c)) (reverse-append s (b ∷ []))
      ∙ trim_by-stops _ _ _ b (reverse s) (ground arith) (λ c. ground arith) (λ c d. ground arith))
    ∙ reverse-cons b (reverse s)
    ∙ ap (λ t. t ++ b ∷ []) (reverse-reverse s)

pub trim-visible :
    (a b : ℕ) (s : List ℕ)
    → visible a ≡ true
    → visible b ≡ true
    → trim (a ∷ (s ++ b ∷ [])) ≡ a ∷ (s ++ b ∷ [])
unfolding trim
trim-visible a b s ha hb =
    ap trim_end (trim_start-visible a (s ++ b ∷ []) ha) ∙ trim_end-visible (a ∷ s) b hb

pub trim-visible_one : (a : ℕ) → visible a ≡ true → trim (a ∷ []) ≡ a ∷ []
unfolding trim
trim-visible_one a h = ap trim_end (trim_start-visible a [] h) ∙ trim_end-visible [] a h
