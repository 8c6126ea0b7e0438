-- ===== src/Logfmt/Scan/Cursor.antt =====
-- An index into a line stands for the bytes from it on.
use polars_logfmt.Prelude.{
  ℕ, zero, suc, ◌+◌, ◌-◌, ◌≤◌, ◌<◌, Bool, [], ◌∷◌, ◌++◌, ◌≡◌, refl, sym, ◌∙◌, ap, some, arith,
  length, take, drop, get_elem?, take_while, drop_while, take_while-append-drop_while,
  take-length_append, drop-length_append, length-drop, length-append,
}
use polars_logfmt.Text.{Bytes, slice}
use polars_logfmt.Logfmt.Scan.{advance_over, advance}

drop-nil : (k : ℕ) → drop {A = ℕ} k [] ≡ []
drop-nil zero = refl
drop-nil (suc k) = refl

pub drop-add : (xs : Bytes) (i k : ℕ) → drop (i + k) xs ≡ drop k (drop i xs)
drop-add xs zero k = let e : zero + k ≡ k = omega arith in rw e
drop-add [] (suc i) k = drop-nil (suc i + k) ∙ sym (drop-nil k)
drop-add (x ∷ xs) (suc i) k =
    let e : suc i + k ≡ suc (i + k) = omega arith in rw e (drop-add xs i k)

module _ (bytes : Bytes) (i : ℕ) where
  pub drop-append : (xs ys : Bytes) → drop i bytes ≡ xs ++ ys → drop (i + length xs) bytes ≡ ys
  drop-append xs ys e = drop-add bytes i (length xs) ∙ rw e (drop-length_append xs ys)

  pub lt_of_drop : (b : ℕ) (bs : Bytes) → drop i bytes ≡ b ∷ bs → i < length bytes
  lt_of_drop b bs e = omega (arith, length-drop i bytes, ap length e)

  pub drop-suc : (b : ℕ) (bs : Bytes) → drop i bytes ≡ b ∷ bs → drop (i + 1) bytes ≡ bs
  drop-suc b bs e = drop-append (b ∷ []) bs e

  pub slice-append :
      (xs ys : Bytes)
      → i ≤ length bytes
      → drop i bytes ≡ xs ++ ys
      → slice bytes i (i + length xs) ≡ some xs
  slice-append xs ys le e =
      let fits : i + length xs ≤ length bytes =
        omega (arith, length-drop i bytes, ap length e, length-append xs ys) in
      let width : i + length xs - i ≡ length xs = omega arith in
      let text : take (i + length xs - i) (drop i bytes) ≡ xs =
        rw (width, e) (take-length_append xs ys) in
      ground arith

pub get_elem?-drop : (bytes : Bytes) (i : ℕ) → get_elem? bytes i ≡ get_elem? (drop i bytes) 0
get_elem?-drop bytes zero = refl
get_elem?-drop [] (suc i) = refl
get_elem?-drop (b ∷ bytes) (suc i) = get_elem?-drop bytes i

advance_over-eq :
    (p : ℕ → Bool) (r : Bytes) (i : ℕ) → advance_over p r i ≡ i + length (take_while p r)
unfolding advance_over
advance_over-eq p [] i = omega arith
advance_over-eq p (b ∷ r) i = ground (arith, advance_over-eq p r (i + 1))

pub advance-eq :
    (p : ℕ → Bool) (bytes : Bytes) (i : ℕ) {r : Bytes}
    → drop i bytes ≡ r
    → advance p bytes i ≡ i + length (take_while p r)
unfolding advance
advance-eq p bytes i {r} e = rw e (advance_over-eq p r i)

pub drop-advance :
    (p : ℕ → Bool) (bytes : Bytes) (i : ℕ) {r : Bytes}
    → drop i bytes ≡ r
    → drop (advance p bytes i) bytes ≡ drop_while p r
drop-advance p bytes i {r} e = rw (advance-eq p bytes i e) (
    drop-append bytes i (take_while p r) (drop_while p r)
      (e ∙ sym (take_while-append-drop_while p r)))

pub drop-past : (xs : Bytes) (n : ℕ) → length xs ≤ n → drop n xs ≡ []
drop-past [] n h = drop-nil n
drop-past (x ∷ xs) zero h = absurd (omega arith)
drop-past (x ∷ xs) (suc n) h = drop-past xs n (omega arith)
