-- ===== src/Maps.antt =====
-- `HashMap` and `BTreeMap` with text keys, as association lists. The program reads them by key only,
-- or goes over all their entries where their order does not matter.
use polars_logfmt.Prelude.{
  List, [], ◌∷◌, ◌≡◌, refl, ◌∙◌, false, Option, none, some, Bool-cases, inl, inr, if◌then◌else◌,
  arith,
}
use polars_logfmt.Text.{Bytes, bytes_eq, bytes_eq_iff}

abbrev pub Map {ℓ} : Type ℓ → Type ℓ
Map V = List (Bytes × V)

module _ {ℓ} {V : Type ℓ} where
  unfoldable pub get : Bytes → Map V → Option V
  get k [] = none
  get k ((j, v) ∷ m) = if bytes_eq j k then some v else get k m

  unfoldable pub insert : Bytes → V → Map V → Map V
  insert k v [] = (k, v) ∷ []
  insert k v ((j, w) ∷ m) = if bytes_eq j k then (j, v) ∷ m else (j, w) ∷ insert k v m

  pub get-insert :
      (j k : Bytes) (v : V) (m : Map V)
      → get j (insert k v m) ≡ (if bytes_eq k j then some v else get j m)
  unfolding get insert
  get-insert j k v [] = refl
  get-insert j k v ((i, w) ∷ m) =
      ground (arith, bytes_eq_iff k j, bytes_eq_iff i k, bytes_eq_iff i j, get-insert j k v m)

pub get-nil {ℓ} : {V : Type ℓ} (k : Bytes) → get {V = V} k [] ≡ none
unfolding get
get-nil k = refl

pub get-insert_ne {ℓ} :
    {V : Type ℓ} (j k : Bytes) (v : V) (m : Map V)
    → bytes_eq j k ≡ false
    → get j (insert k v m) ≡ get j m
get-insert_ne j k v m h = ground (arith, get-insert j k v m, bytes_eq_iff j k, bytes_eq_iff k j)

-- Each key stands once.
abbrev pub Distinct {ℓ} : {V : Type ℓ} → Map V → Type ℓ
Distinct [] = Unit
Distinct ((k, v) ∷ m) = (get k m ≡ none) × Distinct m

pub insert-Distinct {ℓ} :
    {V : Type ℓ} (k : Bytes) (v : V) (m : Map V) → Distinct m → Distinct (insert k v m)
unfolding insert
insert-Distinct k v [] d = (get-nil k, tt)
insert-Distinct k v ((j, w) ∷ m) (h, d) = elim (Bool-cases (bytes_eq j k)) [
  | inl same ↦ rw same (h, d)
  | inr other ↦ rw other (get-insert_ne j k v m other ∙ h, insert-Distinct k v m d)
]
