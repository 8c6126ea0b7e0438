-- ===== src/Filter/RoundTrip.antt =====
-- Filters written as text, and what `parse_filter_spec` reads back.
use polars_logfmt.Prelude.{
  ℕ, Bool, true, false, not, ◌&&◌, [], ◌∷◌, ◌++◌, ◌≡◌, refl, sym, ap, ◌∙◌, Option, none, some, ◌==◌,
  leb, arith, append-nil, append_assoc, Bool-cases, inl, inr, ==_iff,
}
use polars_logfmt.Text.{Bytes, codes}
use polars_logfmt.Text.Search.{trim, is_empty, split_once, keep}
use polars_logfmt.Text.Search.Trim.{visible, trim-visible, trim-visible_one}
use polars_logfmt.Filter.{
  FilterSpec, always, eq, not_eq, contains_text, not_contains, ok, by_operator, try_operators,
  operators, parse_filter_spec,
}

-- A printable ASCII byte that stands in no operator and is no space.
abbrev pub plain_byte : ℕ → Bool
plain_byte b = (leb b'!' b && leb b 126) && (not (b == b'!') && not (b == b'~') && not (b == b'='))

abbrev Plain : Bytes → Type 0
Plain [] = Unit {0}
Plain (b ∷ bs) = (plain_byte b ≡ true) × Plain bs

abbrev pub IsName : Bytes → Type 0
IsName [] = ⊥
IsName (b ∷ bs) = Plain (b ∷ bs)

abbrev pub operator_of : FilterSpec → Bytes
operator_of (eq _ _) = codes "="
operator_of (not_eq _ _) = codes "!="
operator_of (contains_text _ _) = codes "~"
operator_of (not_contains _ _) = codes "!~"
operator_of always = []

abbrev pub write_spec : FilterSpec → Bytes
write_spec (eq key value) = key ++ (codes "=" ++ value)
write_spec (not_eq key value) = key ++ (codes "!=" ++ value)
write_spec (contains_text key value) = key ++ (codes "~" ++ value)
write_spec (not_contains key value) = key ++ (codes "!~" ++ value)
write_spec always = []

abbrev pub HasNames : FilterSpec → Type 0
HasNames (eq key value) = IsName key × IsName value
HasNames (not_eq key value) = IsName key × IsName value
HasNames (contains_text key value) = IsName key × IsName value
HasNames (not_contains key value) = IsName key × IsName value
HasNames always = Unit {0}

abbrev before : Bytes → Option (Bytes × Bytes) → Option (Bytes × Bytes)
before w none = none
before w (some (front, back)) = some (w ++ front, back)

keep-before :
    (b : ℕ) (w : Bytes) (o : Option (Bytes × Bytes)) → keep b (before w o) ≡ before (b ∷ w) o
keep-before b w none = refl
keep-before b w (some (front, back)) = refl

before-nil : (o : Option (Bytes × Bytes)) → o ≡ before [] o
before-nil none = refl
before-nil (some (front, back)) = refl

-- An operator does not begin in a plain text.
split_once-Plain :
    (w s ops : Bytes) (op : ℕ)
    → plain_byte op ≡ false
    → Plain w
    → split_once (w ++ s) (op ∷ ops) ≡ before w (split_once s (op ∷ ops))
unfolding split_once
split_once-Plain [] s ops op h p = before-nil (split_once s (op ∷ ops))
split_once-Plain (b ∷ w) s ops op h (hb, hw) =
    rw (ne, split_once-Plain w s ops op h hw) (keep-before b w (split_once s (op ∷ ops)))
  where
    ne : (op == b) ≡ false
    ne = elim (Bool-cases (op == b)) [
      | inl e ↦ cc (h, hb, ap plain_byte ((==_iff op b).0 e))
      | inr e ↦ e
    ]

module _ (key value : Bytes) (k : Plain key) (v : Plain value) where
  no_operator : (op : ℕ) (ops : Bytes) → plain_byte op ≡ false → split_once value (op ∷ ops) ≡ none
  no_operator op ops h =
      ap (λ s. split_once s (op ∷ ops)) (sym (append-nil value))
      ∙ split_once-Plain value [] ops op h v
      ∙ (unfold split_once in refl)

  found_in :
      (s ops : Bytes) (op : ℕ)
      → plain_byte op ≡ false
      → split_once s (op ∷ ops) ≡ some ([], value)
      → split_once (key ++ s) (op ∷ ops) ≡ some (key, value)
  found_in s ops op h e = split_once-Plain key s ops op h k ∙ ap (before key) e ∙ rw append-nil

  missing_in :
      (s ops : Bytes) (op : ℕ)
      → plain_byte op ≡ false
      → split_once s (op ∷ ops) ≡ none
      → split_once (key ++ s) (op ∷ ops) ≡ none
  missing_in s ops op h e = split_once-Plain key s ops op h k ∙ ap (before key) e

  -- What each search finds in a key and a value with one operator between them.
  search_all :
      (split_once (key ++ (codes "!~" ++ value)) (codes "!~") ≡ some (key, value))
      × (split_once (key ++ (codes "~" ++ value)) (codes "!~") ≡ none)
      × (split_once (key ++ (codes "~" ++ value)) (codes "~") ≡ some (key, value))
      × (split_once (key ++ (codes "!=" ++ value)) (codes "!~") ≡ none)
      × (split_once (key ++ (codes "!=" ++ value)) (codes "~") ≡ none)
      × (split_once (key ++ (codes "!=" ++ value)) (codes "!=") ≡ some (key, value))
      × (split_once (key ++ (codes "=" ++ value)) (codes "!~") ≡ none)
      × (split_once (key ++ (codes "=" ++ value)) (codes "~") ≡ none)
      × (split_once (key ++ (codes "=" ++ value)) (codes "!=") ≡ none)
      × (split_once (key ++ (codes "=" ++ value)) (codes "=") ≡ some (key, value))
  unfolding split_once
  search_all = (
    found_in _ (codes "~") b'!' refl refl,
    missing_in _ (codes "~") b'!' refl (rw (no_operator b'!' (codes "~") refl)),
    found_in _ [] b'~' refl refl,
    missing_in _ (codes "~") b'!' refl (rw (no_operator b'!' (codes "~") refl)),
    missing_in _ [] b'~' refl (rw (no_operator b'~' [] refl)),
    found_in _ (codes "=") b'!' refl refl,
    missing_in _ (codes "~") b'!' refl (rw (no_operator b'!' (codes "~") refl)),
    missing_in _ [] b'~' refl (rw (no_operator b'~' [] refl)),
    missing_in _ (codes "=") b'!' refl (rw (no_operator b'!' (codes "=") refl)),
    found_in _ [] b'=' refl refl,
  )

-- A name is left alone by `trim`, and so is what stands between two names.
Plain-last :
    (b : ℕ) (w : Bytes)
    → Plain (b ∷ w)
    → (s : Bytes) × (z : ℕ) × (b ∷ w ≡ s ++ z ∷ []) × (plain_byte z ≡ true)
Plain-last b [] (h, _) = ([], b, refl, h)
Plain-last b (c ∷ w) (h, hw) = let (s, z, e, hz) = Plain-last c w hw in (b ∷ s, z, ap (◌∷◌ b) e, hz)

plain-visible : (b : ℕ) → plain_byte b ≡ true → visible b ≡ true
plain-visible b h = ground arith

trim-names :
    (key mid value : Bytes)
    → IsName key
    → IsName value
    → trim (key ++ (mid ++ value)) ≡ key ++ (mid ++ value)
trim-names [] mid value k v = absurd k
trim-names (a ∷ key) mid [] k v = absurd v
trim-names (a ∷ key) mid (b ∷ value) (ha, _) v =
    let (s, z, e, hz) = Plain-last b value v in
    let whole : key ++ (mid ++ b ∷ value) ≡ (key ++ (mid ++ s)) ++ z ∷ [] =
      rw e (simp append_assoc) in
    rw whole (trim-visible a z (key ++ (mid ++ s)) (plain-visible a ha) (plain-visible z hz))

trim-IsName : (w : Bytes) → IsName w → trim w ≡ w
trim-IsName [] h = absurd h
trim-IsName (a ∷ []) (h, _) = trim-visible_one a (plain-visible a h)
trim-IsName (a ∷ b ∷ w) (h, hw) =
    let (s, z, e, hz) = Plain-last b w hw in
    rw e (trim-visible a z s (plain-visible a h) (plain-visible z hz))

is_empty-IsName : (w s : Bytes) → IsName w → is_empty (w ++ s) ≡ false
is_empty-IsName [] s h = absurd h
is_empty-IsName (a ∷ w) s h = refl

module _ (key value : Bytes) (k : IsName key) (v : IsName value) where
  by_operator-IsName :
      (kind : Bytes → Bytes → FilterSpec) (spec : Bytes)
      → by_operator kind spec (key, value) ≡ ok (kind key value)
  unfolding by_operator
  by_operator-IsName kind spec =
      let full_key = ap is_empty (sym (append-nil key)) ∙ is_empty-IsName key [] k in
      let full_value = ap is_empty (sym (append-nil value)) ∙ is_empty-IsName value [] v in
      rw (trim-IsName key k, trim-IsName value v, full_key, full_value)

  parse_filter_spec-IsName :
      (mid : Bytes)
      → parse_filter_spec (some (key ++ (mid ++ value)))
        ≡ try_operators (key ++ (mid ++ value)) operators
  unfolding parse_filter_spec
  parse_filter_spec-IsName mid =
      rw (trim-names key mid value k v, is_empty-IsName key (mid ++ value) k)

Plain-of : (w : Bytes) → IsName w → Plain w
Plain-of [] h = absurd h
Plain-of (a ∷ w) h = h

parse_filter_spec-empty : parse_filter_spec (some []) ≡ ok always
unfolding parse_filter_spec trim
parse_filter_spec-empty = refl

-- A filter written as key, operator and value is read back as itself, if key and value are not empty
-- and hold printable ASCII only, with no space and none of the bytes of the operators.
pub parse_filter_spec-write_spec :
    (f : FilterSpec) → HasNames f → parse_filter_spec (some (write_spec f)) ≡ ok f
unfolding try_operators
parse_filter_spec-write_spec always h = parse_filter_spec-empty
parse_filter_spec-write_spec (not_contains key value) (k, v) =
    let found = search_all key value (Plain-of key k) (Plain-of value v) in
    parse_filter_spec-IsName key value k v (codes "!~")
    ∙ rw (found.0, try_operators) (by_operator-IsName key value k v not_contains _)
parse_filter_spec-write_spec (contains_text key value) (k, v) =
    let found = search_all key value (Plain-of key k) (Plain-of value v) in
    parse_filter_spec-IsName key value k v (codes "~")
    ∙ rw (found.1, found.2, try_operators) (by_operator-IsName key value k v contains_text _)
parse_filter_spec-write_spec (not_eq key value) (k, v) =
    let found = search_all key value (Plain-of key k) (Plain-of value v) in
    parse_filter_spec-IsName key value k v (codes "!=")
    ∙ rw (found.3, found.4, found.5, try_operators) (by_operator-IsName key value k v not_eq _)
parse_filter_spec-write_spec (eq key value) (k, v) =
    let found = search_all key value (Plain-of key k) (Plain-of value v) in
    parse_filter_spec-IsName key value k v (codes "=")
    ∙ rw (found.6, found.7, found.8, found.9, try_operators) (by_operator-IsName key value k v eq _)
