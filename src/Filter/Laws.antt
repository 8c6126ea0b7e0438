-- ===== src/Filter/Laws.antt =====
-- What the filters accept, and how the operators of a text compete.
use polars_logfmt.Prelude.{not, [], ◌∷◌, ◌≡◌, some, arith, if◌then◌else◌, Option-cases, inl, inr}
use polars_logfmt.Text.{Bytes, codes}
use polars_logfmt.Text.Search.{split_once, trim, is_empty}
use polars_logfmt.Logfmt.Formats.{Formats}
use polars_logfmt.Logfmt.Rows.{Row}
use polars_logfmt.Filter.{
  always, eq, not_eq, contains_text, not_contains, Result, ok, invalid, by_operator, try_operators,
  operators, parse_filter_spec, filter_row,
}

-- On every row `!=` accepts exactly what `=` refuses, and `!~` exactly what `~` refuses, a row with
-- no such key included.
filter_row-not :
    (fmt : Formats) (row : Row fmt) (key value : Bytes)
    → (filter_row fmt row (not_eq key value) ≡ not (filter_row fmt row (eq key value)))
      × (filter_row fmt row (not_contains key value)
          ≡ not (filter_row fmt row (contains_text key value)))
unfolding filter_row
filter_row-not fmt row key value = (ground arith, ground arith)

-- A filter by `~` or `!~`.
abbrev pub IsContains : Result → Type 0
IsContains (ok (contains_text _ _)) = Unit {0}
IsContains (ok (not_contains _ _)) = Unit {0}
IsContains (ok _) = ⊥
IsContains (invalid _) = Unit {0}

by_operator-IsContains :
    (spec : Bytes) (parts : Bytes × Bytes)
    → IsContains (by_operator contains_text spec parts)
      × IsContains (by_operator not_contains spec parts)
unfolding by_operator
by_operator-IsContains spec parts = (ground arith, ground arith)

try_operators-tilde :
    (spec : Bytes) (parts : Bytes × Bytes)
    → split_once spec (codes "~") ≡ some parts
    → IsContains (try_operators spec operators)
unfolding try_operators
try_operators-tilde spec parts h = elim (Option-cases (split_once spec (codes "!~"))) [
  | inl e ↦ rw (e, h, try_operators) (by_operator-IsContains spec parts).0
  | inr (first, e) ↦ rw (e, try_operators) (by_operator-IsContains spec first).1
]

-- A text with a tilde anywhere, in the value of a `=` too, is a filter by `~` or `!~`, or an error.
pub parse_filter_spec-tilde :
    (spec : Bytes) (parts : Bytes × Bytes)
    → split_once (trim spec) (codes "~") ≡ some parts
    → IsContains (parse_filter_spec (some spec))
unfolding parse_filter_spec split_once
parse_filter_spec-tilde spec parts h = go (trim spec) h
  where
    go :
        (t : Bytes)
        → split_once t (codes "~") ≡ some parts
        → IsContains (if is_empty t then ok always else try_operators t operators)
    go [] e = cc
    go (b ∷ t) e = try_operators-tilde (b ∷ t) parts e
