-- ===== src/Lazy/Lines.antt =====
-- `BufRead::read_line`: a stream as the lines that are left, each with its line feed.
use polars_logfmt.Prelude.{
  ℕ, Bool, true, false, List, [], ◌∷◌, ◌++◌, ◌≡◌, refl, Option, none, some, ◌==◌, if◌then◌else◌,
  arith,
}
use polars_logfmt.Text.{Bytes}
use polars_logfmt.Text.Utf8.{is_utf8}
use polars_logfmt.Text.Search.{trim, is_empty}

-- What a reader has not handed out.
abbrev pub LineReader : Type 0
LineReader = List Bytes

-- A byte in front of the lines behind it.
abbrev push_front : ℕ → LineReader → LineReader
push_front b [] = (b ∷ []) ∷ []
push_front b (line ∷ lines) = (b ∷ line) ∷ lines

unfoldable pub split_lines : Bytes → LineReader
split_lines [] = []
split_lines (b ∷ bs) =
    if b == b'\n' then (b ∷ []) ∷ split_lines bs else push_front b (split_lines bs)

abbrev pub text_of : LineReader → Bytes
text_of [] = []
text_of (line ∷ lines) = line ++ text_of lines

text_of-push_front : (b : ℕ) (lines : LineReader) → text_of (push_front b lines) ≡ b ∷ text_of lines
text_of-push_front b [] = refl
text_of-push_front b (line ∷ lines) = refl

-- The lines of a text are the text.
pub text_of-split_lines : (bs : Bytes) → text_of (split_lines bs) ≡ bs
unfolding split_lines
text_of-split_lines [] = refl
text_of-split_lines (b ∷ bs) =
    ground (arith, text_of-split_lines bs, text_of-push_front b (split_lines bs))

-- `reader.read_line(&mut line)?` on a line that is there: an error if it is not UTF-8.
abbrev pub checked {ℓ} : {A : Type ℓ} → Bytes → Option A → Option A
checked line next = if is_utf8 line then next else none

abbrev pub LineFilter : Type 0
LineFilter = Option (Bytes → Bool)

abbrev pub passes : LineFilter → Bytes → Bool
passes none line = true
passes (some filter) line = filter line

-- Not blank, and passed by the filter: both loops over lines take just these.
unfoldable pub is_accepted : LineFilter → Bytes → Bool
is_accepted filter line = if is_empty (trim line) then false else passes filter line
