-- ===== src/Lazy/RowCap.antt =====
-- `parse_frames` of polars-logfmt/src/lazy/lazy_logfmt_reader.rs under a slice of `n` rows: the workers
-- share a counter, from which each claims a slot for a row before it takes it. A step is what one worker
-- does between two points where another may run.
pub mod Claims
pub mod Rows
use polars_logfmt.Prelude.{
  ℕ, ◌+◌, Bool, true, false, not, ◌||◌, List, [], ◌∷◌, ◌++◌, ◌≡◌, Option, none, some, leb,
  if◌then◌else◌,
}
use polars_logfmt.Text.{Bytes}
use polars_logfmt.Text.Utf8.{is_utf8}
use polars_logfmt.Lazy.Lines.{LineReader, LineFilter, is_accepted}

-- One worker: the frames that it has not begun, the lines that are left of the frame it reads, the
-- lines it pushed on its frame maker, `capped`, and whether it has stopped with an error. A frame is what
-- `read_frame` gives: `none` is an error, and a frame that is skipped has no lines.
pub record Worker : Type 0 where
  pub frames : List (Option LineReader)
  pub lines : Option LineReader
  pub pushed : List Bytes
  pub capped : Bool
  pub failed : Bool

module _ (n : ℕ) (filter : LineFilter) where
  -- A frame that is read.
  abbrev begun : Worker → List (Option LineReader) → Option LineReader → Worker
  begun w frames none = record w { frames = frames; failed = true }
  begun w frames (some lines) = record w { frames = frames; lines = some lines }

  -- `slots.load(…) >= n`, before a frame is read.
  pub begin_frame : ℕ → Worker → List (Option LineReader) → Option (ℕ × Worker)
  begin_frame slots w [] = none
  begin_frame slots w (frame ∷ frames) =
      if leb n slots
      then some (slots, record w { frames = frames; capped = true })
      else some (slots, begun w frames frame)

  -- `slots.fetch_add(1, …) >= n`, for a line that is taken.
  pub claim : ℕ → Worker → Bytes → LineReader → ℕ × Worker
  claim slots w line rest =
      if leb n slots
      then (slots + 1, record w { lines = some rest; capped = true })
      else (slots + 1, record w { lines = some rest; pushed = w.pushed ++ line ∷ [] })

  -- `br.read_line` fails on a line that is not UTF-8.
  pub read_line : ℕ → Worker → LineReader → Option (ℕ × Worker)
  read_line slots w [] = some (slots, record w { lines = none })
  read_line slots w (line ∷ rest) =
      if not (is_utf8 line)
      then some (slots, record w { failed = true })
      else if is_accepted filter line
      then some (claim slots w line rest)
      else some (slots, record w { lines = some rest })

  pub go_on : ℕ → Worker → Option LineReader → Option (ℕ × Worker)
  go_on slots w none = begin_frame slots w w.frames
  go_on slots w (some lines) = read_line slots w lines

  -- One step of a worker: the counter and the worker after it, or `none` when it has finished or failed.
  unfoldable pub worker_step : ℕ → Worker → Option (ℕ × Worker)
  unfolding begin_frame claim read_line go_on
  worker_step slots w = if w.capped || w.failed then none else go_on slots w w.lines

  -- One step of any of the workers, and any number of such steps.
  pub data Step : ℕ → List Worker → ℕ → List Worker → Type 0 where
    here :
        {slots slots' : ℕ} {w w' : Worker} {ws : List Worker}
        → worker_step slots w ≡ some (slots', w')
        → Step slots (w ∷ ws) slots' (w' ∷ ws)
    there :
        {slots slots' : ℕ} {w : Worker} {ws ws' : List Worker}
        → Step slots ws slots' ws'
        → Step slots (w ∷ ws) slots' (w ∷ ws')

  pub data Steps : ℕ → List Worker → ℕ → List Worker → Type 0 where
    done : {slots : ℕ} {ws : List Worker} → Steps slots ws slots ws
    more :
        {slots slots' slots'' : ℕ} {ws ws' ws'' : List Worker}
        → Steps slots ws slots' ws'
        → Step slots' ws' slots'' ws''
        → Steps slots ws slots'' ws''

-- The workers before their first step, each with its frames.
abbrev pub begin : List (Option LineReader) → Worker
begin frames = record { frames = frames; lines = none; pushed = []; capped = false; failed = false }

abbrev pub begin_all : List (List (Option LineReader)) → List Worker
begin_all [] = []
begin_all (frames ∷ slices) = begin frames ∷ begin_all slices
