-- ===== src/Lazy/RowCap/Claims.antt =====
-- However the workers interleave, they take the first free slots and no more.
use polars_logfmt.Prelude.{
  ℕ, ◌+◌, ◌≤◌, min, Bool, true, false, ◌||◌, ◌⊎◌, List, [], ◌∷◌, ◌≡◌, Option, none, some,
  if◌then◌else◌, length, length-append, arith,
}
use polars_logfmt.Text.{Bytes}
use polars_logfmt.Lazy.Lines.{LineReader, LineFilter, is_accepted}
use polars_logfmt.Lazy.RowCap.{
  Worker, begin_frame, claim, read_line, go_on, worker_step, Step, here, there, Steps, done, more,
}

module _ (filter : LineFilter) where
  -- The lines that would be taken, of a frame and of frames.
  unfoldable pub accepted : LineReader → ℕ
  accepted [] = 0
  accepted (line ∷ lines) = if is_accepted filter line then accepted lines + 1 else accepted lines

  abbrev pub of_frame : Option LineReader → ℕ
  of_frame none = 0
  of_frame (some lines) = accepted lines

  unfoldable pub accepted_all : List (Option LineReader) → ℕ
  accepted_all [] = 0
  accepted_all (frame ∷ frames) = of_frame frame + accepted_all frames

  -- What a worker has taken and may still take.
  unfoldable pub worth : Worker → ℕ
  worth w = length w.pushed + (of_frame w.lines + accepted_all w.frames)

  unfoldable pub worth_all : List Worker → ℕ
  worth_all [] = 0
  worth_all (w ∷ ws) = worth w + worth_all ws

  module _ (n : ℕ) where
    -- What a step of the counter, of the rows taken, of what may be taken and of the flags does.
    abbrev Moves : ℕ → ℕ → ℕ → ℕ → ℕ → ℕ → Bool → Bool → Type 0
    Moves slots slots' taken taken' worth' worth'' capped capped' =
        (taken' + min n slots ≡ taken + min n slots')
        × (slots ≤ slots')
        × (worth'' ≤ worth')
        × ((worth'' ≡ worth') ⊎ (n ≤ slots'))
        × (capped' ≡ true → (capped ≡ true) ⊎ (n ≤ slots'))

    worker_step-Moves :
        (slots slots' : ℕ) (w w' : Worker)
        → worker_step n filter slots w ≡ some (slots', w')
        → Moves slots slots'
            (length w.pushed)
            (length w'.pushed)
            (worth w)
            (worth w')
            w.capped
            w'.capped
    unfolding worker_step begin_frame claim read_line go_on worth accepted accepted_all
    worker_step-Moves slots slots' w w' e = go w.frames w.lines w.pushed w.capped w.failed e
      where
        go :
            (fs : List (Option LineReader)) (lines : Option LineReader) (p : List Bytes)
            (c d : Bool)
            → worker_step n filter slots
                (record { frames = fs; lines = lines; pushed = p; capped = c; failed = d })
              ≡ some (slots', w')
            → Moves slots slots'
                (length p)
                (length w'.pushed)
                (length p + (of_frame lines + accepted_all fs))
                (worth w')
                c
                w'.capped
        go fs lines p true d h = cc
        go fs lines p false true h = cc
        go [] none p false false h = cc
        go (none ∷ fs) none p false false h = ground (arith, h)
        go (some f ∷ fs) none p false false h = ground (arith, h)
        go fs (some []) p false false h = ground (arith, h)
        go fs (some (l ∷ ls)) p false false h = ground (arith, h, length-append p (l ∷ []))

    -- The rows taken by all workers, and whether one of them met the end of the slice.
    unfoldable pub pushed_all : List Worker → ℕ
    pushed_all [] = 0
    pushed_all (w ∷ ws) = length w.pushed + pushed_all ws

    unfoldable pub any_capped : List Worker → Bool
    any_capped [] = false
    any_capped (w ∷ ws) = w.capped || any_capped ws

    Step-Moves :
        {slots slots' : ℕ} {ws ws' : List Worker}
        → Step n filter slots ws slots' ws'
        → Moves slots slots'
            (pushed_all ws)
            (pushed_all ws')
            (worth_all ws)
            (worth_all ws')
            (any_capped ws)
            (any_capped ws')
    unfolding pushed_all any_capped worth_all
    Step-Moves (here {slots} {slots'} {w} {w'} {ws} e) =
        let (taken, up, down, same, flag) = worker_step-Moves slots slots' w w' e in
        (omega (arith, taken), up, omega (arith, down), ground (arith, same), ground (arith, flag))
    Step-Moves (there {slots} {slots'} {w} {ws} {ws'} s) =
        let (taken, up, down, same, flag) = Step-Moves s in
        (omega (arith, taken), up, omega (arith, down), ground (arith, same), ground (arith, flag))

    -- Holds before and after each step, of the lines `total` that the frames hold.
    abbrev pub Claimed : ℕ → ℕ → List Worker → Type 0
    Claimed total slots ws =
        (pushed_all ws ≡ min n slots)
        × (worth_all ws ≤ total)
        × ((worth_all ws ≡ total) ⊎ (n ≤ slots))
        × (any_capped ws ≡ true → n ≤ slots)

    pub Steps-Claimed :
        (total : ℕ) {slots slots' : ℕ} {ws ws' : List Worker}
        → Steps n filter slots ws slots' ws'
        → Claimed total slots ws
        → Claimed total slots' ws'
    Steps-Claimed total done claimed = claimed
    Steps-Claimed total (more steps step) claimed =
        let (is_min, le, all, flag) = Steps-Claimed total steps claimed in
        let (taken, up, down, same, flag') = Step-Moves step in
        (
          omega (arith, is_min, taken),
          omega (arith, le, down),
          ground (arith, all, same, up),
          ground (arith, flag, flag', up),
        )
