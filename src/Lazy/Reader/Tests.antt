-- ===== src/Lazy/Reader/Tests.antt =====
-- Batches, units and slices at concrete sources.
use polars_logfmt.Prelude.{
  ◌+◌, ◌≤◌, ◌<◌, min, Bool, not, ◌≡◌, refl, List, [], ◌∷◌, ◌++◌, Option, none, some, true, false,
  length, arith,
}
use polars_logfmt.Text.{Bytes, codes}
use polars_logfmt.Logfmt.Samples.{few_formats}
use polars_logfmt.Lazy.Lines.{LineReader, is_accepted}
use polars_logfmt.Text.Search.{trim}
use polars_logfmt.Text.Utf8.{is_utf8}
use polars_logfmt.Lazy.Batch.{Batch, is_full, parse_batch_from_reader}
use polars_logfmt.Lazy.Batch.Rows.{AreUtf8, Within, rows_of, parse_batch_from_reader-rows}
use polars_logfmt.Lazy.Reader.Samples.{lines, lines-AreUtf8, typed}
use polars_logfmt.Lazy.Units.{UnitsReader, new, read}
use polars_logfmt.Lazy.Units.Stream.{of_units, unread, read-unread}
use polars_logfmt.Lazy.RowCap.{Worker, begin_all, worker_step, here, there, Steps, done, more}
use polars_logfmt.Lazy.RowCap.Claims.{pushed_all}
use polars_logfmt.Lazy.RowCap.Rows.{
  AllFinished, any_failed, accepted_of, Steps-bound, Steps-finished,
}

parse_batch_from_reader-rows_example :
    (b : Batch few_formats) × (eof : Bool) × (rest : LineReader) × (parse_batch_from_reader
        few_formats lines
        (some 1)
        (some typed)
        none
        none
        false
      ≡ some (b, eof, rest))
    × (b.rows ++ rows_of few_formats (some typed) none none rest
        ≡ rows_of few_formats (some typed) none none lines)
    × Within (some 1) (length b.rows)
    × (length b.rows ≤ b.lines_read)
    × (eof ≡ not (is_full (some 1) (length b.rows)))
    × (eof ≡ true → rest ≡ [])
    × AreUtf8 rest
parse_batch_from_reader-rows_example =
    parse_batch_from_reader-rows few_formats lines (some 1) (some typed) none none lines-AreUtf8

abbrev three_units : List Bytes
three_units = codes "ab" ∷ [] ∷ codes "cde" ∷ []

read-unread_example :
    (r' : UnitsReader) × (out : Bytes) × (read (of_units three_units) (length three_units + 1) 4 new
      ≡ (r', some out))
    × (out ++ unread three_units r' ≡ unread three_units new)
    × (length out ≤ 4)
    × (out ≡ [] → 0 < 4 → unread three_units new ≡ [])
    × (r'.pos ≤ length r'.buf)
read-unread_example = read-unread three_units 4 new (omega arith) (omega arith)

-- Two workers with a line each, and one slot: the second claims it.
abbrev one_line : LineReader
one_line = codes "a=1" ∷ []

abbrev slices : List (List (Option LineReader))
slices = (some one_line ∷ []) ∷ (some one_line ∷ []) ∷ []

abbrev reading : Worker
reading = record { frames = []; lines = some one_line; pushed = []; capped = false; failed = false }

abbrev took : Worker
took = record { frames = []; lines = some []; pushed = one_line; capped = false; failed = false }

-- A line that is not UTF-8 stops a worker.
bad_line-fails :
    worker_step 1 none 0 (record reading { lines = some ((255 ∷ []) ∷ one_line) })
    ≡ some (0, record reading { lines = some ((255 ∷ []) ∷ one_line); failed = true })
unfolding worker_step is_utf8
bad_line-fails = refl

abbrev finished : Worker
finished = record { frames = []; lines = none; pushed = one_line; capped = false; failed = false }

abbrev refused : Worker
refused = record { frames = []; lines = some []; pushed = []; capped = true; failed = false }

slices-run : Steps 1 none 0 (begin_all slices) 2 (refused ∷ finished ∷ [])
unfolding worker_step is_accepted trim is_utf8
slices-run =
    more
      (more
        (more (more (more done (here {w' = reading} refl)) (there (here {w' = reading} refl)))
          (there (here {w' = took} refl)))
        (here {w' = refused} refl))
      (there (here {w' = finished} refl))

slices-AllFinished : AllFinished none 1 2 (refused ∷ finished ∷ [])
unfolding worker_step AllFinished
slices-AllFinished = (refl, (refl, tt))

Steps-bound_example : pushed_all none 1 (refused ∷ finished ∷ []) ≤ 1
Steps-bound_example = Steps-bound none 1 slices 2 (refused ∷ finished ∷ []) slices-run

Steps-finished_example :
    pushed_all none 1 (refused ∷ finished ∷ []) ≡ min 1 (accepted_of none slices)
unfolding any_failed
Steps-finished_example =
    Steps-finished none 1 slices 2 (refused ∷ finished ∷ []) slices-run slices-AllFinished refl
