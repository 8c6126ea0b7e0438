-- ===== src/Lazy/Parallel/Whole.antt =====
-- The lines of all frames of a worker, up to the frame that it makes of them.
use polars_logfmt.Prelude.{
  Bool, true, false, List, [], ◌∷◌, ◌++◌, ◌≡◌, refl, sym, ap, subst, ◌∙◌, Option, none, some, arith,
  Bool-cases, ◌⊎◌, if◌then◌else◌, inl, inr,
}
use polars_logfmt.Text.{Bytes}
use polars_logfmt.Text.Utf8.{Utf8}
use polars_logfmt.Logfmt.Formats.{Formats}
use polars_logfmt.Logfmt.Integers.{ℤ}
use polars_logfmt.Logfmt.Scan.{◌>>=◌}
use polars_logfmt.Logfmt.Value.{Schema}
use polars_logfmt.Logfmt.Rows.{Row, parse_logfmt_line}
use polars_logfmt.Lazy.Lines.{LineReader, LineFilter, split_lines, is_accepted}
use polars_logfmt.Lazy.Batch.Rows.{AreUtf8}
use polars_logfmt.Lazy.Frames.{FrameRange}
use polars_logfmt.Lazy.Frames.Read.{FrameRead}
use polars_logfmt.Lazy.Columns.{DataFrameMaker, push_line_to_column_mutable_array}
use polars_logfmt.Lazy.Columns.Finish.{push_lines, build, to_df}
use polars_logfmt.Lazy.Columns.Finish.Grow.{>>=-eq-some}
use polars_logfmt.Lazy.Parallel.{
  Loop, sorted_keys, frame_line, frame_lines, process_one, Accumulates, last_frame, parse_ranges,
}
use polars_logfmt.Lazy.Parallel.First.{used, start, Ready, frame_line-first}
use polars_logfmt.Lazy.Parallel.Lines.{
  accepted, lines_in, lines_read, fresh, frame_line-IsReady, push_line-keeps, accepted-append,
  lines_read-split, AreUtf8-append,
}

module _ (fmt : Formats) (timestamp_micros : fmt.DateTime → ℤ) (schema : Option Schema)
    (line_filter : LineFilter) (first : Bytes) (later : List Bytes) (row : Row fmt) (k : Bytes)
    (keys : List Bytes) (parsed : parse_logfmt_line fmt first ≡ some row)
    (are : sorted_keys fmt timestamp_micros row ≡ k ∷ keys)
    (last : DataFrameMaker fmt timestamp_micros)
    (whole : push_lines fmt timestamp_micros
        (first ∷ later)
        (start fmt timestamp_micros schema line_filter first row k keys parsed are)
      ≡ some last) where
  abbrev IsReadyHere : Loop fmt timestamp_micros → Type 0
  IsReadyHere l = Ready fmt timestamp_micros schema line_filter first row k keys parsed are l

  abbrev line_step : Bytes → Loop fmt timestamp_micros → Option (Loop fmt timestamp_micros)
  line_step line l = frame_line fmt timestamp_micros schema line_filter true line l

  -- The state where `rest` is left of the lines that the scan takes.
  abbrev pub At : Loop fmt timestamp_micros → List Bytes → Type 0
  At l rest =
      ((l ≡ fresh fmt timestamp_micros schema line_filter) × (rest ≡ first ∷ later))
      ⊎ (IsReadyHere l × (push_lines fmt timestamp_micros rest l.df_maker ≡ some last))

  At-first :
      (l : Loop fmt timestamp_micros)
      → l ≡ fresh fmt timestamp_micros schema line_filter
      → is_accepted line_filter first ≡ true
      → Utf8 first
      → (l' : Loop fmt timestamp_micros) × (line_step first l ≡ some l') × At l' later
  unfolding push_lines build
  At-first l is_fresh is_taken u =
      let begun = start fmt timestamp_micros schema line_filter first row k keys parsed are in
      let (m, pushed, rest) =
        >>=-eq-some (push_line_to_column_mutable_array fmt timestamp_micros first begun)
          (push_lines fmt timestamp_micros later) last whole in
      let (same_schema, same_keys) =
        push_line-keeps fmt timestamp_micros schema line_filter k keys
          (used fmt timestamp_micros schema line_filter first row k keys parsed are) first begun m u
          pushed in
      (
        record { first_row = some row; column_keys = k ∷ keys; df_maker = m },
        ap (line_step first) is_fresh
            ∙ frame_line-first fmt timestamp_micros schema line_filter first row k keys parsed are m
                is_taken pushed,
        inr (
          record { keys_known = refl; maker_keys = same_keys; maker_schema = same_schema },
          rest,
        ),
      )

  At-taken :
      (line : Bytes) (rest : List Bytes) (l : Loop fmt timestamp_micros)
      → Utf8 line
      → is_accepted line_filter line ≡ true
      → At l (line ∷ rest)
      → (l' : Loop fmt timestamp_micros) × (line_step line l ≡ some l') × At l' rest
  unfolding push_lines
  At-taken line rest l u is_taken (inl (is_fresh, starts)) =
      let is_first : line ≡ first = cc (starts) in
      let are_later : rest ≡ later = cc (starts) in
      let (l', taken, at) =
        At-first l is_fresh (ap (is_accepted line_filter) (sym is_first) ∙ is_taken)
          (subst Utf8 is_first u) in
      (l', ap (λ x. line_step x l) is_first ∙ taken, subst (At l') (sym are_later) at)
  At-taken line rest l u is_taken (inr (ready, pushed)) =
      let (m, here, there) =
        >>=-eq-some (push_line_to_column_mutable_array fmt timestamp_micros line l.df_maker)
          (push_lines fmt timestamp_micros rest) last pushed in
      let (l', taken, ready', same) =
        frame_line-IsReady fmt timestamp_micros schema line_filter k keys
          (used fmt timestamp_micros schema line_filter first row k keys parsed are) line l m u
          is_taken ready here in
      (l', taken, inr (ready', ap (push_lines fmt timestamp_micros rest) same ∙ there))

  frame_line-skipped :
      (line : Bytes) (l : Loop fmt timestamp_micros)
      → is_accepted line_filter line ≡ false
      → line_step line l ≡ some l
  unfolding frame_line
  frame_line-skipped line l skipped = rw skipped refl

  frame_lines-line :
      (line : Bytes) (lines : LineReader) (l l1 l' : Loop fmt timestamp_micros)
      → Utf8 line
      → line_step line l ≡ some l1
      → frame_lines fmt timestamp_micros schema line_filter true lines l1 ≡ some l'
      → frame_lines fmt timestamp_micros schema line_filter true (line ∷ lines) l ≡ some l'
  unfolding frame_lines
  frame_lines-line line lines l l1 l' u here there =
      ap
        (λ b.
          (if b then line_step line l else none)
          >>= frame_lines fmt timestamp_micros schema line_filter true lines)
        u
      ∙ ap (λ o. o >>= frame_lines fmt timestamp_micros schema line_filter true lines) here
      ∙ there

  abbrev TakenOrNot : Bytes → LineReader → List Bytes → Loop fmt timestamp_micros → Bool → Type 0
  TakenOrNot line lines rest l b =
      let left : List Bytes = accepted line_filter lines in
      At l ((if b then line ∷ left else left) ++ rest)

  At-lines :
      (lines : LineReader) (rest : List Bytes) (l : Loop fmt timestamp_micros)
      → AreUtf8 lines
      → At l (accepted line_filter lines ++ rest)
      → (l' : Loop fmt timestamp_micros) × (frame_lines fmt timestamp_micros schema line_filter true
            lines l
          ≡ some l')
        × At l' rest
  unfolding frame_lines
  At-lines [] rest l us at = (l, refl, at)
  At-lines (line ∷ lines) rest l (u, us) at = elim (Bool-cases (is_accepted line_filter line)) [
    | inr skipped ↦
        let (l', gone, at') =
          At-lines lines rest l us (subst (TakenOrNot line lines rest l) skipped at) in
        (l', frame_lines-line line lines l l l' u (frame_line-skipped line l skipped) gone, at')
    | inl is_taken ↦
        let (l1, taken, at1) =
          At-taken line (accepted line_filter lines ++ rest) l u is_taken
            (subst (TakenOrNot line lines rest l) is_taken at) in
        let (l', gone, at') = At-lines lines rest l1 us at1 in
        (l', frame_lines-line line lines l l1 l' u taken gone, at')
  ]

  -- A new frame.
  At-reset :
      (rest : List Bytes) (l : Loop fmt timestamp_micros)
      → At l rest
      → At (record l { first_row = none }) rest
  At-reset rest l (inl (is_fresh, starts)) =
      inl (ap (λ (x : Loop fmt timestamp_micros). record x { first_row = none }) is_fresh, starts)
  At-reset rest l (inr (ready, pushed)) = inr (
    record {
      keys_known = ready.keys_known;
      maker_keys = ready.maker_keys;
      maker_schema = ready.maker_schema;
    },
    pushed,
  )

  At-frame :
      (read : FrameRead) (lines : LineReader) (rest : List Bytes) (l : Loop fmt timestamp_micros)
      → lines_in read ≡ some lines
      → AreUtf8 lines
      → At l (accepted line_filter lines ++ rest)
      → (l' : Loop fmt timestamp_micros) × (process_one fmt timestamp_micros schema line_filter true
            read l
          ≡ some l')
        × At l' rest
  unfolding process_one
  At-frame FrameRead.failed lines rest l read us at = cc
  At-frame FrameRead.skipped lines rest l read us at =
      let none_read : lines ≡ [] = cc (read) in
      (l, refl, subst (λ ls. At l (accepted line_filter ls ++ rest)) none_read at)
  At-frame (FrameRead.found len buf) lines rest l read us at =
      let is_split : split_lines buf ≡ lines = cc (read) in
      let (l', gone, at') =
        At-lines lines rest (record l { first_row = none }) us
          (At-reset (accepted line_filter lines ++ rest) l at) in
      (
        l',
        ap
              (λ ls.
                frame_lines fmt timestamp_micros schema line_filter true ls
                  (record l { first_row = none }))
              is_split
            ∙ gone,
        at',
      )

  At-end : (l : Loop fmt timestamp_micros) → At l [] → l.df_maker ≡ last
  unfolding push_lines
  At-end l (inl (is_fresh, starts)) = cc
  At-end l (inr (ready, pushed)) = ground (arith, pushed)

  module _ (frames : Accumulates fmt timestamp_micros) {H : Type 0}
      (read_frame : FrameRange → H → H × FrameRead) where
    abbrev pub finished : Option frames.DataFrame
    finished =
        to_df fmt timestamp_micros last >>= λ made. last_frame fmt timestamp_micros frames made.1

    At-range :
        (range : FrameRange) (ranges : List FrameRange) (handle : H) (lines : LineReader)
        (l : Loop fmt timestamp_micros)
        → lines_read read_frame (range ∷ ranges) handle ≡ some lines
        → AreUtf8 lines
        → At l (accepted line_filter lines)
        → (back : LineReader) × (l' : Loop fmt timestamp_micros) × (process_one fmt timestamp_micros
              schema line_filter true
              (read_frame range handle).1
              l
            ≡ some l')
          × (lines_read read_frame ranges (read_frame range handle).0 ≡ some back)
          × AreUtf8 back
          × At l' (accepted line_filter back)
    At-range range ranges handle lines l read us at =
        let (front, back, here, there, joined) =
          lines_read-split read_frame range ranges handle lines read in
        let (us_front, us_back) = AreUtf8-append front back (subst AreUtf8 (sym joined) us) in
        let split : accepted line_filter lines
            ≡ accepted line_filter front ++ accepted line_filter back =
          ap (accepted line_filter) (sym joined) ∙ accepted-append line_filter front back in
        let (l', gone, at') =
          At-frame (read_frame range handle).1 front (accepted line_filter back) l here us_front
            (subst (At l) split at) in
        (back, l', gone, there, us_back, at')

    pub parse_ranges-whole :
        (range : FrameRange) (ranges : List FrameRange) (handle : H) (lines : LineReader)
        (l : Loop fmt timestamp_micros)
        → lines_read read_frame (range ∷ ranges) handle ≡ some lines
        → AreUtf8 lines
        → At l (accepted line_filter lines)
        → parse_ranges fmt timestamp_micros frames read_frame schema line_filter true
            (range ∷ ranges)
            handle
            l
          ≡ finished
    unfolding parse_ranges lines_read
    parse_ranges-whole range [] handle lines l read us at =
        let (back, l', gone, there, us_back, at') = At-range range [] handle lines l read us at in
        let none_left : back ≡ [] = cc (there) in
        ap
          (λ o. o >>= λ l''. to_df fmt timestamp_micros l''.df_maker >>= λ made.
            last_frame fmt timestamp_micros frames made.1)
          gone
        ∙ ap
            (λ m. to_df fmt timestamp_micros m >>= λ made.
              last_frame fmt timestamp_micros frames made.1)
            (At-end l' (subst (At l') (ap (accepted line_filter) none_left) at'))
    parse_ranges-whole range (next ∷ ranges) handle lines l read us at =
        let (back, l', gone, there, us_back, at') =
          At-range range (next ∷ ranges) handle lines l read us at in
        ap
          (λ o.
            o
            >>= parse_ranges fmt timestamp_micros frames read_frame schema line_filter true
                (next ∷ ranges) (read_frame range handle).0)
          gone
        ∙ parse_ranges-whole next ranges (read_frame range handle).0 back l' there us_back at'
