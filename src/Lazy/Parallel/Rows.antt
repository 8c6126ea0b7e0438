-- ===== src/Lazy/Parallel/Rows.antt =====
-- The frames of the workers together have the rows of all frames of the source.
use polars_logfmt.Prelude.{
  ℕ, ◌+◌, ◌<◌, true, List, [], ◌∷◌, ◌≡◌, refl, sym, ap, subst, ◌∙◌, Option, some, ltb, length,
  arith,
}
use polars_logfmt.Text.{Bytes}
use polars_logfmt.Maps.{Distinct}
use polars_logfmt.Logfmt.Formats.{Formats}
use polars_logfmt.Logfmt.Integers.{ℤ}
use polars_logfmt.Logfmt.Scan.{Pair, ◌>>=◌, handle_parse_logfmt_line_with_schema_base}
use polars_logfmt.Logfmt.Value.{Schema}
use polars_logfmt.Logfmt.Rows.{Row, parse_logfmt_line}
use polars_logfmt.Lazy.Lines.{LineReader, LineFilter}
use polars_logfmt.Lazy.Batch.Rows.{AreUtf8}
use polars_logfmt.Lazy.Frames.{FrameRange}
use polars_logfmt.Lazy.Frames.Read.{FrameRead}
use polars_logfmt.Lazy.Workers.{worker_slices}
use polars_logfmt.Lazy.Reader.{LogFmtReaderState}
use polars_logfmt.Lazy.Columns.{DataType, type_of, field_in}
use polars_logfmt.Lazy.Columns.Finish.{FrameColumn, series_type}
use polars_logfmt.Lazy.Columns.Finish.Ready.{names, AreColumns, AllDistinct}
use polars_logfmt.Lazy.Columns.Finish.Run.{AreScanned}
use polars_logfmt.Lazy.Parallel.{
  Accumulates, sorted_keys, last_frame, parse_frames, pushed, part, joined,
}
use polars_logfmt.Lazy.Parallel.Keys.{first_row-keys}
use polars_logfmt.Lazy.Parallel.Lines.{accepted, lines_read}
use polars_logfmt.Lazy.Parallel.Run.{parse_frames-columns}
use polars_logfmt.Lazy.Parallel.Batch.{
  Worked, Collected, predicted, collected, worked, worked_from, dealt, parallel_batch, accumulated,
  finished, with_schema,
}

module _ (fmt : Formats) (timestamp_micros : fmt.DateTime → ℤ)
    (frames : Accumulates fmt timestamp_micros) where
  abbrev pub heights : List frames.DataFrame → ℕ
  heights [] = 0
  heights (df ∷ dfs) = frames.height df + heights dfs

  -- The names and the types of columns.
  abbrev pub columns_shape : List (FrameColumn fmt timestamp_micros) → List (Bytes × DataType)
  columns_shape [] = []
  columns_shape (c ∷ columns) = (c.name, c.dtype) ∷ columns_shape columns

  -- Those that columns of these keys have under a schema.
  abbrev pub shape_under : Schema → List Bytes → List (Bytes × DataType)
  shape_under schema [] = []
  shape_under schema (key ∷ keys) =
      (key, series_type (type_of (field_in (some schema) key))) ∷ shape_under schema keys

  columns_shape-under :
      (n : ℕ) (schema : Schema) (columns : List (FrameColumn fmt timestamp_micros))
      → AreColumns fmt timestamp_micros n (some schema) columns
      → columns_shape columns ≡ shape_under schema (names fmt timestamp_micros columns)
  columns_shape-under n schema [] even = refl
  columns_shape-under n schema (c ∷ columns) (high, typed, even) =
      ap (λ t. (c.name, t) ∷ columns_shape columns) typed
      ∙ ap (λ r. (c.name, series_type (type_of (field_in (some schema) c.name))) ∷ r)
          (columns_shape-under n schema columns even)

  abbrev pub AllShaped :
      (frames.DataFrame → List (Bytes × DataType))
      → List (Bytes × DataType)
      → List frames.DataFrame
      → Type 0
  AllShaped shape_of shape [] = Unit {0}
  AllShaped shape_of shape (df ∷ dfs) = (shape_of df ≡ shape) × AllShaped shape_of shape dfs

  -- What is asked of the frames: even columns of different names make a frame of their height, their names and
  -- their types, no predicate and no columns are pushed down, and frames whose columns have the same names and
  -- the same types, in the same order, stack.
  pub record KeepsColumns : Type 0 where
    pub shape_of : frames.DataFrame → List (Bytes × DataType)
    pub made :
        (n : ℕ) (schema : Option Schema) (columns : List (FrameColumn fmt timestamp_micros))
        → AllDistinct (names fmt timestamp_micros columns)
        → AreColumns fmt timestamp_micros n schema columns
        → 0 < length columns
        → (df : frames.DataFrame) × (frames.new_infer_height columns ≡ some df)
          × (frames.height df ≡ n)
          × (0 < frames.width df)
          × (shape_of df ≡ columns_shape columns)
    pub unfiltered : (df : frames.DataFrame) → frames.apply_pushdown df ≡ some df
    pub stacked :
        (shape : List (Bytes × DataType)) (df : frames.DataFrame) (dfs : List frames.DataFrame)
        → AllShaped shape_of shape (df ∷ dfs)
        → (all : frames.DataFrame) × (frames.accumulate_dataframes_vertical (df ∷ dfs) ≡ some all)
          × (frames.height all ≡ heights (df ∷ dfs))
          × (shape_of all ≡ shape)

  module _ (keeps : KeepsColumns) where
    last_frame-rows :
        (n : ℕ) (schema : Schema) (columns : List (FrameColumn fmt timestamp_micros))
        (keys : List Bytes)
        → names fmt timestamp_micros columns ≡ keys
        → AllDistinct keys
        → AreColumns fmt timestamp_micros n (some schema) columns
        → 0 < length columns
        → 0 < n
        → (df : frames.DataFrame) × (last_frame fmt timestamp_micros frames columns ≡ some df)
          × (frames.height df ≡ n)
          × (keeps.shape_of df ≡ shape_under schema keys)
    unfolding last_frame
    last_frame-rows n schema columns keys named distinct even some_column some_row =
        let (df, is_new, high, wide, shaped) =
          keeps.made n (some schema) columns (subst AllDistinct (sym named) distinct) even
            some_column in
        let is_shaped : keeps.shape_of df ≡ shape_under schema keys =
          shaped ∙ columns_shape-under n schema columns even ∙ ap (shape_under schema) named in
        let (all, stacked, high', shaped') =
          keeps.stacked (shape_under schema keys) df [] (is_shaped, tt) in
        let is_wide : ltb 0 (frames.width df) ≡ true = ground (arith, wide) in
        let is_high : ltb 0 (frames.height df) ≡ true = ground (arith, high, some_row) in
        (
          all,
          ap
                (λ o. o >>= λ d. pushed fmt timestamp_micros frames d >>= λ d'.
                  some (joined fmt timestamp_micros frames (part fmt timestamp_micros frames d')))
                is_new
              ∙ rw (is_wide, keeps.unfiltered df) (rw (is_wide, is_high) (rw stacked refl)),
          high' ∙ omega (arith, high),
          shaped',
        )

    module _ {H : Type 0} (read_frame : FrameRange → H → H × FrameRead)
        (clone_handle : ℕ → Option H) (line_filter : LineFilter) (keys : List Bytes) where
      -- What is asked of a worker: it has a handle, its frames are read as lines that are valid UTF-8, and
      -- the scanner reads those that are taken as pairs with different keys; the first of them has `keys`.
      pub record IsRead (w : ℕ) (ranges : List FrameRange) : Type 0 where
        pub handle : H
        pub lines : LineReader
        pub first : Bytes
        pub later : List Bytes
        pub call : Pair
        pub calls : List Pair
        pub row : Row fmt
        pub cloned : clone_handle w ≡ some handle
        pub read : lines_read read_frame ranges handle ≡ some lines
        pub utf8 : AreUtf8 lines
        pub starts : accepted line_filter lines ≡ first ∷ later
        pub scanned : handle_parse_logfmt_line_with_schema_base first ≡ some (call ∷ calls)
        pub distinct : Distinct (call ∷ calls)
        pub scanned_later : AreScanned later
        pub parsed : parse_logfmt_line fmt first ≡ some row
        pub has_keys : sorted_keys fmt timestamp_micros row ≡ keys

      abbrev pub AllRead : ℕ → List (List FrameRange) → Type 0
      AllRead w [] = Unit {0}
      AllRead w (ranges ∷ slices) = IsRead w ranges × AllRead (w + 1) slices

      -- The lines that the workers take, together.
      abbrev pub taken : (w : ℕ) (slices : List (List FrameRange)) → AllRead w slices → ℕ
      taken w [] are = 0
      taken w (ranges ∷ slices) (is, are) =
          length (accepted line_filter is.lines) + taken (w + 1) slices are

      some_columns :
          (row : Row fmt) (columns : List (FrameColumn fmt timestamp_micros)) (k : Bytes)
          (ks : List Bytes)
          → names fmt timestamp_micros columns ≡ k ∷ ks
          → 0 < length columns
      some_columns row [] k ks named = cc
      some_columns row (c ∷ columns) k ks named = omega arith

      worked-made :
          (schema : Option Schema) (w : ℕ) (ranges : List FrameRange) (handle : H)
          (df : frames.DataFrame)
          → clone_handle w ≡ some handle
          → parse_frames fmt timestamp_micros frames read_frame schema line_filter true ranges
              handle
            ≡ some df
          → worked fmt timestamp_micros frames read_frame clone_handle line_filter true schema w
              ranges
            ≡ Worked.made df
      unfolding worked
      worked-made schema w ranges handle df cloned makes = ground (arith, cloned, makes)

      worked-rows :
          (schema : Schema) (w : ℕ) (ranges : List FrameRange) (is : IsRead w ranges)
          → (df : frames.DataFrame) × (worked fmt timestamp_micros frames read_frame clone_handle
                line_filter true
                (some schema)
                w
                ranges
              ≡ Worked.made df)
            × (frames.height df ≡ length (accepted line_filter is.lines))
            × (keeps.shape_of df ≡ shape_under schema keys)
            × (0 < frames.height df)
      worked-rows schema w ranges is =
          let (row, columns, parsed, makes, named, even) =
            parse_frames-columns fmt timestamp_micros frames read_frame (some schema) line_filter
              ranges is.handle is.lines is.first is.later is.call is.calls is.read is.utf8 is.starts
              is.scanned is.distinct is.scanned_later in
          let (row', k, ks, parsed', are_keys, distinct, carried) =
            first_row-keys fmt timestamp_micros is.first is.call is.calls is.scanned in
          let same : row ≡ is.row = cc (parsed, is.parsed) in
          let same' : row' ≡ is.row = cc (parsed', is.parsed) in
          let named' : names fmt timestamp_micros columns ≡ keys =
            named ∙ ap (sorted_keys fmt timestamp_micros) same ∙ is.has_keys in
          let are_keys' : keys ≡ k ∷ ks =
            sym is.has_keys ∙ ap (sorted_keys fmt timestamp_micros) (sym same') ∙ are_keys in
          let (df, framed, high, is_shaped) =
            last_frame-rows (length is.later + 1) schema columns keys named'
              (subst AllDistinct (sym are_keys') distinct) even
              (some_columns row columns k ks (named' ∙ are_keys')) (omega arith) in
          (
            df,
            worked-made (some schema) w ranges is.handle df is.cloned (makes ∙ framed),
            high ∙ ground (arith, is.starts),
            is_shaped,
            omega (arith, high),
          )

      collected-rows :
          (schema : Schema) (w : ℕ) (slices : List (List FrameRange)) (are : AllRead w slices)
          → (dfs : List frames.DataFrame) × (collected fmt timestamp_micros frames (
                worked_from fmt timestamp_micros frames read_frame clone_handle line_filter true
                  (some schema)
                  w
                  slices)
              ≡ Collected.all dfs)
            × (heights dfs ≡ taken w slices are)
            × AllShaped keeps.shape_of (shape_under schema keys) dfs
            × (length dfs ≡ length slices)
      unfolding collected worked_from
      collected-rows schema w [] are = ([], refl, refl, tt, refl)
      collected-rows schema w (ranges ∷ slices) (is, are) =
          let (df, makes, high, named, some_row) = worked-rows schema w ranges is in
          let (dfs, all, heights_all, all_named, lengths) =
            collected-rows schema (w + 1) slices are in
          let is_high : ltb 0 (frames.height df) ≡ true = ground (arith, some_row) in
          (
            df ∷ dfs,
            rw (makes, all) (rw is_high refl),
            omega (arith, high, heights_all),
            (named, all_named),
            omega (arith, lengths),
          )

      accumulated-rows :
          (state : LogFmtReaderState) (schema : Option Schema) (dfs : List frames.DataFrame) (n : ℕ)
          (shape : List (Bytes × DataType))
          → AllShaped keeps.shape_of shape dfs
          → length dfs ≡ n + 1
          → (df : frames.DataFrame) × (accumulated fmt timestamp_micros frames state schema
                (Collected.all dfs)
              ≡ some (record state { finished = true }, schema, some df))
            × (frames.height df ≡ heights dfs)
            × (keeps.shape_of df ≡ shape)
      accumulated-rows state schema [] n shape shaped len = absurd (omega (arith, len))
      accumulated-rows state schema (df ∷ dfs) n shape shaped len =
          let (all, stacked, high, is_shaped) = keeps.stacked shape df dfs shaped in
          (all, ap (finished fmt timestamp_micros frames state schema) stacked, high, is_shaped)

      -- Where columns are aligned and a schema is known or predicted, a source without a slice whose frames are
      -- dealt out to one worker or more, each of which can clone its handle and reads its frames as lines that
      -- are valid UTF-8, that the scanner reads as pairs with different keys, and of which it takes one at
      -- least; the first has the same keys for every worker; with frames that keep their columns: the parallel
      -- scan gives a frame with those keys for columns, in order, each of the type that the schema gives it,
      -- and as many rows as the workers take lines, and it finishes the reader.
      pub parallel_batch-rows :
          {P : Type 0} (predict : P → Option (Option Schema)) (max_inflight : ℕ)
          (ranges : List FrameRange) (probe : P) (schema : Option Schema) (known_schema : Schema)
          (state : LogFmtReaderState) (slice : List FrameRange) (slices : List (List FrameRange))
          → predicted fmt timestamp_micros frames schema (predict probe) ≡ some (some known_schema)
          → worker_slices max_inflight ranges ≡ some (slice ∷ slices)
          → (are : AllRead 0 (slice ∷ slices))
          → (df : frames.DataFrame) × (parallel_batch fmt timestamp_micros frames read_frame
                clone_handle line_filter true predict max_inflight
                (some (ranges, probe))
                schema
                state
              ≡ some (record state { finished = true }, some known_schema, some df))
            × (frames.height df ≡ taken 0 (slice ∷ slices) are)
            × (keeps.shape_of df ≡ shape_under known_schema keys)
      unfolding parallel_batch
      parallel_batch-rows predict max_inflight ranges probe schema known_schema state slice slices
            known dealt_out are =
          let (dfs, all, high, shaped, lengths) =
            collected-rows known_schema 0 (slice ∷ slices) are in
          let (df, ends, high', is_shaped) =
            accumulated-rows state (some known_schema) dfs (length slices) _ shaped
              (omega (arith, lengths)) in
          (
            df,
            ap
                  (with_schema fmt timestamp_micros frames read_frame clone_handle line_filter true
                    max_inflight ranges state)
                  known
                ∙ ap
                    (dealt fmt timestamp_micros frames read_frame clone_handle line_filter true
                      state (some known_schema))
                    dealt_out
                ∙ ap (accumulated fmt timestamp_micros frames state (some known_schema)) all
                ∙ ends,
            high' ∙ high,
            is_shaped,
          )
