-- ===== src/Lazy/Infer/Replay.antt =====
-- What a probe takes from its reader, so that the scan can go on from the first byte.
use polars_logfmt.Prelude.{
  ℕ, ◌+◌, ◌≤◌, Bool, true, false, [], ◌∷◌, ◌++◌, ◌≡◌, refl, ap, ◌∙◌, Option, none, some, ltb,
  append_assoc, arith,
}
use polars_logfmt.Text.{Bytes}
use polars_logfmt.Logfmt.Formats.{Formats}
use polars_logfmt.Lazy.Lines.{LineReader, LineFilter, checked, text_of}
use polars_logfmt.Lazy.Infer.{Probe, probe_line, probe_lines, infer_schema_from_reader}

module _ (fmt : Formats) where
  -- One line more is consumed, and at most one row more is counted.
  probe_line-consumed :
      (filter : LineFilter) (line : Bytes) (p q : Probe fmt)
      → checked line (probe_line fmt filter line p) ≡ some q
      → (q.consumed ≡ p.consumed ++ line) × (p.rows ≤ q.rows) × (q.rows ≤ p.rows + 1)
  unfolding probe_line
  probe_line-consumed filter line p q e = ground arith

  -- How the loop goes on from a line.
  pub data Goes (filter : LineFilter) (n : ℕ) (line : Bytes) (lines : LineReader) (p q : Probe fmt)
      (rest : LineReader) : Type 0 where
    stops : ltb p.rows n ≡ false → q ≡ p → rest ≡ line ∷ lines → Goes filter n line lines p q rest
    reads :
        (m : Probe fmt)
        → ltb p.rows n ≡ true
        → checked line (probe_line fmt filter line p) ≡ some m
        → probe_lines fmt filter n lines m ≡ some (q, rest)
        → Goes filter n line lines p q rest

  pub probe_lines-Goes :
      (filter : LineFilter) (n : ℕ) (line : Bytes) (lines : LineReader) (p q : Probe fmt)
      (rest : LineReader)
      → probe_lines fmt filter n (line ∷ lines) p ≡ some (q, rest)
      → Goes filter n line lines p q rest
  unfolding probe_lines
  probe_lines-Goes filter n line lines p q rest e =
      go (ltb p.rows n) (checked line (probe_line fmt filter line p)) refl refl
    where
      go :
          (b : Bool) (o : Option (Probe fmt))
          → ltb p.rows n ≡ b
          → checked line (probe_line fmt filter line p) ≡ o
          → Goes filter n line lines p q rest
      go false o eb eo = stops eb (ground (arith, e)) (ground (arith, e))
      go true none eb eo = absurd (ground (arith, e))
      go true (some m) eb eo = reads m eb eo (ground (arith, e))

  -- What is proved of the loop: nothing of the text is lost, and the rows stay in their bound.
  abbrev Replays : ℕ → LineReader → Probe fmt → Probe fmt → LineReader → Type 0
  Replays n lines p q rest =
      (q.consumed ++ text_of rest ≡ p.consumed ++ text_of lines) × (q.rows ≤ n)

  replay-reads :
      (filter : LineFilter) (n : ℕ) (line : Bytes) (lines : LineReader) (p m q : Probe fmt)
      (rest : LineReader)
      → ltb p.rows n ≡ true
      → checked line (probe_line fmt filter line p) ≡ some m
      → (m.rows ≤ n → Replays n lines m q rest)
      → Replays n (line ∷ lines) p q rest
  replay-reads filter n line lines p m q rest b em ih =
      let c = probe_line-consumed filter line p m em in
      let h = ih (ground (arith, c, b)) in
      (h.0 ∙ ap (λ t. t ++ text_of lines) c.0 ∙ append_assoc p.consumed line (text_of lines), h.1)

  probe_lines-replay :
      (filter : LineFilter) (n : ℕ) (lines : LineReader) (p q : Probe fmt) (rest : LineReader)
      → probe_lines fmt filter n lines p ≡ some (q, rest)
      → p.rows ≤ n
      → Replays n lines p q rest
  probe_lines-replay filter n [] p q rest e le = unfold probe_lines in ground (arith, e)
  probe_lines-replay filter n (line ∷ lines) p q rest e le =
      step (λ m later. probe_lines-replay filter n lines m q rest later)
        (probe_lines-Goes filter n line lines p q rest e)
    where
      step :
          ((m : Probe fmt)
            → probe_lines fmt filter n lines m ≡ some (q, rest)
            → m.rows ≤ n
            → Replays n lines m q rest)
          → Goes filter n line lines p q rest
          → Replays n (line ∷ lines) p q rest
      step ih (stops b eq er) = rw (eq, er) (refl, le)
      step ih (reads m b em later) = replay-reads filter n line lines p m q rest b em (ih m later)

-- Whatever the lines hold, a probe that returns has put in `consumed` just what it took from the
-- reader, so that `consumed` before the rest is the text again from its first byte, and it has
-- counted at most `n` rows.
pub infer_schema_from_reader-replay :
    (fmt : Formats) (filter : LineFilter) (n : ℕ) (lines : LineReader) (q : Probe fmt)
    (rest : LineReader)
    → infer_schema_from_reader fmt filter n lines ≡ some (q, rest)
    → (q.consumed ++ text_of rest ≡ text_of lines) × (q.rows ≤ n)
unfolding infer_schema_from_reader
infer_schema_from_reader-replay fmt filter n lines q rest e =
    probe_lines-replay fmt filter n lines _ q rest e (omega arith)
