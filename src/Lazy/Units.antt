-- ===== src/Lazy/Units.antt =====
-- `UnitsReader` of polars-logfmt/src/lazy.rs: the units of a source in order, as one stream.
pub mod Stream
use polars_logfmt.Prelude.{
  ℕ, zero, suc, ◌+◌, min, Bool, true, false, [], Option, none, some, ◌==◌, if◌then◌else◌, length,
  take, drop,
}
use polars_logfmt.Text.{Bytes}

-- `UnitSource::read_unit`: `none` is an I/O error, `some none` is `false`, and `some (some bytes)` is
-- `true` with `bytes` appended to `dst`. The source itself is not in the repository.
abbrev pub UnitSource : Type 0
UnitSource = ℕ → Option (Option Bytes)

pub record UnitsReader : Type 0 where
  pub next : ℕ
  pub buf : Bytes
  pub pos : ℕ

abbrev pub new : UnitsReader
new = record { next = 0; buf = []; pos = 0 }

module _ (read_unit : UnitSource) where
  -- One unit into the buffer: `false` says that there was none.
  pub read_next : UnitsReader → Option (Option Bytes) → UnitsReader × Option Bool
  read_next r none = (record r { buf = []; pos = 0 }, none)
  read_next r (some none) = (record r { buf = []; pos = 0 }, some false)
  read_next r (some (some bytes)) = (record { next = r.next + 1; buf = bytes; pos = 0 }, some true)

  -- The loop. Its turns are the units that are empty, and one more; `none` in the result is an error,
  -- or too little fuel.
  pub fill : ℕ → UnitsReader → UnitsReader × Option Bytes
  fill zero r = (r, none)
  fill (suc fuel) r = elim (r.pos == length r.buf) [
    | false ↦ (r, some (drop r.pos r.buf))
    | true ↦
        let (r', more) = read_next r (read_unit r.next) in
        elim more [
          | none ↦ (r', none)
          | some false ↦ (r', some (drop r'.pos r'.buf))
          | some true ↦ fill fuel r'
        ]
  ]

  unfoldable pub fill_buf : ℕ → UnitsReader → UnitsReader × Option Bytes
  unfolding read_next fill
  fill_buf fuel r = fill fuel r

  unfoldable pub consume : ℕ → UnitsReader → UnitsReader
  consume amt r = record r { pos = min (r.pos + amt) (length r.buf) }

  abbrev hand_out : ℕ → UnitsReader × Option Bytes → UnitsReader × Option Bytes
  hand_out out_len (r, none) = (r, none)
  hand_out out_len (r, some available) =
      let n : ℕ = min (length available) out_len in (consume n r, some (take n available))

  -- `read` into a buffer of `out_len` bytes.
  unfoldable pub read : ℕ → ℕ → UnitsReader → UnitsReader × Option Bytes
  unfolding fill_buf consume
  read fuel out_len r = hand_out out_len (fill_buf fuel r)
