-- ===== src/Vfs/Handles/Contracts.antt =====
-- What the handles promise of their bytes and their offsets.
use polars_logfmt.Prelude.{
  ℕ, zero, suc, ◌+◌, ◌-◌, ◌^◌, ◌≤◌, ◌<◌, min, List, [], ◌∷◌, ◌≡◌, sym, ap, ◌∙◌, some, length, take,
  drop, length-take, length-drop, arith,
}
use polars_logfmt.Text.{Bytes}
use polars_logfmt.Vfs.Contract.{Streams, Holds}
use polars_logfmt.Vfs.Handles.{
  Decoder, LocalSeekableZstdFile, local_zst_file, local_filled, add_u64,
}
use polars_logfmt.Vfs.Handles.Fill.{fill-from_start}

take-min {ℓ} : {A : Type ℓ} (n : ℕ) (xs : List A) → take (min n (length xs)) xs ≡ take n xs
take-min zero xs = ground arith
take-min (suc n) [] = ground arith
take-min (suc n) (x ∷ xs) =
    let e : min (suc n) (suc (length xs)) ≡ suc (min n (length xs)) = omega arith in
    rw e (ap (◌∷◌ x) (take-min n xs))

take-cut {ℓ} :
    {A : Type ℓ} (n pos : ℕ) (xs : List A)
    → take (min n (length xs - pos)) (drop pos xs) ≡ take n (drop pos xs)
take-cut n pos xs =
    ap (λ k. take (min n k) (drop pos xs)) (sym (length-drop pos xs)) ∙ take-min n (drop pos xs)

module _ {D : Type 0} (zst : Decoder D) (contents : Bytes)
    (streams : Streams zst.seek zst.read contents) where
  -- A zstd file holds what its decoder holds.
  pub local_zst_file-Holds : Holds (local_zst_file zst) contents
  unfolding local_zst_file
  local_zst_file-Holds = record {
    position = λ s. streams.position s.inner;
    seeks = λ to s.
        let (d, sought, at) = streams.seeks to s.inner in
        (record s { inner = d; pos = to }, ground (arith, sought), at);
    reads = λ n s.
        let pos : ℕ = streams.position s.inner in
        let (d, filled, at) = fill-from_start zst contents streams n s.inner in
        let s' : LocalSeekableZstdFile zst = record s {
          inner = d;
          pos = add_u64 s.pos (length (take n (drop pos contents)));
        } in
        (
          s',
          min n (length contents - pos),
          ap (local_filled zst s) filled ∙ ap (λ bs. (s', some bs)) (sym (take-cut n pos contents)),
          at,
          omega arith,
          λ some_n some_left. omega (arith, some_n, some_left),
        );
  }

  -- A local zstd file that stands inside its contents hands out all of them that its buffer has room for,
  -- however little its decoder hands out at a time, and its position is that of its decoder.
  pub local_zst_file-read :
      (n : ℕ) (s : LocalSeekableZstdFile zst)
      → s.pos ≡ streams.position s.inner
      → s.pos ≤ length contents
      → length contents < 2 ^ 64
      → (s' : LocalSeekableZstdFile zst) × ((local_zst_file zst).read n s
          ≡ (s', some (take n (drop s.pos contents))))
        × (s'.pos ≡ s.pos + min n (length contents - s.pos))
        × (s'.pos ≡ streams.position s'.inner)
  unfolding local_zst_file
  local_zst_file-read n s same inside small =
      let (d, filled, at) = fill-from_start zst contents streams n s.inner in
      let out : Bytes = take n (drop (streams.position s.inner) contents) in
      let len : length out ≡ min n (length contents - s.pos) = omega (
        arith,
        length-take n (drop (streams.position s.inner) contents),
        length-drop (streams.position s.inner) contents,
        same,
      ) in
      let moved : add_u64 s.pos (length out) ≡ s.pos + length out =
        omega (arith, len, inside, small) in
      (
        record s { inner = d; pos = add_u64 s.pos (length out) },
        ap (local_filled zst s) filled
            ∙ ap
                (λ p. (
                  record s { inner = d; pos = add_u64 s.pos (length out) },
                  some (take n (drop p contents)),
                ))
                (sym same),
        omega (arith, moved, len),
        omega (arith, moved, len, at, same),
      )
