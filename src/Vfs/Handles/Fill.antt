-- ===== src/Vfs/Handles/Fill.antt =====
-- The read loop of the zstd files.
use polars_logfmt.Prelude.{
  ℕ, zero, suc, ◌+◌, ◌-◌, ◌≤◌, ◌<◌, min, true, false, inl, inr, List, [], ◌∷◌, ◌++◌, ◌≡◌, refl, sym,
  ap, ◌∙◌, some, ltb, ◌==◌, length, take, drop, length-take, length-drop, take-add, drop-add,
  append-nil, append_assoc, length-append, arith, Bool-cases,
}
use polars_logfmt.Text.{Bytes}
use polars_logfmt.Vfs.Contract.{Streams}
use polars_logfmt.Vfs.Handles.{Decoder, fill}

take-of_none {ℓ} : {A : Type ℓ} (n : ℕ) (xs : List A) → length xs ≡ 0 → take n xs ≡ []
take-of_none zero xs none_left = refl
take-of_none (suc n) [] none_left = refl
take-of_none (suc n) (x ∷ xs) none_left = absurd (omega (arith, none_left))

take-step :
    (got contents : Bytes) (pos m n : ℕ)
    → m ≤ n
    → (got ++ take m (drop pos contents)) ++ take (n - m) (drop (pos + m) contents)
      ≡ got ++ take n (drop pos contents)
take-step got contents pos m n le =
    let all : m + (n - m) ≡ n = omega (arith, le) in
    append_assoc got (take m (drop pos contents)) (take (n - m) (drop (pos + m) contents))
    ∙ ap (λ r. got ++ (take m (drop pos contents) ++ take (n - m) r))
        (sym (drop-add pos m contents))
    ∙ ap (λ r. got ++ r) (take-add m (n - m) (drop pos contents))
    ∙ ap (λ k. got ++ take k (drop pos contents)) all

module _ {D : Type 0} (zst : Decoder D) (fuel want : ℕ) (got : Bytes) (d : D) where
  fill-full : ltb (length got) want ≡ false → fill zst (suc fuel) want got d ≡ (d, some got)
  unfolding fill
  fill-full full = ground arith

  module _ (d' : D) (bs : Bytes) (wanting : ltb (length got) want ≡ true)
      (reads : zst.read (want - length got) d ≡ (d', some bs)) where
    fill-end : (length bs == 0) ≡ true → fill zst (suc fuel) want got d ≡ (d', some got)
    unfolding fill
    fill-end nothing = ground arith

    fill-more :
        (length bs == 0) ≡ false
        → fill zst (suc fuel) want got d ≡ fill zst fuel want (got ++ bs) d'
    unfolding fill
    fill-more something = ground arith

module _ {D : Type 0} (zst : Decoder D) (contents : Bytes)
    (streams : Streams zst.seek zst.read contents) where
  -- What is wanted, or all that is left.
  pub fill-whole :
      (fuel want : ℕ) (got : Bytes) (d : D)
      → want - length got < fuel
      → (d' : D) × (fill zst fuel want got d
          ≡ (d', some (got ++ take (want - length got) (drop (streams.position d) contents))))
        × (streams.position d'
            ≡ streams.position d + min (want - length got) (length contents - streams.position d))
  fill-whole zero want got d enough = absurd (omega (arith, enough))
  fill-whole (suc fuel) want got d enough = elim (Bool-cases (ltb (length got) want)) [
    | inr full ↦
        let none_wanted : want - length got ≡ 0 = ground (arith, full) in
        (
          d,
          fill-full zst fuel want got d full
              ∙ ap (λ g. (d, some g))
                  (sym (append-nil got)
                    ∙ ap (λ n. got ++ take n (drop (streams.position d) contents))
                        (sym none_wanted)),
          omega (arith, none_wanted),
        )
    | inl wanting ↦
        let (d1, m, reads, at, le, some_m) = streams.reads (want - length got) d in
        let rest : Bytes = drop (streams.position d) contents in
        let wanted : 0 < want - length got = ground (arith, wanting) in
        let len_rest : length rest ≡ length contents - streams.position d =
          length-drop (streams.position d) contents in
        let len : length (take m rest) ≡ m = omega (arith, length-take m rest, len_rest, le) in
        elim (Bool-cases (length (take m rest) == 0)) [
          | inl nothing ↦
              let no_m : m ≡ 0 = ground (arith, nothing, len) in
              let at_end : length contents ≤ streams.position d =
                ground (arith, some_m wanted, no_m) in
              let nil : take (want - length got) rest ≡ [] =
                take-of_none (want - length got) rest (omega (arith, len_rest, at_end)) in
              (
                d1,
                fill-end zst fuel want got d d1 (take m rest) wanting reads nothing
                    ∙ ap (λ g. (d1, some g)) (sym (append-nil got) ∙ ap (λ g. got ++ g) (sym nil)),
                omega (arith, at, no_m, at_end),
              )
          | inr something ↦
              let got' : Bytes = got ++ take m rest in
              let len' : length got' ≡ length got + m =
                omega (arith, length-append got (take m rest), len) in
              let pos_m : 0 < m = ground (arith, something, len) in
              let (d', filled, at') =
                fill-whole fuel want got' d1 (omega (arith, enough, len', pos_m, wanted)) in
              let left : want - length got' ≡ want - length got - m = omega (arith, len') in
              let same : got' ++ take (want - length got') (drop (streams.position d1) contents)
                  ≡ got ++ take (want - length got) rest =
                ap (λ n. got' ++ take n (drop (streams.position d1) contents)) left
                ∙ ap (λ p. got' ++ take (want - length got - m) (drop p contents)) at
                ∙ take-step got contents (streams.position d) m (want - length got)
                    (omega (arith, le)) in
              (
                d',
                fill-more zst fuel want got d d1 (take m rest) wanting reads something
                    ∙ filled
                    ∙ ap (λ g. (d', some g)) same,
                omega (arith, at', at, len', le),
              )
        ]
  ]

  -- From an empty buffer of `n` bytes.
  pub fill-from_start :
      (n : ℕ) (d : D)
      → (d' : D) × (fill zst (suc n) n [] d
          ≡ (d', some (take n (drop (streams.position d) contents))))
        × (streams.position d' ≡ streams.position d + min n (length contents - streams.position d))
  fill-from_start n d =
      let all : n - 0 ≡ n = omega arith in
      let (d', filled, at) = fill-whole (suc n) n [] d (omega arith) in
      (
        d',
        filled ∙ ap (λ k. (d', some (take k (drop (streams.position d) contents)))) all,
        omega (arith, at),
      )
