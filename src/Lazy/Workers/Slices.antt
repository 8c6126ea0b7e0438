-- ===== src/Lazy/Workers/Slices.antt =====
-- The slices of the workers are the frames.
use native.Mathlib.Nat.{add-zero, zero-add, zero-mul, add-mul, one-mul}
use polars_logfmt.Prelude.{
  ℕ, zero, suc, ◌+◌, ◌-◌, ◌*◌, ◌/◌, ◌≤◌, ◌<◌, min, List, [], ◌∷◌, ◌++◌, ◌≡◌, refl, sym, ap, subst,
  ◌∙◌, some, leb, ltb, length, take, drop, take-append-drop, drop-add, arith, Bool-cases, inl, inr,
}
use polars_logfmt.Lazy.Workers.{worker_slices_from, worker_slices, concat}

-- Rounding up leaves no frame over.
chunk_size-covers : (w len : ℕ) → 0 < w → w ≤ 8 → len ≤ w * ((len + w - 1) / w)
chunk_size-covers zero len pos le = absurd (omega (arith, pos))
chunk_size-covers (suc zero) len pos le = omega arith
chunk_size-covers (suc (suc zero)) len pos le = omega arith
chunk_size-covers (suc (suc (suc zero))) len pos le = omega arith
chunk_size-covers (suc (suc (suc (suc zero)))) len pos le = omega arith
chunk_size-covers (suc (suc (suc (suc (suc zero))))) len pos le = omega arith
chunk_size-covers (suc (suc (suc (suc (suc (suc zero)))))) len pos le = omega arith
chunk_size-covers (suc (suc (suc (suc (suc (suc (suc zero))))))) len pos le = omega arith
chunk_size-covers (suc (suc (suc (suc (suc (suc (suc (suc zero)))))))) len pos le = omega arith
chunk_size-covers (suc (suc (suc (suc (suc (suc (suc (suc (suc w))))))))) len pos le =
    absurd (omega (arith, le))

module _ {ℓ} {A : Type ℓ} where
  drop-all : (n : ℕ) (xs : List A) → length xs ≤ n → drop n xs ≡ []
  drop-all zero [] le = refl
  drop-all zero (x ∷ xs) le = absurd (omega (arith, le))
  drop-all (suc n) [] le = refl
  drop-all (suc n) (x ∷ xs) le = drop-all n xs (omega (arith, le))

  drop-min : (n : ℕ) (xs : List A) → drop (min n (length xs)) xs ≡ drop n xs
  drop-min n xs = elim (Bool-cases (leb n (length xs))) [
    | inl le ↦ let same : min n (length xs) ≡ n = ground (arith, le) in rw same refl
    | inr gt ↦
        let all : length xs ≤ n = ground (arith, gt) in
        let same : min n (length xs) ≡ length xs = omega (arith, all) in
        rw same (drop-all (length xs) xs (omega arith) ∙ sym (drop-all n xs all))
  ]

  -- A slice and what follows it.
  slice-append :
      (start chunk : ℕ) (xs : List A)
      → start ≤ length xs
      → take (min (start + chunk) (length xs) - start) (drop start xs) ++ drop (start + chunk) xs
        ≡ drop start xs
  slice-append start chunk xs le =
      let end : ℕ = min (start + chunk) (length xs) in
      let ends : start + (end - start) ≡ end = omega (arith, le) in
      let rest : drop (start + chunk) xs ≡ drop (end - start) (drop start xs) =
        sym (drop-min (start + chunk) xs)
        ∙ ap (λ k. drop k xs) (sym ends)
        ∙ sym (drop-add start (end - start) xs) in
      ap (λ d. take (end - start) (drop start xs) ++ d) rest
      ∙ take-append-drop (end - start) (drop start xs)

  worker_slices_from-concat :
      (n w chunk : ℕ) (xs : List A)
      → length xs ≤ (w + n) * chunk
      → concat (worker_slices_from n w chunk xs) ≡ drop (w * chunk) xs
  unfolding worker_slices_from
  worker_slices_from-concat zero w chunk xs le =
      sym (drop-all (w * chunk) xs (omega (arith, le, add-zero w)))
  worker_slices_from-concat (suc n) w chunk xs le =
      let shift : w + suc n ≡ w + 1 + n = omega arith in
      let next : (w + 1) * chunk ≡ w * chunk + chunk =
        add-mul w 1 chunk ∙ ap (λ k. w * chunk + k) (one-mul chunk) in
      let ih : concat (worker_slices_from n (w + 1) chunk xs) ≡ drop (w * chunk + chunk) xs =
        worker_slices_from-concat n (w + 1) chunk xs (subst (λ k. length xs ≤ k * chunk) shift le)
        ∙ ap (λ k. drop k xs) next in
      elim (Bool-cases (ltb (w * chunk) (length xs))) [
        | inl lt ↦
            let le : w * chunk ≤ length xs = ground (arith, lt) in
            ground (arith, lt, ih, slice-append (w * chunk) chunk xs le)
        | inr ge ↦
            let le : length xs ≤ w * chunk = ground (arith, ge) in
            ground (
              arith,
              ge,
              ih,
              drop-all (w * chunk) xs le,
              drop-all (w * chunk + chunk) xs (omega (arith, le)),
            )
      ]

  worker_slices_from-length :
      (n w chunk : ℕ) (xs : List A) → length (worker_slices_from n w chunk xs) ≤ n
  unfolding worker_slices_from
  worker_slices_from-length zero w chunk xs = omega arith
  worker_slices_from-length (suc n) w chunk xs =
      ground (arith, worker_slices_from-length n (w + 1) chunk xs)

-- Unless there is no frame or no thread, the slices of the workers, one after the other in the order
-- of the workers' numbers, are the frames: each frame is read by one worker, once, and in its place.
pub worker_slices-concat {ℓ} :
    {A : Type ℓ} (max_inflight : ℕ) (frame_vec : List A)
    → 0 < max_inflight
    → 0 < length frame_vec
    → (slices : List (List A)) × (worker_slices max_inflight frame_vec ≡ some slices)
      × (concat slices ≡ frame_vec)
      × (length slices ≤ 8)
unfolding worker_slices
worker_slices-concat max_inflight frame_vec threads frames =
    let len : ℕ = length frame_vec in
    let workers : ℕ = min 8 (min max_inflight len) in
    let chunk : ℕ = (len + workers - 1) / workers in
    (
      worker_slices_from workers 0 chunk frame_vec,
      ground (arith, threads, frames),
      worker_slices_from-concat workers 0 chunk frame_vec (
            subst (λ k. len ≤ k * chunk) (sym (zero-add workers))
              (chunk_size-covers workers len (omega (arith, threads, frames)) (omega arith)))
          ∙ ap (λ k. drop k frame_vec) (zero-mul chunk),
      omega (arith, worker_slices_from-length workers 0 chunk frame_vec),
    )
