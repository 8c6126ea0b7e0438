-- ===== src/Lazy/Workers.antt =====
-- `_parallel_batch` of polars-logfmt/src/lazy/lazy_logfmt_reader.rs: how the frames are dealt out to the
-- workers, whose results are put together in the order of their numbers.
pub mod Slices
pub mod Source
use polars_logfmt.Prelude.{
  ℕ, zero, suc, ◌+◌, ◌-◌, ◌*◌, ◌/◌, min, Bool, true, false, List, [], ◌∷◌, ◌++◌, Option, none, some,
  ltb, ◌==◌, if◌then◌else◌, length, take, drop,
}

-- `max_inflight`: the threads asked for, or those of the pool.
unfoldable pub max_inflight : Option ℕ → ℕ → ℕ
max_inflight (some n_threads) current_num_threads = n_threads
max_inflight none current_num_threads = current_num_threads

module _ {ℓ} {A : Type ℓ} where
  -- The workers from `w`, `n` of them: `frame_vec[start..end_idx]` for each whose start is in range.
  pub worker_slices_from : ℕ → ℕ → ℕ → List A → List (List A)
  worker_slices_from zero w chunk_size frame_vec = []
  worker_slices_from (suc n) w chunk_size frame_vec =
      let start : ℕ = w * chunk_size in
      let end_idx : ℕ = min (start + chunk_size) (length frame_vec) in
      let rest : List (List A) = worker_slices_from n (w + 1) chunk_size frame_vec in
      if ltb start (length frame_vec)
      then take (end_idx - start) (drop start frame_vec) ∷ rest
      else rest

  -- `none` is the early return, after which the scan goes on with one thread.
  unfoldable pub worker_slices : ℕ → List A → Option (List (List A))
  unfolding worker_slices_from
  worker_slices max_inflight' frame_vec =
      let frames_len : ℕ = length frame_vec in
      let workers : ℕ = min 8 (min max_inflight' frames_len) in
      let chunk_size : ℕ = (frames_len + workers - 1) / workers in
      if frames_len == 0
      then none
      else if min max_inflight' frames_len == 0
      then none
      else some (worker_slices_from workers 0 chunk_size frame_vec)

  abbrev pub concat : List (List A) → List A
  concat [] = []
  concat (xs ∷ xss) = xs ++ concat xss
