-- ===== src/Vfs/Contract.antt =====
-- What the scan relies on in a file: the documented behaviour of `Seek` and `Read`, short reads
-- included.
use polars_logfmt.Prelude.{
  ℕ, ◌+◌, ◌-◌, ◌≤◌, ◌<◌, min, Bool, true, ◌≡◌, refl, Option, some, length, take, drop, arith,
}
use polars_logfmt.Text.{Bytes}
use polars_logfmt.Vfs.{SeekableVfsFile, local_file}

-- A `Read` and `Seek` over the bytes `contents`.
pub record Streams {S : Type 0} (seek : ℕ → S → S × Bool) (read : ℕ → S → S × Option Bytes)
    (contents : Bytes) : Type 0 where
  pub position : S → ℕ
  pub seeks : (to : ℕ) (s : S) → (s' : S) × (seek to s ≡ (s', true)) × (position s' ≡ to)
  pub reads :
      (n : ℕ) (s : S)
      → (s' : S) × (m : ℕ) × (read n s ≡ (s', some (take m (drop (position s) contents))))
        × (position s' ≡ position s + m)
        × (m ≤ min n (length contents - position s))
        × (0 < n → position s < length contents → 0 < m)

abbrev pub Holds : {S : Type 0} → SeekableVfsFile S → Bytes → Type 0
Holds file contents = Streams file.seek file.read contents

-- A local file holds its contents, however short its reads are, if they are not empty.
unfoldable pub local_file-Holds :
    (contents : Bytes) (at_most : ℕ → ℕ → ℕ)
    → ((pos n : ℕ) → 0 < n → 0 < at_most pos n)
    → Holds (local_file contents at_most) contents
unfolding local_file
local_file-Holds contents at_most some_bytes = record {
  position = λ s. s;
  seeks = λ to s. (to, refl, refl);
  reads = λ n s.
      let m : ℕ = min (at_most s n) (min n (length contents - s)) in
      (s + m, m, refl, refl, omega arith, λ pos lt. omega (arith, some_bytes s n pos, lt, pos));
}
