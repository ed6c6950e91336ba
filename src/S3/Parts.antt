-- ===== src/S3/Parts.antt =====
-- The parts of a file in s3.go: partBytes and the part count in plain arithmetic, where no int64 or
-- int32 overflows.
use Prim.Native.Nat.{min}
use timberlake.Base.{
  ℕ, zero, suc, ◌+◌, ◌-◌, ◌*◌, ◌/◌, ◌%◌, ◌^◌, ◌≤◌, ◌<◌, ◌≡◌, refl, sym, ap, ◌∙◌, List, [], ◌∷◌,
  ◌++◌, flatten, arith, length, take, drop, length-drop,
}
use native.Mathlib.Nat.{zero-mul}
use timberlake.Base.Slices.{drop-drop, take_all, take-min, take-take-drop}
use timberlake.S3.Client.{Client, part_start, part_bytes, total_parts}

-- Sizes for which no expression on part numbers or offsets overflows.
pub record Fits (s : Client) (size : ℕ) : Type 0 where
  pub positive : 0 < s.part_size
  pub no_wrap : size + s.part_size < 2 ^ 63
  pub few : size / s.part_size < 2 ^ 31 - 2

-- The number of parts, with no conversion.
abbrev pub count : Client → ℕ → ℕ
count s size = (size + s.part_size - 1) / s.part_size

module _ (s : Client) (size : ℕ) (fits : Fits s size) where
  div-count : count s size ≤ size / s.part_size + 1
  div-count = grind (arith, fits.positive)

  quotient :
      (size + s.part_size - 1) % s.part_size + s.part_size * count s size ≡ size + s.part_size - 1
  quotient = grind (arith, fits.positive)

  pub count-lt : count s size < 2 ^ 31 - 1
  count-lt = omega (arith, div-count, fits.few)

  -- What total_parts computes before the conversion.
  sum_plain : (size + s.part_size) % 2 ^ 64 + 2 ^ 64 - 1 ≡ 2 ^ 64 + (size + s.part_size - 1)
  sum_plain = omega (arith, fits.positive, fits.no_wrap)

  pub total_parts-count : total_parts s size ≡ count s size
  unfolding total_parts
  total_parts-count = ground (arith, sum_plain, count-lt, fits.positive, fits.no_wrap)

  pub start-lt : (i : ℕ) → i < count s size → i * s.part_size < size
  start-lt i h = grind (arith, quotient, fits.positive)

  pub count-covers : size ≤ count s size * s.part_size
  count-covers = grind (arith, quotient, fits.positive)

  pub part_start-eq : (i : ℕ) → i < count s size → part_start s (suc i) ≡ i * s.part_size
  unfolding part_start
  part_start-eq i h = ground (arith, start-lt i h, count-lt, fits.no_wrap)

  -- Part i + 1 ends at the next start or at the end of the file.
  pub part_bytes-eq :
      (i : ℕ)
      → i < count s size
      → part_bytes s (suc i) size ≡ min s.part_size (size - i * s.part_size)
  unfolding part_bytes
  part_bytes-eq i h = rw (part_start-eq i h) (ground (arith, start-lt i h, fits.no_wrap))

-- The content of part i + 1, and of k parts from there.
abbrev pub chunk : ℕ → List ℕ → ℕ → List ℕ
chunk size content i = take size (drop (i * size) content)

abbrev pub chunks : ℕ → List ℕ → ℕ → ℕ → List (List ℕ)
chunks size content i zero = []
chunks size content i (suc k) = chunk size content i ∷ chunks size content (suc i) k

flatten-chunks :
    (size : ℕ) (content : List ℕ) (i k : ℕ)
    → flatten (chunks size content i k) ≡ take (k * size) (drop (i * size) content)
unfolding flatten
flatten-chunks size content i zero = rw zero-mul
flatten-chunks size content i (suc k) =
    ap (◌++◌ (chunk size content i)) (flatten-chunks size content (suc i) k)
    ∙ ap (λ t. chunk size content i ++ take (k * size) t)
        (sym (drop-drop (i * size) size (suc i * size) content (grind arith)))
    ∙ take-take-drop size (k * size) (suc k * size) (drop (i * size) content) (grind arith)

module _ (s : Client) (content : List ℕ) (fits : Fits s (length content)) where
  pub parts-tile : flatten (chunks s.part_size content 0 (count s (length content))) ≡ content
  parts-tile =
      flatten-chunks s.part_size content 0 (count s (length content))
      ∙ rw zero-mul (take_all _ content (count-covers s (length content) fits))

  -- partBytes bytes from the start of a part are the part.
  pub take-part :
      (i : ℕ)
      → i < count s (length content)
      → take (part_bytes s (suc i) (length content)) (drop (part_start s (suc i)) content)
        ≡ chunk s.part_size content i
  take-part i h =
      rw (part_bytes-eq s (length content) fits i h, part_start-eq s (length content) fits i h)
        (take-min s.part_size (drop (i * s.part_size) content) _
          (length-drop (i * s.part_size) content))

  -- What the goroutines read for parts i + 1, ..., i + k.
  abbrev pub part_reads : ℕ → ℕ → List (List ℕ)
  part_reads i zero = []
  part_reads i (suc k) =
      take (part_bytes s (suc i) (length content)) (drop (part_start s (suc i)) content)
      ∷ part_reads (suc i) k

  part_reads-chunks :
      (i k : ℕ) → i + k ≤ count s (length content) → part_reads i k ≡ chunks s.part_size content i k
  part_reads-chunks i zero h = refl
  part_reads-chunks i (suc k) h =
      rw (take-part i (omega arith), part_reads-chunks (suc i) k (omega arith)) refl

  -- Reading partBytes bytes from the start of each of the parts 1, ..., total gives the file, with no
  -- gap and no overlap, if no expression on part numbers and offsets overflows.
  pub parts-cover : flatten (part_reads 0 (total_parts s (length content))) ≡ content
  parts-cover =
      ap (λ n. flatten (part_reads 0 n)) (total_parts-count s (length content) fits)
      ∙ ap flatten (part_reads-chunks 0 (count s (length content)) (omega arith))
      ∙ parts-tile
