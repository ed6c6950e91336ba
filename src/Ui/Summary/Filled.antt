-- ===== src/Ui/Summary/Filled.antt =====
-- The breakout bar fills its width (Ui/Summary).
use timberlake.Base.{ℕ, ◌+◌, ◌-◌, ◌*◌, ◌≤◌, ◌<◌, ◌^◌, ◌≡◌, refl, ap, true, some, arith}
use native.Mathlib.Decide.{dec_lt}
use timberlake.Base.Int.{ℤ, pos}
use timberlake.Base.Words.{lt64}
use timberlake.Ui.Model.{Model}
use timberlake.Ui.Summary.{Breakout, failed_cells, rest_cells, segments_of, breakout_bar}

-- int(float64(n) / float64(total) * 36) for 0 <= n <= total < 2^40: no more than the exact quotient,
-- since that is a whole number or further from the next one than the two roundings of IEEE 754 go.
abbrev pub RoundsDown : (ℕ → ℕ → ℤ) → Type 0
RoundsDown cells =
    (n total : ℕ)
    → 0 < total
    → n ≤ total
    → total < 2 ^ 40
    → (k : ℕ) × (cells n total ≡ pos k) × (k * total ≤ n * 36)

-- Shares of the width, multiplied out, against their sum.
shares-not : (n u s f total : ℕ) → n ≤ u + s + f → n * total ≤ u * total + s * total + f * total
shares-not n u s f total h =
    let e : u + s + f ≡ n + (u + s + f - n) = omega arith in
    omega (arith, ap (λ (t : ℕ). t * total) e)

-- Shares of counts that add up to no more than a total have no more cells than the width, and fewer
-- if the counts add up to less.
shares-le :
    (u s f a b c total : ℕ)
    → u * total ≤ a * 36
    → s * total ≤ b * 36
    → f * total ≤ c * 36
    → a + b + c ≤ total
    → 0 < total
    → u + s + f ≤ 36
shares-le u s f a b c total hu hs hf h z = elim (dec_lt 36 (u + s + f)) [
  | no k ↦ omega arith
  | yes k ↦ absurd (omega (arith, shares-not 37 u s f total k))
]

shares-lt :
    (u s f a b c total : ℕ)
    → u * total ≤ a * 36
    → s * total ≤ b * 36
    → f * total ≤ c * 36
    → a + b + c < total
    → u + s + f < 36
shares-lt u s f a b c total hu hs hf h = elim (dec_lt (u + s + f) 36) [
  | yes k ↦ k
  | no k ↦ absurd (omega (arith, shares-not 36 u s f total (omega arith)))
]

failed_cells-pos : (u s f : ℕ) → u + s + f ≤ 36 → failed_cells (pos u) (pos s) (pos f) ≡ pos f
unfolding failed_cells
failed_cells-pos u s f h = ground arith

rest_cells-pos :
    (u s f : ℕ) → u + s + f ≤ 36 → rest_cells (pos u) (pos s) (pos f) ≡ pos (36 - (u + s + f))
unfolding rest_cells
rest_cells-pos u s f h = ground arith

-- The segments are numbers that add up to 36; each of the first three is no more than its share, and
-- the last is not empty if not all files have ended.
abbrev pub Fills : (uploaded skipped failed total : ℕ) → Breakout → Type 0
Fills uploaded skipped failed total bar =
    (u : ℕ) × (s : ℕ) × (f : ℕ) × (r : ℕ) × (bar
      ≡ record { uploaded = pos u; skipped = pos s; failed = pos f; rest = pos r })
    × (u + s + f + r ≡ 36)
    × (u * total ≤ uploaded * 36)
    × (s * total ≤ skipped * 36)
    × (f * total ≤ failed * 36)
    × (uploaded + skipped + failed < total → 0 < r)

module _ (cells : ℕ → ℕ → ℤ) (rounds : RoundsDown cells) where
  segments_of-Fills :
      (uploaded skipped failed total : ℕ)
      → 0 < total
      → total < 2 ^ 40
      → uploaded + skipped + failed ≤ total
      → Fills uploaded skipped failed total (segments_of cells uploaded skipped failed total)
  unfolding segments_of
  segments_of-Fills uploaded skipped failed total z b h =
      let (u, u_is, u_le) = rounds uploaded total z (omega arith) b in
      let (s, s_is, s_le) = rounds skipped total z (omega arith) b in
      let (f, f_is, f_le) = rounds failed total z (omega arith) b in
      let few = shares-le u s f uploaded skipped failed total u_le s_le f_le h z in
      (
        u,
        s,
        f,
        36 - (u + s + f),
        rw (u_is, s_is, f_is, failed_cells-pos u s f few, rest_cells-pos u s f few) refl,
        omega arith,
        u_le,
        s_le,
        f_le,
        (λ less. omega (arith, shares-lt u s f uploaded skipped failed total u_le s_le f_le less)),
      )

  -- The breakout bar of a run of at least one file and fewer than 2^40, of which no more have ended
  -- than there are: its four segments fill its 36 cells, the coloured ones are no longer than the
  -- share of their files, and something of the remainder shows as long as not every file has ended.
  pub breakout_bar-Fills :
      {F : Type 0} (m : Model F)
      → 0 < m.total_files
      → m.total_files < 2 ^ 40
      → m.uploaded_files + m.skipped_files + m.failed_files ≤ m.total_files
      → (bar : Breakout) × (breakout_bar cells m ≡ some bar)
        × Fills m.uploaded_files m.skipped_files m.failed_files m.total_files bar
  unfolding breakout_bar
  breakout_bar-Fills m z b h =
      let there : lt64 0 m.total_files ≡ true = ground arith in
      (
        segments_of cells m.uploaded_files m.skipped_files m.failed_files m.total_files,
        rw there refl,
        segments_of-Fills m.uploaded_files m.skipped_files m.failed_files m.total_files z b h,
      )
