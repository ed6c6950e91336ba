-- ===== src/Ui/View.antt =====
-- The pure functions of ui/view.go: numbers with commas, sizes with a unit, and the cells of a
-- worker's bar. The decimal digits and the float64 arithmetic are arguments; a style is left out.
pub mod Format
pub mod Bar
use timberlake.Base.{
  ℕ, zero, suc, ◌+◌, ◌-◌, ◌*◌, ◌/◌, ◌%◌, ◌^◌, Bool, true, false, ◌&&◌, List, [], ◌∷◌, ◌++◌, Option,
  none, some, ltb, leb, ◌==◌, length, if◌then◌else◌,
}
use timberlake.Base.Words.{mul64}
use timberlake.Base.Int.{ℤ, pos, negsuc, ◌+ℤ◌, ◌-ℤ◌, ltb_ℤ}
use timberlake.Io.{Text, codes}

-- The loop of formatNumber, over what is left of the `len` digits.
unfoldable pub with_commas : ℕ → ℕ → Text → Text
with_commas len i [] = []
with_commas len i (c ∷ cs) =
    let rest = c ∷ with_commas len (suc i) cs in
    if ltb 0 i && ((len - i) % 3 == 0) then b',' ∷ rest else rest

unfoldable pub format_number : (ℕ → Text) → ℕ → Text
unfolding with_commas
format_number decimal n = with_commas (length (decimal n)) 0 (decimal n)

-- The divisor and the exponent of formatBytes after its loop, on fuel.
unfoldable pub scale : ℕ → ℕ → ℕ → ℕ → Option (ℕ × ℕ)
scale zero n div exp = none
scale (suc fuel) n div exp =
    let rest = scale fuel (n / 1024) (mul64 div 1024) (suc exp) in
    if leb 1024 n then rest else some (div, exp)

unfoldable pub byte_at : ℕ → Text → Option ℕ
byte_at i [] = none
byte_at zero (c ∷ cs) = some c
byte_at (suc i) (c ∷ cs) = byte_at i cs

-- "KMGTPE"[exp]; `none` where the index is out of range.
unfoldable pub unit_letter : ℕ → Option ℕ
unfolding byte_at
unit_letter exp = byte_at exp (codes "KMGTPE")

-- What is printed of a size: itself, or its quotient by a divisor, with a letter.
pub data Shown : Type 0 where
  plain : ℕ → Shown
  quotient : ℕ → ℕ → ℕ → Shown

abbrev pub with_letter : ℕ → ℕ → Option ℕ → Option Shown
with_letter bytes div none = none
with_letter bytes div (some letter) = some (quotient bytes div letter)

abbrev pub with_unit : ℕ → Option (ℕ × ℕ) → Option Shown
with_unit bytes none = none
with_unit bytes (some (div, exp)) = with_letter bytes div (unit_letter exp)

-- formatBytes of a size that is not negative; `none` for a panic, or without fuel.
unfoldable pub format_bytes : ℕ → ℕ → Option Shown
unfolding scale unit_letter
format_bytes fuel bytes =
    let scaled = scale fuel (bytes / 1024) 1024 0 in
    if ltb bytes 1024 then some (plain bytes) else with_unit bytes scaled

-- The lengths of the four segments of a bar.
pub record Segments : Type 0 where
  pub committed : ℤ
  pub uploading : ℤ
  pub buffered : ℤ
  pub empty : ℤ

abbrev pub max_ℤ : ℤ → ℤ → ℤ
max_ℤ a b = if ltb_ℤ a b then b else a

unfoldable pub clamp : ℤ → ℤ → ℤ
clamp total v = if ltb_ℤ v (pos 0) then pos 0 else if ltb_ℤ total v then total else v

unfoldable pub less : ℤ → ℤ → ℤ
less a b = a -ℤ b

-- bCells, cut to what the width leaves.
unfoldable pub buffered_cells : ℤ → ℤ → ℤ → ℤ → ℤ
unfolding less
buffered_cells width c u b = if ltb_ℤ width (c +ℤ u +ℤ b) then less (less width c) u else b

unfoldable pub at_least_one : ℤ → ℤ
at_least_one width = if ltb_ℤ width (pos 1) then pos 1 else width

module _ (cells : ℤ → ℤ → ℤ → ℤ) where
  -- After the clamps: `cells v total width` is int(float64(v) / float64(total) * float64(width)).
  unfoldable pub segments : ℤ → ℤ → ℤ → ℤ → ℤ → Segments
  unfolding less buffered_cells
  segments width total committed uploaded buffered =
      let c : ℤ = cells committed total width in
      let u : ℤ = less (cells uploaded total width) c in
      let b : ℤ = buffered_cells width c u (less (less (cells buffered total width) c) u) in
      record { committed = c; uploading = u; buffered = b; empty = less (less (less width c) u) b }

  -- renderBufferBar
  unfoldable pub render_buffer_bar : ℤ → ℤ → ℤ → ℤ → ℤ → Segments
  unfolding clamp at_least_one segments
  render_buffer_bar width committed uploaded buffered total =
      let w : ℤ = at_least_one width in
      let c : ℤ = clamp total committed in
      let u : ℤ = max_ℤ (clamp total uploaded) c in
      let b : ℤ = max_ℤ (clamp total buffered) u in
      if ltb_ℤ (pos 0) total
      then segments w total c u b
      else record { committed = pos 0; uploading = pos 0; buffered = pos 0; empty = w }
