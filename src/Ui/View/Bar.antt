-- ===== src/Ui/View/Bar.antt =====
-- The bar of a worker fills its width (Ui/View).
use timberlake.Base.{
  ℕ, ◌+◌, ◌-◌, ◌<◌, ◌≤◌, ◌≡◌, refl, sym, ap, ◌∙◌, inl, inr, true, arith, ltb, Bool-cases,
}
use timberlake.Base.Int.{ℤ, pos, negsuc, pos_part, ltb_ℤ}
use timberlake.Ui.View.{
  Segments, max_ℤ, clamp, less, buffered_cells, at_least_one, segments, render_buffer_bar,
}

-- int(float64(v) / float64(total) * float64(width)) for 0 <= v <= total and a positive width: it
-- does not decrease with v, since the operations of IEEE 754 round monotonically, and it is between
-- 0 and width.
pub record Rounds (cells : ℤ → ℤ → ℤ → ℤ) : Type 0 where
  pub cells_lem :
      (total width a b : ℕ)
      → 0 < total
      → 0 < width
      → a ≤ b
      → b ≤ total
      → (x : ℕ) × (y : ℕ) × (cells (pos a) (pos total) (pos width) ≡ pos x)
        × (cells (pos b) (pos total) (pos width) ≡ pos y)
        × (x ≤ y)
        × (y ≤ width)

less-pos : (x y : ℕ) → x ≤ y → less (pos y) (pos x) ≡ pos (y - x)
unfolding less
less-pos x y h = ground arith

-- Taking away twice.
less-less : (x y z : ℕ) → x ≤ y → y ≤ z → less (less (pos z) (pos x)) (pos (y - x)) ≡ pos (z - y)
less-less x y z h k =
    ap (λ t. less t (pos (y - x))) (less-pos x z (omega arith))
    ∙ less-pos (y - x) (z - x) (omega arith)
    ∙ ap pos (omega arith)

buffered_cells-pos :
    (width c u b : ℕ)
    → c + u + b ≤ width
    → buffered_cells (pos width) (pos c) (pos u) (pos b) ≡ pos b
unfolding buffered_cells
buffered_cells-pos width c u b h = ground arith

pos_inj : (a b : ℕ) → pos a ≡ pos b → a ≡ b
pos_inj a b h = cc

clamp-pos : (total : ℕ) (v : ℤ) → (k : ℕ) × (clamp (pos total) v ≡ pos k) × (k ≤ total)
unfolding clamp
clamp-pos total (negsuc n) = (0, ground arith, omega arith)
clamp-pos total (pos n) = elim (Bool-cases (ltb total n)) [
  | inl more ↦ (total, ground arith, omega arith)
  | inr less ↦ (n, ground arith, ground arith)
]

max-pos :
    (total a b : ℕ)
    → a ≤ total
    → b ≤ total
    → (m : ℕ) × (max_ℤ (pos a) (pos b) ≡ pos m) × (m ≤ total) × (b ≤ m)
max-pos total a b h k = elim (Bool-cases (ltb a b)) [
  | inl less ↦ (b, ground arith, k, omega arith)
  | inr more ↦ (a, ground arith, h, ground arith)
]

at_least_one-pos : (width : ℤ) → (w : ℕ) × (at_least_one width ≡ pos w) × (0 < w)
unfolding at_least_one
at_least_one-pos (negsuc n) = (1, ground arith, omega arith)
at_least_one-pos (pos n) = elim (Bool-cases (ltb n 1)) [
  | inl small ↦ (1, ground arith, omega arith)
  | inr large ↦ (n, ground arith, ground arith)
]

positive-pos : (total : ℤ) → ltb_ℤ (pos 0) total ≡ true → (t : ℕ) × (total ≡ pos t) × (0 < t)
positive-pos (negsuc n) h = ground arith
positive-pos (pos n) h = (n, refl, ground arith)

-- The lengths are numbers that add up to a width.
abbrev pub Fills : Segments → ℕ → Type 0
Fills s width =
    (c : ℕ) × (u : ℕ) × (b : ℕ) × (e : ℕ) × (s
      ≡ record { committed = pos c; uploading = pos u; buffered = pos b; empty = pos e })
    × (c + u + b + e ≡ width)

-- From the three lengths before the differences.
segments-Fills :
    (cells : ℤ → ℤ → ℤ → ℤ) (total c u b : ℤ) (width x y z : ℕ)
    → cells c total (pos width) ≡ pos x
    → cells u total (pos width) ≡ pos y
    → cells b total (pos width) ≡ pos z
    → x ≤ y
    → y ≤ z
    → z ≤ width
    → Fills (segments cells (pos width) total c u b) width
unfolding segments
segments-Fills cells total c u b width x y z cx uy bz xy yz zw = (
  x,
  y - x,
  z - y,
  width - z,
  rw
      (
        cx,
        uy,
        bz,
        less-pos x y xy,
        less-less x y z xy yz,
        buffered_cells-pos width x (y - x) (z - y) (omega arith),
        less-less x y width xy (omega arith),
        less-pos (z - y) (width - y) (omega arith),
      )
      (ap
        (λ t. record {
          committed = pos x;
          uploading = pos (y - x);
          buffered = pos (z - y);
          empty = pos t;
        })
        (omega arith)),
  omega arith,
)

module _ (cells : ℤ → ℤ → ℤ → ℤ) (rounds : Rounds cells) where
  positive-Fills :
      (width total : ℕ) (committed uploaded buffered : ℤ)
      → 0 < width
      → 0 < total
      → Fills
          (segments cells
            (pos width)
            (pos total)
            (clamp (pos total) committed)
            (max_ℤ (clamp (pos total) uploaded) (clamp (pos total) committed))
            (max_ℤ
              (clamp (pos total) buffered)
              (max_ℤ (clamp (pos total) uploaded) (clamp (pos total) committed))))
          width
  positive-Fills width total committed uploaded buffered w t =
      let (c, c_is, c_le) = clamp-pos total committed in
      let (u₀, u₀_is, u₀_le) = clamp-pos total uploaded in
      let (b₀, b₀_is, b₀_le) = clamp-pos total buffered in
      let (u, u_is, u_le, c_u) = max-pos total u₀ c u₀_le c_le in
      let (b, b_is, b_le, u_b) = max-pos total b₀ u b₀_le u_le in
      let (x, y, x_is, y_is, x_y, y_w) = rounds.cells_lem total width c u t w c_u u_le in
      let (y', z, y'_is, z_is, y'_z, z_w) = rounds.cells_lem total width u b t w u_b b_le in
      let same : y' ≡ y = pos_inj y' y (sym y'_is ∙ y_is) in
      rw (c_is, u₀_is, b₀_is, u_is, b_is)
        (segments-Fills cells (pos total) (pos c) (pos u) (pos b) width x y z x_is y_is z_is x_y
          (omega arith) z_w)

  -- Whatever the numbers, and for a rounding as IEEE 754 has it: no segment of the bar has a
  -- negative length, for which strings.Repeat would panic, and together they fill the width, or one
  -- cell if that is not positive.
  pub render_buffer_bar-Fills :
      (width committed uploaded buffered total : ℤ)
      → Fills
          (render_buffer_bar cells width committed uploaded buffered total)
          (pos_part (at_least_one width))
  unfolding render_buffer_bar
  render_buffer_bar-Fills width committed uploaded buffered total =
      let (w, w_is, w_pos) = at_least_one-pos width in
      elim (Bool-cases (ltb_ℤ (pos 0) total)) [
        | inr none_yet ↦ rw (none_yet, w_is) (0, 0, 0, w, refl, omega arith)
        | inl some_yet ↦
            let (t, t_is, t_pos) = positive-pos total some_yet in
            rw (some_yet, w_is, t_is) (positive-Fills w t committed uploaded buffered w_pos t_pos)
      ]
