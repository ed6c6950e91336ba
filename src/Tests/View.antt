-- ===== src/Tests/View.antt =====
-- A number, a size and a bar; a transfer of the demo.
use timberlake.Base.{ℕ, ◌≡◌, refl, inl, inr, false, [], some, arith, ltb, Bool-cases, if◌then◌else◌}
use timberlake.Base.Int.{ℤ, pos, ltb_ℤ}
use timberlake.Io.{Text, codes, Item}
use timberlake.Ui.View.{format_number, with_commas}
use timberlake.Ui.View.Bar.{Rounds}
use timberlake.Demo.{Config, Dest, Transfer, put}
use timberlake.Demo.Finish.{Nested, Leaves, put-Leaves}

abbrev million : ℕ → Text
million n = codes "1000000"

million_shown : format_number million 1_000_000 ≡ codes "1,000,000"
unfolding format_number with_commas
million_shown = refl

-- A rounding to all or nothing.
abbrev all_cells : ℤ → ℤ → ℤ → ℤ
all_cells v total width = if ltb_ℤ v total then pos 0 else width

all_cells-Rounds : Rounds all_cells
all_cells-Rounds = record {
  cells_lem = λ total width a b h k le le'. elim (Bool-cases (ltb a total)) [
    | inl less ↦ elim (Bool-cases (ltb b total)) [
      | inl less' ↦ (0, 0, ground arith, ground arith, omega arith, omega arith)
      | inr whole ↦ (0, width, ground arith, ground arith, omega arith, omega arith)
    ]
    | inr whole ↦ (width, width, ground arith, ground arith, omega arith, omega arith)
  ];
}

abbrev demo_item : Item
demo_item = record { relative_path = codes "DSC02000.tif"; size = 5 }

abbrev empty_dest : Dest
empty_dest = record { have = []; nth = 0 }

abbrev slow : Config
slow = record { fail_every = 97; scaled = 2 }

put-Leaves_example :
    (d' : Dest) × (t : Transfer) × (put 6 slow (λ i. false) empty_dest demo_item 5 ≡ some (d', t))
    × Nested 5 t.reports
    × Leaves empty_dest d' demo_item demo_item 5 t.result
put-Leaves_example =
    put-Leaves 6 slow (λ i. false) empty_dest demo_item demo_item 5 (omega arith) (omega arith)
      (omega arith)
