-- ===== src/Tests/Screen.antt =====
-- Two workers on a screen of forty lines: keys, a click, and the worker in the first lines.
use timberlake.Base.{ℕ, ◌+◌, ◌-◌, ◌≤◌, ◌≡◌, refl, [], ◌∷◌, List, arith, leb, if◌then◌else◌}
use timberlake.Base.Int.{ℤ, pos, negsuc}
use timberlake.Io.{codes}
use timberlake.Ui.Model.{Pane, Model}
use timberlake.Ui.Keys.{digit, down, end_key, on_key}
use timberlake.Ui.Screen.{
  Layout, inner_height, content_width, at_least, row_at, transfer_rows, visible, drawn_layout,
  on_click,
}
use timberlake.Ui.Screen.Visible.{Input, press, click, use_all, Shows, use_all-Shows, Clamps}
use timberlake.Ui.Screen.Clicks.{Lands, worker_line, on_click-Lands}
use timberlake.Web.Tunnel.{TunnelState}
use timberlake.Web.Install.{InstallState}
use timberlake.Tests.Ui.{fresh}

-- SetYOffset of a viewport: from 0 to the last offset that leaves no line free.
clamp : ℕ → ℕ → ℤ → ℕ
clamp lines height (negsuc n) = 0
clamp lines height (pos n) = if leb (n + height) lines then n else lines - height

clamp-Clamps : Clamps clamp
unfolding clamp
clamp-Clamps lines height n h = ground arith

abbrev no_layout : Layout
no_layout = record {
  sidebar_top = 0;
  sidebar_cols = 0;
  content_top = 0;
  lan_row = 0;
  pub_row = 0;
  lan_url = [];
  pub_url = [];
}

abbrev layout : Layout
layout = drawn_layout 5 (codes "http://h/t/1") TunnelState.off [] Pane.transfers no_layout

abbrev inputs : List Input
inputs = press 1 (digit Pane.transfers) ∷ press 2 end_key ∷ click layout 30 8 ∷ press 3 down ∷ []

-- The lines of text of so many cells at a width, cut wherever it is full.
wrap_at : ℕ → ℕ → ℕ
wrap_at w c = if leb c w then 1 else 2

wrap_at-fits : (w c : ℕ) → c ≤ w → wrap_at w c ≡ 1
unfolding wrap_at
wrap_at-fits w c h = ground arith

use_all-Shows_example :
    Shows clamp (inner_height 40 5 2) (λ r. wrap_at (content_width 120) 65) (use_all inputs fresh)
unfolding on_key on_click drawn_layout content_width at_least
use_all-Shows_example =
    use_all-Shows clamp inputs fresh 40 120 5 2 (λ r. 65) wrap_at clamp-Clamps wrap_at-fits
      (0, refl, omega arith) refl refl (λ i h. omega arith)

abbrev transferring : Model ℕ
transferring = record fresh { active_pane = Pane.transfers }

on_click-Lands_example :
    on_click layout 0 30 7 transferring
    ≡ Lands 5 10 0 [] TunnelState.off [] [] InstallState.idle no_layout transferring (worker_line 1)
unfolding row_at visible transfer_rows
on_click-Lands_example =
    on_click-Lands 5 10 0 (codes "http://h/t/1") TunnelState.off [] [] InstallState.idle no_layout
      transferring 30 7 (worker_line 1) (omega arith, refl, refl, refl)
