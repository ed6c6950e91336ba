-- ===== src/Tests/Press.antt =====
-- Pause, move on to the next pane, resume.
use timberlake.Base.{ℕ, ◌≡◌, refl, List, [], ◌∷◌}
use timberlake.Ui.Model.{ProgramState}
use timberlake.Ui.Update.{on_scan, begin_catch_up}
use timberlake.Ui.Keys.{Key, pause_key, tab, resumed_state, on_pause, next_pane, on_key}
use timberlake.Ui.Keys.Gate.{press_all}
use timberlake.Tests.Ui.{begun}

abbrev pause_twice : List (ℕ × Key)
pause_twice = (1, pause_key) ∷ (2, tab) ∷ (3, pause_key) ∷ []

resumes : (press_all pause_twice begun).state ≡ ProgramState.catching_up
unfolding begun on_scan begin_catch_up on_key on_pause resumed_state next_pane
resumes = refl
