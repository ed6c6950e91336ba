-- ===== src/Tests/Panels.antt =====
-- A history of three files, a queue of four and a breakout bar.
use timberlake.Base.{
  ℕ, ◌-◌, ◌*◌, ◌/◌, ◌≤◌, ◌≡◌, refl, List, [], ◌∷◌, some, arith, length, get_elem?,
}
use native.Mathlib.Nat.{div-mul-le_self}
use timberlake.Base.Int.{ℤ, pos}
use timberlake.Io.{Text, codes, Item}
use timberlake.Ui.Model.{Status, FileRecord, Model}
use timberlake.Ui.Screen.{at_least}
use timberlake.Ui.Panels.{
  cut_start, history_line, render_history_pane, queue_item, render_queue_pane,
}
use timberlake.Ui.Panels.Rows.{render_history_pane-Newest, render_queue_pane-Next}
use timberlake.Ui.Summary.{Breakout, breakout_bar}
use timberlake.Ui.Summary.Filled.{RoundsDown, Fills, breakout_bar-Fills}
use timberlake.Tests.Ui.{whole, fresh}

abbrev record_of : Text → ℕ → FileRecord
record_of name size = record {
  name = name;
  size = size;
  status = Status.done;
  duration = 1;
  at = 0;
  worker_id = 0;
}

abbrev three_files : List FileRecord
three_files =
    record_of (codes "first") 1
    ∷ record_of (codes "second") 2
    ∷ record_of (codes "a rather long name") 3
    ∷ []

abbrev same_text : Text → Text
same_text name = name

render_history_pane-Newest_example :
    let r = record_of (codes "second") 2 in
    (get_elem? (render_history_pane same_text 40 2 three_files) 1
      ≡ some (history_line same_text (at_least 12 6) r))
    × (length (history_line same_text (at_least 12 6) r).name ≤ at_least 12 6)
    × (length (render_history_pane same_text 40 2 three_files) ≤ 2)
render_history_pane-Newest_example =
    render_history_pane-Newest same_text 40 2 three_files 1 1 (record_of (codes "second") 2)
      (omega arith) refl refl

abbrev item_of : Text → ℕ → Item
item_of path size = record { relative_path = path; size = size }

abbrev queued : Model ℕ
queued = record fresh {
  work_queue =
      item_of (codes "a") 1
      ∷ item_of (codes "b") 2
      ∷ item_of (codes "c") 3
      ∷ item_of (codes "d") 4
      ∷ [];
  queue_pos = pos 1;
}

render_queue_pane-Next_example :
    let column = at_least 12 (40 - 20) in
    (get_elem? (render_queue_pane whole 40 6 queued) 3
      ≡ some (queue_item 4 (cut_start column (codes "d")) 4))
    × (length (cut_start column (codes "d")) ≤ column)
    × (length (render_queue_pane whole 40 6 queued) ≤ 6)
unfolding at_least
render_queue_pane-Next_example =
    render_queue_pane-Next whole 40 6 1 1 queued (item_of (codes "d") 4) refl refl (omega arith)
      (omega arith)

-- The quotient, cut.
abbrev exact : ℕ → ℕ → ℤ
exact n total = pos (n * 36 / total)

exact-RoundsDown : RoundsDown exact
exact-RoundsDown n total z h b = (n * 36 / total, refl, div-mul-le_self (n * 36) total)

abbrev half_way : Model ℕ
half_way = record fresh {
  total_files = 100;
  uploaded_files = 35;
  skipped_files = 20;
  failed_files = 1;
}

breakout_bar-Fills_example :
    (bar : Breakout) × (breakout_bar exact half_way ≡ some bar) × Fills 35 20 1 100 bar
breakout_bar-Fills_example =
    breakout_bar-Fills exact exact-RoundsDown half_way (omega arith) (omega arith) (omega arith)
