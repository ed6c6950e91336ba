-- ===== src/Ui/Keys.antt =====
-- The keys in Update of ui/update.go that quit, pause and navigate. Those of the web page and of the
-- tunnel (o, r, w, d) are in Ui/Share.
pub mod Gate
use timberlake.Base.{
  ℕ, ◌+◌, ◌-◌, Bool, true, false, not, List, [], ◌∷◌, Option, none, some, length, if◌then◌else◌,
}
use timberlake.Base.Int.{ℤ, pos, ◌+ℤ◌, ◌-ℤ◌, ltb_ℤ}
use timberlake.Ui.Model.{ProgramState, Pane, WorkerState, Model, Cmd, quit}
use timberlake.Ui.Update.{set_if_zero}

-- By the cases of the switch: "q" and "ctrl+c", "p", " " and "enter", "esc", "tab", "shift+tab",
-- "1" to "5", "up" and "k", "down" and "j", "home" and "g", "end" and "G".
pub data Key : Type 0 where
  quit_key pause_key zoom_key esc tab shift_tab up down home end_key : Key
  digit : Pane → Key

-- (p + 1) % 5 and (p - 1 + 5) % 5.
unfoldable pub next_pane : Pane → Pane
next_pane Pane.progress = Pane.transfers
next_pane Pane.transfers = Pane.history
next_pane Pane.history = Pane.queue
next_pane Pane.queue = Pane.web
next_pane Pane.web = Pane.progress

unfoldable pub previous_pane : Pane → Pane
previous_pane Pane.progress = Pane.web
previous_pane Pane.transfers = Pane.progress
previous_pane Pane.history = Pane.transfers
previous_pane Pane.queue = Pane.history
previous_pane Pane.web = Pane.queue

-- What quitting makes of the state: only a finished run keeps it.
unfoldable pub quit_state : ProgramState → ProgramState
quit_state ProgramState.done = ProgramState.done
quit_state ProgramState.failed = ProgramState.failed
quit_state _ = ProgramState.cancelled

-- The state to resume, never StatePaused.
unfoldable pub resumed_state : ProgramState → ProgramState
resumed_state ProgramState.paused = ProgramState.uploading
resumed_state s = s

module _ {F : Type 0} where
  abbrev pub pause_run : Model F → Model F
  pause_run m = record m { paused_from = m.state; state = ProgramState.paused; gate_paused = true }

  -- case "p", by the state.
  unfoldable pub on_pause : Model F → ProgramState → Model F
  unfolding resumed_state
  on_pause m ProgramState.uploading = pause_run m
  on_pause m ProgramState.catching_up = pause_run m
  on_pause m ProgramState.paused = record m {
    state = resumed_state m.paused_from;
    gate_paused = false;
  }
  on_pause m _ = m

  unfoldable pub on_key : ℕ → Model F → Key → Model F × List Cmd
  unfolding quit_state next_pane previous_pane on_pause
  on_key now m quit_key = (
    record m {
      ctx_cancelled = true;
      state = quit_state m.state;
      end_time = set_if_zero m.end_time now;
    },
    quit ∷ [],
  )
  on_key now m pause_key = (on_pause m m.state, [])
  on_key now m zoom_key =
      (elim m.workers [ [] ↦ m | _ ↦ record m { zoom_worker = not m.zoom_worker } ], [])
  on_key now m esc = (record m { zoom_worker = false }, [])
  on_key now m tab = (record m { active_pane = next_pane m.active_pane }, [])
  on_key now m shift_tab = (record m { active_pane = previous_pane m.active_pane }, [])
  on_key now m (digit p) = (record m { active_pane = p }, [])
  on_key now m up = (
    if ltb_ℤ (pos 0) m.selected_worker
        then record m { selected_worker = m.selected_worker -ℤ pos 1 }
        else m,
    [],
  )
  on_key now m down = (
    if ltb_ℤ m.selected_worker (pos (length m.workers) -ℤ pos 1)
        then record m { selected_worker = m.selected_worker +ℤ pos 1 }
        else m,
    [],
  )
  on_key now m home = (record m { selected_worker = pos 0 }, [])
  on_key now m end_key = (record m { selected_worker = pos (length m.workers) -ℤ pos 1 }, [])
