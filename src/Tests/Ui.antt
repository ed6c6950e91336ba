-- ===== src/Tests/Ui.antt =====
-- A session of two files and two workers: one file is sent, and the other fails.
use timberlake.Base.{ℕ, ◌≡◌, refl, false, List, [], ◌∷◌, none, arith, ◌==◌}
use timberlake.Base.Int.{pos}
use timberlake.Io.{Text, codes}
use timberlake.Ui.Model.{
  Floats, ProgramState, Status, WorkerState, Model, WorkerStatus, ScanComplete, Pane,
}
use timberlake.Ui.Update.{
  by_status, record_history, cap_history, duration_of, is_done, is_catching_up, reset_worker,
  apply_status, worker_at, store_worker, max_ℤ, recalc_uploaded_bytes, all_finished, conclude,
  on_status, begin_catch_up, on_scan,
}
use timberlake.Ui.Update.Counts.{ended}
use timberlake.Ui.Keys.{on_pause}
use timberlake.Ui.Page.{display_state, page_of, view, summary_page}
use timberlake.Ui.Page.Shown.{
  Turn, told, pause_pressed, take_turns, PageRight, take_turns-PageRight,
}
use timberlake.Ui.Update.Ending.{handle_all, EndsRight, handle_all-EndsRight, on_scan-EndsRight}

-- Whole bytes per second.
abbrev pub whole : Floats
whole = record {
  F = ℕ;
  zero_f = 0;
  is_zero = λ x. x == 0;
  rate = λ delta dt. delta;
  average = λ old new. new;
}

abbrev pub worker : ℕ → WorkerState ℕ
worker i = record {
  id = i;
  status = Status.idle;
  file_name = [];
  total_size = 0;
  committed_size = 0;
  uploaded_size = 0;
  buffered_size = 0;
  speed_bps = 0;
  last_error = [];
  start_time = none;
  history = [];
  bytes_moved = 0;
  files_done = 0;
  last_committed = 0;
  last_sample_at = none;
}

abbrev pub fresh : Model ℕ
fresh = record {
  bulk_stater = false;
  state = ProgramState.scanning;
  error_message = none;
  total_bytes = 0;
  uploaded_bytes = 0;
  completed_bytes = 0;
  skipped_bytes = 0;
  total_files = 0;
  uploaded_files = 0;
  skipped_files = 0;
  failed_files = 0;
  workers = worker 0 ∷ worker 1 ∷ [];
  work_queue = [];
  start_time = 0;
  transfer_start_time = none;
  end_time = none;
  paused_from = ProgramState.scanning;
  errors = [];
  selected_worker = pos 0;
  zoom_worker = false;
  recent_files = [];
  active_pane = Pane.progress;
  gate_paused = false;
  queue_pos = pos 0;
  known_dest = none;
  bulk_listing = false;
  bulk_found = 0;
  ctx_cancelled = false;
}

abbrev pub scanned : ScanComplete
scanned = record {
  items =
      record { relative_path = codes "a"; size = 5 }
      ∷ record { relative_path = codes "b"; size = 7 }
      ∷ [];
  total_bytes = 12;
  err = none;
}

abbrev says : ℕ → Status → Text → ℕ → WorkerStatus
says i status name size = record {
  worker_id = pos i;
  status = status;
  file_name = name;
  err = [];
  size = size;
  queue_index = pos i;
}

abbrev session : List (ℕ × WorkerStatus)
session =
    (2, says 0 Status.uploading (codes "a") 5)
    ∷ (3, says 1 Status.error (codes "b") 0)
    ∷ (4, says 0 Status.done (codes "a") 5)
    ∷ []

unfoldable pub begun : Model ℕ
unfolding on_scan begin_catch_up
begun = (on_scan whole 1 scanned fresh).0

handle_all-EndsRight_example :
    (ended whole (handle_all whole session begun) ≡ 2)
    × EndsRight whole (handle_all whole session begun)
unfolding begun on_scan begin_catch_up
handle_all-EndsRight_example =
    handle_all-EndsRight whole session begun (omega arith) (omega arith) (omega arith)
      (on_scan-EndsRight whole 1 scanned fresh refl refl).0

session_ends : (handle_all whole session begun).state ≡ ProgramState.done
unfolding begun on_scan begin_catch_up on_status conclude all_finished recalc_uploaded_bytes
    apply_status worker_at store_worker max_ℤ by_status record_history cap_history duration_of
    is_done is_catching_up reset_worker
session_ends = refl

-- The same with a pause from the first upload to the last message.
abbrev turns : List Turn
turns =
    told 2 (says 0 Status.uploading (codes "a") 5)
    ∷ pause_pressed
    ∷ told 3 (says 1 Status.error (codes "b") 0)
    ∷ told 4 (says 0 Status.done (codes "a") 5)
    ∷ []

take_turns-PageRight_example : PageRight whole (take_turns whole turns begun)
unfolding begun on_scan begin_catch_up
take_turns-PageRight_example =
    take_turns-PageRight whole turns begun (omega arith) (omega arith) (omega arith) (λ e. cc e)
      (on_scan-EndsRight whole 1 scanned fresh refl refl).0

paused_then_done : view (take_turns whole turns begun) ≡ summary_page
unfolding begun on_scan begin_catch_up on_status conclude all_finished recalc_uploaded_bytes
    apply_status worker_at store_worker max_ℤ by_status record_history cap_history duration_of
    is_done is_catching_up reset_worker on_pause view display_state page_of
paused_then_done = refl
