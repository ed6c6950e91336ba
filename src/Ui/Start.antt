-- ===== src/Ui/Start.antt =====
-- InitialModel, Init and startScanCmd of ui/model.go, and what startWorkerPool reads of the model and
-- of the settings. `jobs` is Jobs where it is not negative (InitialModel panics if it is).
pub mod Whole
use timberlake.Base.{ℕ, zero, suc, ◌+◌, Bool, true, false, List, [], ◌∷◌, ◌++◌, Option, none, some}
use timberlake.Base.Int.{ℤ, pos}
use timberlake.Base.Words.{add64}
use timberlake.Io.{Text, Item, Error, Result}
use timberlake.Config.{AppConfig}
use timberlake.Ui.Listing
use timberlake.Ui.Model.{
  Floats, ProgramState, Status, Pane, WorkerState, Model, ScanComplete, Cmd, bulk_stat,
}
use timberlake.Ui.Update.{on_bulk_complete}
use timberlake.Ui.Pool.{Settings, upload_slots}

-- startScanCmd, of what src.Scan returns.
unfoldable pub total_size : ℕ → List Item → ℕ
total_size total [] = total
total_size total (it ∷ items) = total_size (add64 total it.size) items

unfoldable pub scan_complete : List Item → Option Error → ScanComplete
unfolding total_size
scan_complete items e = record { items = items; total_bytes = total_size 0 items; err = e }

module _ (fl : Floats) where
  open fl use {F, zero_f}

  abbrev pub new_worker : ℕ → WorkerState F
  new_worker i = record {
    id = i;
    status = Status.idle;
    file_name = [];
    total_size = 0;
    committed_size = 0;
    uploaded_size = 0;
    buffered_size = 0;
    speed_bps = zero_f;
    last_error = [];
    start_time = none;
    history = [];
    bytes_moved = 0;
    files_done = 0;
    last_committed = 0;
    last_sample_at = none;
  }

  -- The workers from a number on.
  unfoldable pub new_workers : ℕ → ℕ → List (WorkerState F)
  new_workers i zero = []
  new_workers i (suc n) = new_worker i ∷ new_workers (suc i) n

  -- InitialModel at the time `now`, of a destination that can list itself or not.
  unfoldable pub initial_model : ℕ → Bool → ℕ → Model F
  unfolding new_workers
  initial_model jobs bulk now = record {
    bulk_stater = bulk;
    state = ProgramState.scanning;
    error_message = none;
    total_bytes = 0;
    uploaded_bytes = 0;
    completed_bytes = 0;
    skipped_bytes = 0;
    total_files = 0;
    uploaded_files = 0;
    skipped_files = 0;
    failed_files = 0;
    workers = new_workers 0 jobs;
    work_queue = [];
    start_time = now;
    transfer_start_time = none;
    end_time = none;
    paused_from = ProgramState.scanning;
    errors = [];
    selected_worker = pos 0;
    zoom_worker = false;
    recent_files = [];
    active_pane = Pane.progress;
    gate_paused = false;
    queue_pos = pos 0;
    known_dest = none;
    bulk_listing = false;
    bulk_found = 0;
    ctx_cancelled = false;
  }

  -- The command of a scan: the bulk listing, whose answer is `answer`, comes before the pool.
  unfoldable pub begin_pool : Result (Option (List (Text × ℕ))) → Model F → List Cmd → Model F
  begin_pool answer m (bulk_stat ∷ cmds) =
      (on_bulk_complete fl (Listing.bulk_stat answer).0 (Listing.bulk_stat answer).1 m).0
  begin_pool answer m _ = m

  -- What startWorkerPool takes from the model and the settings.
  unfoldable pub pool_settings : (Error → Text) → (ℕ → ℕ → Text) → AppConfig → Model F → Settings
  pool_settings error_text mismatch_text cfg m = record {
    known = m.known_dest;
    verify_only = cfg.verify_only;
    dry_run = cfg.dry_run;
    slots = upload_slots cfg.upload_jobs cfg.jobs;
    error_text = error_text;
    mismatch_text = mismatch_text;
  }
