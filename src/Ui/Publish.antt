-- ===== src/Ui/Publish.antt =====
-- publishWeb and phaseName of ui/update.go. The labels of source and destination, the clock and the
-- float64 arithmetic are arguments.
pub mod Content
pub mod Reached
use timberlake.Base.{
  ℕ, ◌-◌, Bool, true, false, ◌&&◌, List, [], ◌∷◌, Option, none, some, map, drop, length, ltb,
  if◌then◌else◌,
}
use timberlake.Base.Int.{ℤ, pos}
use timberlake.Base.Words.{add64, sub64, lt64}
use timberlake.Io.{Text, codes}
use timberlake.Ui.Model.{Floats, ProgramState, Status, FileRecord, WorkerState, Model}
use timberlake.Ui.Update.{live_transferred_bytes}
use timberlake.Web.Hub.{WorkerSnapshot, HistorySnapshot, Snapshot}

unfoldable pub status_name : Status → Text
status_name Status.idle = codes "Idle"
status_name Status.checking = codes "Checking"
status_name Status.queued = codes "Queued"
status_name Status.uploading = codes "Uploading"
status_name Status.done = codes "Done"
status_name Status.skipped = codes "Skipped"
status_name Status.error = codes "Error"

unfoldable pub phase_name : ProgramState → Text
phase_name ProgramState.scanning = codes "scanning"
phase_name ProgramState.catching_up = codes "catching-up"
phase_name ProgramState.uploading = codes "uploading"
phase_name ProgramState.paused = codes "paused"
phase_name ProgramState.done = codes "done"
phase_name ProgramState.cancelled = codes "cancelled"
phase_name ProgramState.failed = codes "error"
phase_name ProgramState.verification = codes "working"

-- The last twelve of the history.
unfoldable pub last_files : List FileRecord → List FileRecord
last_files files = if ltb 12 (length files) then drop (length files - 12) files else files

-- What the snapshot takes from outside of the model: SpeedBps with its test and the division by it,
-- the seconds of a duration and since the start.
pub record Outside (F : Type 0) : Type 0 where
  pub source_label : Text
  pub dest_label : Text
  pub speed_bps : F
  pub is_positive : Bool
  pub over_speed : ℕ → ℤ
  pub seconds : ℕ → ℤ
  pub elapsed : ℤ
  pub boring : Bool

module _ (fl : Floats) where
  unfoldable pub worker_row : WorkerState fl.F → WorkerSnapshot
  unfolding status_name
  worker_row w = record {
    id = pos w.id;
    status = status_name w.status;
    file = w.file_name;
    committed = w.committed_size;
    uploaded = w.uploaded_size;
    buffered = w.buffered_size;
    total = w.total_size;
  }

  unfoldable pub history_row : Outside fl.F → FileRecord → HistorySnapshot
  unfolding status_name
  history_row out r = record {
    name = r.name;
    size = r.size;
    status = status_name r.status;
    seconds = out.seconds r.duration;
  }

  unfoldable pub eta_of : Outside fl.F → ℕ → ℕ → ℤ
  eta_of out total transferred =
      if out.is_positive && lt64 transferred total
      then out.over_speed (sub64 total transferred)
      else pos 0

  -- The snapshot of publishWeb, before the store sets its time.
  unfoldable pub publish_web : Outside fl.F → Model fl.F → Snapshot fl.F fl.zero_f
  unfolding phase_name worker_row history_row last_files eta_of
  publish_web out m =
      let transferred = add64 (live_transferred_bytes fl m) m.skipped_bytes in
      record {
        phase = phase_name m.state;
        source = out.source_label;
        destination = out.dest_label;
        total_files = m.total_files;
        uploaded = m.uploaded_files;
        skipped = m.skipped_files;
        failed = m.failed_files;
        total_bytes = m.total_bytes;
        sent_bytes = live_transferred_bytes fl m;
        skip_bytes = m.skipped_bytes;
        speed_bps = out.speed_bps;
        elapsed_sec = out.elapsed;
        eta_sec = eta_of out m.total_bytes transferred;
        workers = map worker_row m.workers;
        recent = map (history_row out) (last_files m.recent_files);
        boring = out.boring;
        updated_at = 0;
      }
