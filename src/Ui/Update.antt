-- ===== src/Ui/Update.antt =====
-- The handlers of `Update` in ui/update.go for the messages of the scan, the bulk listing and the
-- workers, with the functions that they call. `now` is time.Now().
pub mod Counts
pub mod Ending
use timberlake.Base.{
  ℕ, zero, suc, ◌+◌, ◌-◌, Bool, true, false, ◌&&◌, ◌||◌, not, List, [], ◌∷◌, ◌++◌, Option, none,
  some, ltb, leb, length, get_elem?, set, drop, if◌then◌else◌,
}
use timberlake.Base.Words.{add64, sub64, lt64}
use timberlake.Base.Int.{ℤ, pos, negsuc, ltb_ℤ}
use timberlake.Io.{Text}
use timberlake.Ui.Model.{
  Floats, ProgramState, Status, FileError, FileRecord, max_history, WorkerState, Model,
  WorkerProgress, WorkerStatus, ScanComplete, Cmd, wait_for_msg, bulk_stat, start_workers,
}

abbrev pub bulk_stat_threshold : ℕ
bulk_stat_threshold = 200

-- history[len(history)-maxHistory:] once it is longer.
unfoldable pub cap_history : List FileRecord → List FileRecord
cap_history h = if ltb max_history (length h) then drop (length h - max_history) h else h

unfoldable pub is_catching_up : ProgramState → Bool
is_catching_up ProgramState.catching_up = true
is_catching_up _ = false

unfoldable pub is_done : Status → Bool
is_done Status.done = true
is_done _ = false

-- time.Since(start) of a finished transfer; 0 for any other item.
unfoldable pub duration_of : ℕ → Status → Option ℕ → ℕ
duration_of now status none = 0
duration_of now status (some start) = if is_done status then now - start else 0

-- workers[i], if i is an index.
unfoldable pub worker_at : {F : Type 0} → List (WorkerState F) → ℤ → Option (WorkerState F)
worker_at ws (negsuc i) = none
worker_at ws (pos i) = get_elem? ws i

unfoldable pub store_worker :
    {F : Type 0} → List (WorkerState F) → ℤ → WorkerState F → List (WorkerState F)
store_worker ws (negsuc i) w = ws
store_worker ws (pos i) w = set ws i w

unfoldable pub max_ℤ : ℤ → ℤ → ℤ
max_ℤ old new = if ltb_ℤ old new then new else old

abbrev pub set_if_zero : Option ℕ → ℕ → Option ℕ
set_if_zero none now = some now
set_if_zero (some t) now = some t

module _ (fl : Floats) where
  open fl use {F, zero_f, is_zero, rate, average}

  -- A model and one worker of it, while the worker's message is handled.
  pub record Pair : Type 0 where
    pub m : Model F
    pub w : WorkerState F

  unfoldable pub record_history : ℕ → WorkerStatus → Status → Pair → Pair
  unfolding cap_history duration_of is_done
  record_history now msg status p =
      let rec : FileRecord = record {
        name = msg.file_name;
        size = msg.size;
        status = status;
        duration = duration_of now status p.w.start_time;
        at = now;
        worker_id = p.w.id;
      } in
      record {
        m = record (p.m) { recent_files = cap_history (p.m.recent_files ++ rec ∷ []) };
        w = record (p.w) { history = cap_history (p.w.history ++ rec ∷ []) };
      }

  unfoldable pub sample_after : WorkerState F → ℕ → ℕ → ℕ → WorkerState F
  sample_after w committed now last =
      let dt = now - last in
      if ltb dt 1_000_000_000
      then w
      else (let delta = sub64 committed w.last_committed in
          let inst = rate delta dt in
          record w {
            speed_bps =
                if lt64 delta 0
                then w.speed_bps
                else if is_zero w.speed_bps
                then inst
                else average w.speed_bps inst;
            last_committed = committed;
            last_sample_at = some now;
          })

  -- sampleRate
  unfoldable pub sample_rate : WorkerState F → ℕ → ℕ → Option ℕ → WorkerState F
  unfolding sample_after
  sample_rate w committed now none = record w {
    last_committed = committed;
    last_sample_at = some now;
  }
  sample_rate w committed now (some last) = sample_after w committed now last

  unfoldable pub reset_worker : WorkerState F → WorkerState F
  reset_worker w = record w {
    status = Status.idle;
    committed_size = 0;
    uploaded_size = 0;
    buffered_size = 0;
    total_size = 0;
    file_name = [];
    speed_bps = zero_f;
    last_committed = 0;
    last_sample_at = none;
  }

  abbrev pub reset_slot : Pair → Pair
  reset_slot p = record p { w = reset_worker p.w }

  unfoldable pub recalc_uploaded_bytes : Model F → Model F
  recalc_uploaded_bytes m = record m { uploaded_bytes = m.completed_bytes }

  -- The switch on msg.Status.
  unfoldable pub by_status : ℕ → WorkerStatus → Status → Pair → Pair
  unfolding is_catching_up
  by_status now msg Status.uploading p = record {
    m = record (p.m) {
      state = if is_catching_up p.m.state then ProgramState.uploading else p.m.state;
      transfer_start_time = set_if_zero p.m.transfer_start_time now;
    };
    w = record (p.w) {
      total_size = msg.size;
      committed_size = 0;
      uploaded_size = 0;
      buffered_size = 0;
      speed_bps = zero_f;
      last_committed = 0;
      last_sample_at = none;
      start_time = some now;
    };
  }
  by_status now msg Status.done p = reset_slot (
      record_history now msg Status.done (record {
        m = record (p.m) {
          uploaded_files = add64 p.m.uploaded_files 1;
          completed_bytes = add64 p.m.completed_bytes msg.size;
        };
        w = record (p.w) {
          bytes_moved = add64 p.w.bytes_moved msg.size;
          files_done = add64 p.w.files_done 1;
        };
      }))
  by_status now msg Status.skipped p = reset_slot (
      record_history now msg Status.skipped (record {
        m = record (p.m) {
          skipped_files = add64 p.m.skipped_files 1;
          skipped_bytes = add64 p.m.skipped_bytes msg.size;
        };
        w = record (p.w) { files_done = add64 p.w.files_done 1 };
      }))
  by_status now msg Status.error p = reset_slot (
      record_history now msg Status.error (record {
        m = record (p.m) {
          failed_files = add64 p.m.failed_files 1;
          errors = p.m.errors ++ record { relative_path = msg.file_name; message = msg.err } ∷ [];
        };
        w = p.w;
      }))
  by_status now msg _ p = p

  abbrev pub put_back : ℤ → Pair → Model F
  put_back id p = record (p.m) { workers = store_worker p.m.workers id p.w }

  -- The guarded part of the handler: nothing for an id that is no worker.
  unfoldable pub apply_status : ℕ → WorkerStatus → Model F → Option (WorkerState F) → Model F
  unfolding max_ℤ
  apply_status now msg m none = m
  apply_status now msg m (some w) = put_back msg.worker_id (
      by_status now msg msg.status (record {
        m = record m { queue_pos = max_ℤ m.queue_pos msg.queue_index };
        w = record w { status = msg.status; file_name = msg.file_name; last_error = msg.err };
      }))

  abbrev pub finished_files : Model F → ℕ
  finished_files m = add64 (add64 m.uploaded_files m.skipped_files) m.failed_files

  -- Every file has come to an end.
  unfoldable pub all_finished : Model F → Bool
  all_finished m = not (lt64 (finished_files m) m.total_files) && lt64 0 m.total_files

  unfoldable pub conclude : ℕ → Model F → Model F × List Cmd
  conclude now m =
      if all_finished m
      then (record m { state = ProgramState.done; end_time = set_if_zero m.end_time now }, [])
      else (m, wait_for_msg ∷ [])

  -- case WorkerStatusMsg
  unfoldable pub on_status : ℕ → WorkerStatus → Model F → Model F × List Cmd
  unfolding worker_at
  on_status now msg m =
      conclude now
        (recalc_uploaded_bytes (apply_status now msg m (worker_at m.workers msg.worker_id)))

  unfoldable pub apply_progress : ℕ → WorkerProgress → Model F → Option (WorkerState F) → Model F
  unfolding sample_rate
  apply_progress now msg m none = m
  apply_progress now msg m (some w) =
      let w' : WorkerState F = record w {
        committed_size = msg.committed_size;
        uploaded_size = msg.uploaded_size;
        buffered_size = msg.buffered_size;
        total_size = msg.total_size;
        file_name = elim msg.file_name [ [] ↦ w.file_name | _ ↦ msg.file_name ];
      } in
      record m {
        workers =
            store_worker m.workers msg.worker_id
              (sample_rate w' msg.committed_size now w.last_sample_at);
      }

  -- case WorkerProgressMsg
  unfoldable pub on_progress : ℕ → WorkerProgress → Model F → Model F × List Cmd
  on_progress now msg m = (
    recalc_uploaded_bytes (apply_progress now msg m (worker_at m.workers msg.worker_id)),
    wait_for_msg ∷ [],
  )

  -- A scan that succeeded: catch up, or finish at once if there is nothing to do.
  unfoldable pub begin_catch_up : ℕ → ScanComplete → Model F → Model F × List Cmd
  begin_catch_up now msg m =
      let m' : Model F = record m {
        total_files = length msg.items;
        total_bytes = msg.total_bytes;
        work_queue = msg.items;
        state = ProgramState.catching_up;
        start_time = now;
      } in
      elim msg.items [
        | [] ↦ (record m' { state = ProgramState.done; end_time = some now }, [])
        | _ ↦
            if m.bulk_stater && leb bulk_stat_threshold (length msg.items)
            then (record m' { bulk_listing = true }, bulk_stat ∷ [])
            else (m', start_workers ∷ [])
      ]

  -- case ScanCompleteMsg
  unfoldable pub on_scan : ℕ → ScanComplete → Model F → Model F × List Cmd
  unfolding begin_catch_up
  on_scan now msg m = elim msg.err [
    | some e ↦
        (record m { state = ProgramState.failed; error_message = some e; end_time = some now }, [])
    | none ↦ begin_catch_up now msg m
  ]

  -- case BulkStatProgressMsg
  unfoldable pub on_bulk_progress : ℕ → Model F → Model F × List Cmd
  on_bulk_progress found m = (record m { bulk_found = found }, wait_for_msg ∷ [])

  -- case BulkStatCompleteMsg
  unfoldable pub on_bulk_complete : Option (List (Text × ℕ)) → ℕ → Model F → Model F × List Cmd
  on_bulk_complete known found m = (
    record m { bulk_listing = false; known_dest = known; bulk_found = found },
    start_workers ∷ wait_for_msg ∷ [],
  )

  -- The bytes of the finished files and of the transfers under way.
  unfoldable pub live_bytes : ℕ → List (WorkerState F) → ℕ
  live_bytes total [] = total
  live_bytes total (w ∷ ws) =
      live_bytes (elim w.status [ Status.uploading ↦ add64 total w.uploaded_size | _ ↦ total ]) ws

  unfoldable pub live_transferred_bytes : Model F → ℕ
  unfolding live_bytes
  live_transferred_bytes m = live_bytes m.completed_bytes m.workers
