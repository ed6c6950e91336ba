-- ===== src/Ui/Model.antt =====
-- The data of ui/model.go, and the messages and commands of ui/update.go. A time is a number of
-- nanoseconds, `none` for the zero time; an int64 is its bit pattern. float64 is a parameter.
use timberlake.Base.{ℕ, Bool, List, Option}
use timberlake.Base.Int.{ℤ}
use timberlake.Io.{Text, Item, Error}

-- The float64 operations of `sampleRate`.
pub record Floats : Type 1 where
  pub F : Type 0
  pub zero_f : F
  pub is_zero : F → Bool
  -- float64(delta) / dt.Seconds()
  pub rate : ℕ → ℕ → F
  -- 0.7*old + 0.3*new
  pub average : F → F → F

pub data ProgramState : Type 0 where
  scanning catching_up uploading paused verification done failed cancelled : ProgramState

-- The Status strings.
pub data Status : Type 0 where
  idle checking queued uploading done skipped error : Status

pub data Pane : Type 0 where
  progress transfers history queue web : Pane

pub record FileError : Type 0 where
  pub relative_path : Text
  pub message : Text

pub record FileRecord : Type 0 where
  pub name : Text
  pub size : ℕ
  pub status : Status
  pub duration : ℕ
  pub at : ℕ
  pub worker_id : ℕ

abbrev pub max_history : ℕ
max_history = 200

-- The two path fields, which nothing sets, are left out.
pub record WorkerState (F : Type 0) : Type 0 where
  pub id : ℕ
  pub status : Status
  pub file_name : Text
  pub total_size : ℕ
  pub committed_size : ℕ
  pub uploaded_size : ℕ
  pub buffered_size : ℕ
  pub speed_bps : F
  pub last_error : Text
  pub start_time : Option ℕ
  pub history : List FileRecord
  pub bytes_moved : ℕ
  pub files_done : ℕ
  pub last_committed : ℕ
  pub last_sample_at : Option ℕ

-- The fields that the modelled handlers read or write. `gate_paused` is `pause.paused`, and
-- `ctx_cancelled` the state of `Ctx`.
pub record Model (F : Type 0) : Type 0 where
  pub bulk_stater : Bool
  pub state : ProgramState
  pub error_message : Option Error
  pub total_bytes : ℕ
  pub uploaded_bytes : ℕ
  pub completed_bytes : ℕ
  pub skipped_bytes : ℕ
  pub total_files : ℕ
  pub uploaded_files : ℕ
  pub skipped_files : ℕ
  pub failed_files : ℕ
  pub workers : List (WorkerState F)
  pub work_queue : List Item
  pub start_time : ℕ
  pub transfer_start_time : Option ℕ
  pub end_time : Option ℕ
  pub paused_from : ProgramState
  pub errors : List FileError
  pub selected_worker : ℤ
  pub zoom_worker : Bool
  pub recent_files : List FileRecord
  pub active_pane : Pane
  pub gate_paused : Bool
  pub queue_pos : ℤ
  pub known_dest : Option (List (Text × ℕ))
  pub bulk_listing : Bool
  pub bulk_found : ℕ
  pub ctx_cancelled : Bool

pub record WorkerProgress : Type 0 where
  pub worker_id : ℤ
  pub committed_size : ℕ
  pub uploaded_size : ℕ
  pub buffered_size : ℕ
  pub total_size : ℕ
  pub file_name : Text

pub record WorkerStatus : Type 0 where
  pub worker_id : ℤ
  pub status : Status
  pub file_name : Text
  pub err : Text
  pub size : ℕ
  pub queue_index : ℤ

pub record ScanComplete : Type 0 where
  pub items : List Item
  pub total_bytes : ℕ
  pub err : Option Error

-- What a handler hands to the runtime, apart from the animation of the bars: the consumer of the
-- message channel, the bulk listing, the end of the program; and the call that starts the workers.
pub data Cmd : Type 0 where
  wait_for_msg bulk_stat quit start_workers : Cmd
