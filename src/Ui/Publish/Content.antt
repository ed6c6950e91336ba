-- ===== src/Ui/Publish/Content.antt =====
-- What the snapshot of publishWeb shows of the model (Ui/Publish).
use timberlake.Base.{
  ℕ, zero, suc, ◌+◌, ◌-◌, ◌<◌, ◌≡◌, refl, ap, ◌∙◌, inl, inr, List, [], ◌∷◌, map, Option, none, some,
  arith, ltb, length, length-map, length-drop, get_elem?, Bool-cases, if◌then◌else◌,
}
use timberlake.Base.Int.{pos}
use timberlake.Io.{Text, codes, eq_text}
use timberlake.Ui.Model.{Floats, ProgramState, Status, FileRecord, WorkerState, Model}
use timberlake.Ui.Update.{live_transferred_bytes}
use timberlake.Ui.Screen.Rows.{get_elem?-drop}
use timberlake.Ui.Publish.{
  Outside, status_name, phase_name, worker_row, history_row, last_files, publish_web,
}
use timberlake.Web.Hub.{WorkerSnapshot, HistorySnapshot, Snapshot}

-- The state that a reader of the page takes a phase for; only "working" is of no phase of its own.
unfoldable pub state_named : Text → Option ProgramState
unfolding eq_text
state_named t =
    if eq_text t (codes "scanning")
    then some ProgramState.scanning
    else if eq_text t (codes "catching-up")
    then some ProgramState.catching_up
    else if eq_text t (codes "uploading")
    then some ProgramState.uploading
    else if eq_text t (codes "paused")
    then some ProgramState.paused
    else if eq_text t (codes "done")
    then some ProgramState.done
    else if eq_text t (codes "cancelled")
    then some ProgramState.cancelled
    else if eq_text t (codes "error")
    then some ProgramState.failed
    else if eq_text t (codes "working")
    then some ProgramState.verification
    else none

unfoldable pub status_named : Text → Option Status
unfolding eq_text
status_named t =
    if eq_text t (codes "Idle")
    then some Status.idle
    else if eq_text t (codes "Checking")
    then some Status.checking
    else if eq_text t (codes "Queued")
    then some Status.queued
    else if eq_text t (codes "Uploading")
    then some Status.uploading
    else if eq_text t (codes "Done")
    then some Status.done
    else if eq_text t (codes "Skipped")
    then some Status.skipped
    else if eq_text t (codes "Error")
    then some Status.error
    else none

state_named-phase_name : (s : ProgramState) → state_named (phase_name s) ≡ some s
unfolding state_named phase_name eq_text
state_named-phase_name ProgramState.scanning = refl
state_named-phase_name ProgramState.catching_up = refl
state_named-phase_name ProgramState.uploading = refl
state_named-phase_name ProgramState.paused = refl
state_named-phase_name ProgramState.done = refl
state_named-phase_name ProgramState.cancelled = refl
state_named-phase_name ProgramState.failed = refl
state_named-phase_name ProgramState.verification = refl

status_named-status_name : (s : Status) → status_named (status_name s) ≡ some s
unfolding status_named status_name eq_text
status_named-status_name Status.idle = refl
status_named-status_name Status.checking = refl
status_named-status_name Status.queued = refl
status_named-status_name Status.uploading = refl
status_named-status_name Status.done = refl
status_named-status_name Status.skipped = refl
status_named-status_name Status.error = refl

get_elem?-map :
    {A B : Type 0} (f : A → B) (xs : List A) (i : ℕ) (x : A)
    → get_elem? xs i ≡ some x
    → get_elem? (map f xs) i ≡ some (f x)
get_elem?-map f [] i x h = cc h
get_elem?-map f (y ∷ xs) zero x h = ground arith
get_elem?-map f (y ∷ xs) (suc i) x h = get_elem?-map f xs i x h

-- The file with k files behind it in the history has k files behind it among the last twelve.
last_files-get :
    (files : List FileRecord) (j k : ℕ) (r : FileRecord)
    → k < 12
    → suc (j + k) ≡ length files
    → get_elem? files j ≡ some r
    → get_elem? (last_files files) (length (last_files files) - suc k) ≡ some r
unfolding last_files
last_files-get files j k r few behind h = elim (Bool-cases (ltb 12 (length files))) [
  | inl many ↦
      rw (many, length-drop (length files - 12) files)
        (get_elem?-drop (length files - 12) _ j files (ground arith) ∙ h)
  | inr all ↦
      rw all (ap (get_elem? files) (let e : length files - suc k ≡ j = omega arith in e) ∙ h)
]

module _ (fl : Floats) where
  -- The state, the counts and the bytes.
  abbrev pub PicturesRun : Outside fl.F → Model fl.F → Snapshot fl.F fl.zero_f → Type 0
  PicturesRun out m s =
      (state_named s.phase ≡ some m.state)
      × (s.source ≡ out.source_label)
      × (s.destination ≡ out.dest_label)
      × (s.total_files ≡ m.total_files)
      × (s.uploaded ≡ m.uploaded_files)
      × (s.skipped ≡ m.skipped_files)
      × (s.failed ≡ m.failed_files)
      × (s.total_bytes ≡ m.total_bytes)
      × (s.sent_bytes ≡ live_transferred_bytes fl m)
      × (s.skip_bytes ≡ m.skipped_bytes)

  abbrev pub PicturesWorker : WorkerState fl.F → WorkerSnapshot → Type 0
  PicturesWorker w row =
      (row.id ≡ pos w.id)
      × (status_named row.status ≡ some w.status)
      × (row.file ≡ w.file_name)
      × (row.committed ≡ w.committed_size)
      × (row.uploaded ≡ w.uploaded_size)
      × (row.buffered ≡ w.buffered_size)
      × (row.total ≡ w.total_size)

  abbrev pub PicturesFile : FileRecord → HistorySnapshot → Type 0
  PicturesFile r row =
      (row.name ≡ r.name) × (row.size ≡ r.size) × (status_named row.status ≡ some r.status)

  pub publish_web-run :
      (out : Outside fl.F) (m : Model fl.F) → PicturesRun out m (publish_web fl out m)
  unfolding publish_web
  publish_web-run out m =
      (state_named-phase_name m.state, refl, refl, refl, refl, refl, refl, refl, refl, refl)

  pub publish_web-worker :
      (out : Outside fl.F) (m : Model fl.F) (i : ℕ) (w : WorkerState fl.F)
      → get_elem? m.workers i ≡ some w
      → (row : WorkerSnapshot) × (get_elem? (publish_web fl out m).workers i ≡ some row)
        × PicturesWorker w row
  unfolding publish_web worker_row
  publish_web-worker out m i w h = (
    worker_row fl w,
    get_elem?-map (worker_row fl) m.workers i w h,
    (refl, status_named-status_name w.status, refl, refl, refl, refl, refl),
  )

  pub publish_web-file :
      (out : Outside fl.F) (m : Model fl.F) (j k : ℕ) (r : FileRecord)
      → k < 12
      → suc (j + k) ≡ length m.recent_files
      → get_elem? m.recent_files j ≡ some r
      → let recent = (publish_web fl out m).recent in
        (row : HistorySnapshot) × (get_elem? recent (length recent - suc k) ≡ some row)
        × PicturesFile r row
  unfolding publish_web history_row
  publish_web-file out m j k r few behind h = (
    history_row fl out r,
    rw (length-map (last_files m.recent_files) (history_row fl out)) (
        get_elem?-map (history_row fl out) (last_files m.recent_files) _ r
          (last_files-get m.recent_files j k r few behind h)),
    (refl, refl, status_named-status_name r.status),
  )
