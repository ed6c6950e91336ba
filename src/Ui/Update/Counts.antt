-- ===== src/Ui/Update/Counts.antt =====
-- The counts of the files that have ended, over a whole run of WorkerStatusMsg messages.
use timberlake.Base.{
  ℕ, zero, suc, ◌+◌, ◌<◌, ◌≤◌, ◌^◌, ◌≡◌, ◌≢◌, refl, ap, ◌∙◌, ◌⊎◌, inl, inr, true, false, List, [],
  ◌∷◌, Option, none, some, arith, length, set, ltb, if◌then◌else◌, Bool-cases,
}
use timberlake.Base.Int.{ℤ, pos, negsuc}
use timberlake.Ui.Model.{
  Floats, ProgramState, Status, WorkerState, Model, WorkerStatus, Cmd, wait_for_msg,
}
use timberlake.Ui.Update.{
  is_catching_up, store_worker, set_if_zero, by_status, apply_status, all_finished, conclude, Pair,
  record_history, max_ℤ,
}

-- A message that ends a file.
abbrev pub ends_file : Status → ℕ
ends_file Status.done = 1
ends_file Status.skipped = 1
ends_file Status.error = 1
ends_file _ = 0

-- What a message adds to the files that have ended: nothing if its id is no worker's.
abbrev pub ended_by : {F : Type 0} → WorkerStatus → Option (WorkerState F) → ℕ
ended_by msg none = 0
ended_by msg (some w) = ends_file msg.status

pub length-set : {A : Type 0} (xs : List A) (i : ℕ) (x : A) → length (set xs i x) ≡ length xs
length-set [] i x = refl
length-set (y ∷ ys) zero x = refl
length-set (y ∷ ys) (suc i) x = ap suc (length-set ys i x)

pub length-store_worker :
    {F : Type 0} (ws : List (WorkerState F)) (i : ℤ) (w : WorkerState F)
    → length (store_worker ws i w) ≡ length ws
unfolding store_worker
length-store_worker ws (pos i) w = length-set ws i w
length-store_worker ws (negsuc i) w = refl

catching_up-done :
    (s : ProgramState)
    → (if is_catching_up s then ProgramState.uploading else s) ≡ ProgramState.done
    → s ≡ ProgramState.done
unfolding is_catching_up
catching_up-done ProgramState.catching_up h = cc
catching_up-done ProgramState.scanning h = h
catching_up-done ProgramState.uploading h = h
catching_up-done ProgramState.paused h = h
catching_up-done ProgramState.verification h = h
catching_up-done ProgramState.done h = h
catching_up-done ProgramState.failed h = h
catching_up-done ProgramState.cancelled h = h

set_if_zero-some : (t : Option ℕ) (now : ℕ) → set_if_zero t now ≢ none
set_if_zero-some none now = λ e. cc
set_if_zero-some (some t) now = λ e. cc

module _ (fl : Floats) where
  open fl use {F}

  -- The files that have ended, with no overflow.
  abbrev pub ended : Model F → ℕ
  ended m = m.uploaded_files + m.skipped_files + m.failed_files

  -- One step of the counts, with what does not change.
  abbrev pub Counted : ℕ → Model F → Model F → Type 0
  Counted k m m' =
      (ended m' ≡ ended m + k)
      × (m'.total_files ≡ m.total_files)
      × (length m'.workers ≡ length m.workers)
      × (m'.state ≡ ProgramState.done → m.state ≡ ProgramState.done)
      × (m'.end_time ≡ m.end_time)

  by_status-Counted :
      (now : ℕ) (msg : WorkerStatus) (status : Status) (p : Pair fl)
      → ended p.m < 2 ^ 62
      → Counted (ends_file status) p.m (by_status fl now msg status p).m
  unfolding by_status record_history is_catching_up
  by_status-Counted now msg Status.uploading p h =
      (omega arith, refl, refl, catching_up-done p.m.state, refl)
  by_status-Counted now msg Status.done p h = (ground arith, refl, refl, (λ e. e), refl)
  by_status-Counted now msg Status.skipped p h = (ground arith, refl, refl, (λ e. e), refl)
  by_status-Counted now msg Status.error p h = (ground arith, refl, refl, (λ e. e), refl)
  by_status-Counted now msg Status.idle p h = (omega arith, refl, refl, (λ e. e), refl)
  by_status-Counted now msg Status.checking p h = (omega arith, refl, refl, (λ e. e), refl)
  by_status-Counted now msg Status.queued p h = (omega arith, refl, refl, (λ e. e), refl)

  pub apply_status-Counted :
      (now : ℕ) (msg : WorkerStatus) (m : Model F) (w : Option (WorkerState F))
      → ended m < 2 ^ 62
      → Counted (ended_by msg w) m (apply_status fl now msg m w)
  unfolding apply_status
  apply_status-Counted now msg m none h = (omega arith, refl, refl, (λ e. e), refl)
  apply_status-Counted now msg m (some w) h =
      let p : Pair fl = record {
        m = record m { queue_pos = max_ℤ m.queue_pos msg.queue_index };
        w = record w { status = msg.status; file_name = msg.file_name; last_error = msg.err };
      } in
      let q = by_status fl now msg msg.status p in
      let (sum, total, workers, done, end) = by_status-Counted now msg msg.status p h in
      (sum, total, length-store_worker q.m.workers msg.worker_id q.w ∙ workers, done, end)

  all_finished-true :
      (m : Model F)
      → ended m < 2 ^ 63
      → 0 < m.total_files
      → m.total_files ≤ ended m
      → all_finished fl m ≡ true
  unfolding all_finished
  all_finished-true m h z le = ground arith

  all_finished-false :
      (m : Model F)
      → ended m < 2 ^ 63
      → m.total_files < 2 ^ 63
      → ended m < m.total_files
      → all_finished fl m ≡ false
  unfolding all_finished
  all_finished-false m h t lt = ground arith

  -- The run is over, with its end time, and no more messages are waited for; or it goes on.
  abbrev pub Concluded : Model F → Model F × List Cmd → Type 0
  Concluded m r =
      ((m.total_files ≤ ended m)
        × (r.0.state ≡ ProgramState.done)
        × (r.0.end_time ≢ none)
        × (r.1 ≡ []))
      ⊎ ((ended m < m.total_files) × (r.0.state ≡ m.state) × (r.1 ≡ wait_for_msg ∷ []))

  pub conclude-Concluded :
      (now : ℕ) (m : Model F)
      → ended m < 2 ^ 63
      → m.total_files < 2 ^ 63
      → 0 < m.total_files
      → Concluded m (conclude fl now m)
  unfolding conclude
  conclude-Concluded now m h t z = elim (Bool-cases (ltb (ended m) m.total_files)) [
    | inl lt ↦ rw (all_finished-false m h t (ground arith)) (inr (ground arith, refl, refl))
    | inr ge ↦
        rw (all_finished-true m h z (ground arith))
          (inl (ground arith, refl, set_if_zero-some m.end_time now, refl))
  ]

  pub conclude-keeps :
      (now : ℕ) (m : Model F)
      → let r = (conclude fl now m).0 in
        (ended r ≡ ended m) × (r.total_files ≡ m.total_files) × (r.workers ≡ m.workers)
  unfolding conclude
  conclude-keeps now m = elim (Bool-cases (all_finished fl m)) [
    | inl fin ↦ rw fin (refl, refl, refl)
    | inr more ↦ rw more (refl, refl, refl)
  ]
