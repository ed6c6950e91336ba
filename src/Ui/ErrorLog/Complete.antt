-- ===== src/Ui/ErrorLog/Complete.antt =====
-- The error log has every failed file of a session (Ui/ErrorLog).
use timberlake.Base.{
  ℕ, suc, ◌+◌, ◌<◌, ◌≤◌, ◌^◌, ◌≡◌, refl, ap, inl, inr, List, [], ◌∷◌, ◌++◌, Option, none, some,
  arith, length, length-append, Bool-cases,
}
use timberlake.Io.{Text, codes}
use timberlake.Config.{AppConfig}
use timberlake.Program.{Flags, System, initial_config, settings}
use timberlake.Program.Ending.{settings-Respects}
use timberlake.Ui.Model.{Floats, Status, WorkerState, Model, WorkerStatus, WorkerProgress}
use timberlake.Ui.Update.{
  Pair, by_status, record_history, apply_status, on_status, conclude, recalc_uploaded_bytes,
  worker_at, all_finished, on_progress, apply_progress,
}
use timberlake.Ui.Update.Counts.{ended}
use timberlake.Ui.Update.Ending.{adds-le_one, on_status-Next}
use timberlake.Ui.Pool.{Sent, status, progress}
use timberlake.Ui.Pool.Once.{ends}
use timberlake.Ui.Pool.Done.{deliver_all}
use timberlake.Ui.ErrorLog.{LogSystem, destination_line, write_error_log}
use timberlake.Ui.ErrorLog.Lines.{TakesAll, OneLineHead, OneLineErrors, Logged, write_errors-Logged}

module _ (fl : Floats) where
  open fl use {F}

  -- There is one error for each failed file.
  abbrev pub Matches : Model F → Type 0
  Matches m = m.failed_files ≡ length m.errors

  by_status-Matches :
      (now : ℕ) (msg : WorkerStatus) (st : Status) (p : Pair fl)
      → ended fl p.m < 2 ^ 62
      → Matches p.m
      → Matches (by_status fl now msg st p).m
  unfolding by_status record_history
  by_status-Matches now msg Status.error p h v = omega (
    arith,
    length-append p.m.errors (record { relative_path = msg.file_name; message = msg.err } ∷ []),
  )
  by_status-Matches now msg Status.done p h v = v
  by_status-Matches now msg _ p h v = v

  apply_status-Matches :
      (now : ℕ) (msg : WorkerStatus) (m : Model F) (w : Option (WorkerState F))
      → ended fl m < 2 ^ 62
      → Matches m
      → Matches (apply_status fl now msg m w)
  unfolding apply_status
  apply_status-Matches now msg m none h v = v
  apply_status-Matches now msg m (some w) h v = by_status-Matches now msg msg.status _ h v

  conclude-Matches : (now : ℕ) (m : Model F) → Matches m → Matches (conclude fl now m).0
  unfolding conclude
  conclude-Matches now m v = elim (Bool-cases (all_finished fl m)) [
    | inl fin ↦ rw fin v
    | inr more ↦ rw more v
  ]

  on_status-Matches :
      (now : ℕ) (msg : WorkerStatus) (m : Model F)
      → ended fl m < 2 ^ 62
      → Matches m
      → Matches (on_status fl now msg m).0
  unfolding on_status recalc_uploaded_bytes
  on_status-Matches now msg m h v =
      conclude-Matches now _
        (apply_status-Matches now msg m (worker_at m.workers msg.worker_id) h v)

  apply_progress-Matches :
      (now : ℕ) (msg : WorkerProgress) (m : Model F) (w : Option (WorkerState F))
      → (ended fl (apply_progress fl now msg m w) ≡ ended fl m)
        × ((apply_progress fl now msg m w).total_files ≡ m.total_files)
        × (Matches m → Matches (apply_progress fl now msg m w))
  unfolding apply_progress
  apply_progress-Matches now msg m none = (refl, refl, (λ v. v))
  apply_progress-Matches now msg m (some w) = (refl, refl, (λ v. v))

  on_progress-Matches :
      (now : ℕ) (msg : WorkerProgress) (m : Model F)
      → (ended fl (on_progress fl now msg m).0 ≡ ended fl m)
        × ((on_progress fl now msg m).0.total_files ≡ m.total_files)
        × (Matches m → Matches (on_progress fl now msg m).0)
  unfolding on_progress recalc_uploaded_bytes
  on_progress-Matches now msg m =
      apply_progress-Matches now msg m (worker_at m.workers msg.worker_id)

  -- Each message ends one file at most.
  pub deliver_all-Matches :
      (times : ℕ → ℕ) (out : List Sent) (m : Model F)
      → ended fl m + length out < 2 ^ 62
      → m.total_files < 2 ^ 63
      → 0 < m.total_files
      → Matches m
      → let m' = deliver_all fl times out m in Matches m' × (ended fl m' ≤ ended fl m + length out)
  deliver_all-Matches times [] m h t z v = (v, omega arith)
  deliver_all-Matches times (status msg ∷ out) m h t z v =
      let few : ended fl m < 2 ^ 62 = omega (arith, h) in
      let (sum, total, workers, ends) = on_status-Next fl (times 0) msg m few t z in
      let one = adds-le_one (length m.workers) msg in
      let (v', le) =
        deliver_all-Matches (λ k. times (suc k)) out (on_status fl (times 0) msg m).0
          (omega (arith, sum, one, h)) (omega (arith, total, t)) (omega (arith, total, z))
          (on_status-Matches (times 0) msg m few v) in
      (v', omega (arith, le, sum, one))
  deliver_all-Matches times (progress msg ∷ out) m h t z v =
      let (sum, total, keeps) = on_progress-Matches (times 0) msg m in
      let (v', le) =
        deliver_all-Matches (λ k. times (suc k)) out (on_progress fl (times 0) msg m).0
          (omega (arith, sum, h)) (omega (arith, total, t)) (omega (arith, total, z)) (keeps v) in
      (v', omega (arith, le, sum))

module _ (fl : Floats) where
  open fl use {F}

  -- After the messages of a session that starts with no failed file: from the bytes of the error log
  -- each error is read back, with its path and its message, in their order, and they are as many as
  -- the files counted as failed; there is no log if there are none, or if the file cannot be created.
  -- Every write takes all of its bytes, and no path, message or text of the head has a newline. The
  -- messages are fewer than 2^62, the total is positive and fits an int64.
  pub write_error_log-Logged :
      (sys : LogSystem) (cfg : AppConfig) (times : ℕ → ℕ) (out : List Sent) (m : Model F)
      → ended fl m + length out < 2 ^ 62
      → m.total_files < 2 ^ 63
      → 0 < m.total_files
      → Matches fl m
      → TakesAll sys
      → OneLineHead sys cfg
      → OneLineErrors (deliver_all fl times out m).errors
      → let m' = deliver_all fl times out m in
        Logged sys m'.errors (write_error_log sys cfg m') × (m'.failed_files ≡ length m'.errors)
  unfolding write_error_log
  write_error_log-Logged sys cfg times out m h t z v all head lines =
      (write_errors-Logged sys cfg _ all head lines, (deliver_all-Matches fl times out m h t z v).0)

-- Whatever the flags, the arguments, the file of s3cmd and the environment say, also for an SFTP
-- server or a directory: the error log names "s3:///" as the destination.
pub destination_line-empty :
    (sys : System) (f : Flags) (args : List Text)
    → destination_line (settings sys f args) ≡ codes "Destination: s3:///"
unfolding destination_line initial_config
destination_line-empty sys f args =
    let (access, secret, endpoint, filed, same) = settings-Respects sys f args in
    ap (λ (c : AppConfig). codes "Destination: s3://" ++ (c.bucket ++ (codes "/" ++ c.prefix))) same
