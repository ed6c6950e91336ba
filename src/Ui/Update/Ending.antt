-- ===== src/Ui/Update/Ending.antt =====
-- The end of a run over WorkerStatusMsg messages (Ui/Update).
use timberlake.Base.{
  ℕ, zero, suc, ◌+◌, ◌<◌, ◌≤◌, ◌&&◌, leb, ◌^◌, ◌≡◌, ◌≢◌, refl, sym, ap, ◌∙◌, ◌⊎◌, inl, inr, List,
  [], ◌∷◌, none, arith, length, get_elem?, ltb, if◌then◌else◌, Bool-cases,
}
use timberlake.Base.Int.{ℤ, pos, negsuc}
use timberlake.Ui.Model.{
  Floats, ProgramState, Status, WorkerState, Model, WorkerStatus, ScanComplete, Cmd, wait_for_msg,
}
use timberlake.Ui.Update.{
  worker_at, apply_status, recalc_uploaded_bytes, on_status, on_scan, begin_catch_up,
  bulk_stat_threshold,
}
use timberlake.Io.{Item}
use timberlake.Ui.Update.Counts.{
  ends_file, ended_by, ended, apply_status-Counted, conclude-Concluded, conclude-keeps,
}

-- What a message adds to the files that have ended, by the number of workers.
abbrev pub adds : ℕ → WorkerStatus → ℕ
adds workers msg = elim msg.worker_id [
  | pos i ↦ if ltb i workers then ends_file msg.status else 0
  | negsuc i ↦ 0
]

abbrev pub adds_all : ℕ → List (ℕ × WorkerStatus) → ℕ
adds_all workers [] = 0
adds_all workers ((now, msg) ∷ msgs) = adds workers msg + adds_all workers msgs

ends_file-le : (s : Status) → ends_file s ≤ 1
ends_file-le Status.idle = omega arith
ends_file-le Status.checking = omega arith
ends_file-le Status.queued = omega arith
ends_file-le Status.uploading = omega arith
ends_file-le Status.done = omega arith
ends_file-le Status.skipped = omega arith
ends_file-le Status.error = omega arith

adds-le : (workers : ℕ) (msg : WorkerStatus) (i : ℤ) → msg.worker_id ≡ i → adds workers msg ≤ 1
adds-le workers msg (negsuc i) e = rw e (omega arith)
adds-le workers msg (pos i) e = rw e (elim (Bool-cases (ltb i workers)) [
  | inl h ↦ rw h (ends_file-le msg.status)
  | inr h ↦ rw h (omega arith)
])

pub adds-le_one : (workers : ℕ) (msg : WorkerStatus) → adds workers msg ≤ 1
adds-le_one workers msg = adds-le workers msg msg.worker_id refl

ended_by-get :
    {F : Type 0} (msg : WorkerStatus) (ws : List (WorkerState F)) (i : ℕ)
    → ended_by msg (get_elem? ws i) ≡ (if ltb i (length ws) then ends_file msg.status else 0)
ended_by-get msg [] i = ground arith
ended_by-get msg (w ∷ ws) zero = ground arith
ended_by-get msg (w ∷ ws) (suc i) = ended_by-get msg ws i ∙ ground arith

ended_by-adds :
    {F : Type 0} (msg : WorkerStatus) (ws : List (WorkerState F)) (i : ℤ)
    → msg.worker_id ≡ i
    → ended_by msg (worker_at ws msg.worker_id) ≡ adds (length ws) msg
unfolding worker_at
ended_by-adds msg ws (negsuc i) e = rw e refl
ended_by-adds msg ws (pos i) e = rw e (ended_by-get msg ws i)

module _ (fl : Floats) where
  open fl use {F}

  -- The model after the messages, each with the time at which it is handled.
  abbrev pub handle_all : List (ℕ × WorkerStatus) → Model F → Model F
  handle_all [] m = m
  handle_all ((now, msg) ∷ msgs) m = handle_all msgs (on_status fl now msg m).0

  -- The model of a run: over, with its end time, when every file has ended, and not before.
  abbrev pub EndsRight : Model F → Type 0
  EndsRight m =
      ((m.total_files ≤ ended fl m) × (m.state ≡ ProgramState.done) × (m.end_time ≢ none))
      ⊎ ((ended fl m < m.total_files) × (m.state ≢ ProgramState.done))

  abbrev pub Next : WorkerStatus → Model F → Model F × List Cmd → Type 0
  Next msg m r =
      (ended fl r.0 ≡ ended fl m + adds (length m.workers) msg)
      × (r.0.total_files ≡ m.total_files)
      × (length r.0.workers ≡ length m.workers)
      × (((m.total_files ≤ ended fl m + adds (length m.workers) msg)
            × (r.0.state ≡ ProgramState.done)
            × (r.0.end_time ≢ none)
            × (r.1 ≡ []))
          ⊎ ((ended fl m + adds (length m.workers) msg < m.total_files)
              × (r.0.state ≡ ProgramState.done → m.state ≡ ProgramState.done)
              × (r.1 ≡ wait_for_msg ∷ [])))

  pub on_status-Next :
      (now : ℕ) (msg : WorkerStatus) (m : Model F)
      → ended fl m < 2 ^ 62
      → m.total_files < 2 ^ 63
      → 0 < m.total_files
      → Next msg m (on_status fl now msg m)
  unfolding on_status recalc_uploaded_bytes
  on_status-Next now msg m h t z =
      let w = worker_at m.workers msg.worker_id in
      let m₁ = recalc_uploaded_bytes fl (apply_status fl now msg m w) in
      let (sum, total, workers, back, end) = apply_status-Counted fl now msg m w h in
      let few = adds-le (length m.workers) msg msg.worker_id refl in
      let by = ended_by-adds msg m.workers msg.worker_id refl in
      let sum' : ended fl m₁ ≡ ended fl m + adds (length m.workers) msg =
        sum ∙ ap (λ k. ended fl m + k) by in
      let (sum₂, total₂, workers₂) = conclude-keeps fl now m₁ in
      (
        sum₂ ∙ sum',
        total₂ ∙ total,
        ap length workers₂ ∙ workers,
        elim (conclude-Concluded fl now m₁ (omega (arith, sum', few, h)) (omega (arith, total, t))
            (omega (arith, total, z))) [
              | inl (le, done, ends, cmds) ↦ inl (omega (arith, le, sum', total), done, ends, cmds)
              | inr (lt, same, cmds) ↦
                  inr (omega (arith, lt, sum', total), (λ d. back (sym same ∙ d)), cmds)
            ],
      )

  -- One WorkerStatusMsg, while fewer than 2^62 files have ended, with a total that is positive and
  -- fits an int64: it adds one ended file exactly if its id is a worker's and its status is Done,
  -- Skipped or Error. If all files have then ended, the state is StateDone, EndTime is set and no
  -- more messages are waited for; if not, the consumer is armed again, once.
  pub on_status-rearms :
      (now : ℕ) (msg : WorkerStatus) (m : Model F)
      → ended fl m < 2 ^ 62
      → m.total_files < 2 ^ 63
      → 0 < m.total_files
      → let r = on_status fl now msg m in
        (ended fl r.0 ≡ ended fl m + adds (length m.workers) msg)
        × (((m.total_files ≤ ended fl r.0)
              × (r.0.state ≡ ProgramState.done)
              × (r.0.end_time ≢ none)
              × (r.1 ≡ []))
            ⊎ ((ended fl r.0 < m.total_files) × (r.1 ≡ wait_for_msg ∷ [])))
  on_status-rearms now msg m h t z =
      let (sum, total, workers, ends) = on_status-Next now msg m h t z in
      (
        sum,
        elim ends [
          | inl (le, done, time, cmds) ↦ inl (omega (arith, le, sum), done, time, cmds)
          | inr (lt, back, cmds) ↦ inr (omega (arith, lt, sum), cmds)
        ],
      )

  pub on_status-EndsRight :
      (now : ℕ) (msg : WorkerStatus) (m : Model F)
      → ended fl m < 2 ^ 62
      → m.total_files < 2 ^ 63
      → 0 < m.total_files
      → EndsRight m
      → EndsRight (on_status fl now msg m).0
  on_status-EndsRight now msg m h t z right =
      let (sum, total, workers, ends) = on_status-Next now msg m h t z in
      elim ends [
        | inl (le, done, time, cmds) ↦ inl (omega (arith, le, sum, total), done, time)
        | inr (lt, back, cmds) ↦ inr (
          omega (arith, lt, sum, total),
          (λ d. elim right [
            | inl (le, e, time) ↦ omega (arith, le, lt)
            | inr (less, not_done) ↦ not_done (back d)
          ]),
        )
      ]

  -- After any sequence of WorkerStatusMsg messages, from a model that is right: the files that have
  -- ended are those that had and one for each message Done, Skipped or Error of a worker; and the
  -- state is StateDone, with EndTime set, if they are all the files, and is not StateDone if they
  -- are fewer. The total is positive and fits an int64, and the counts stay below 2^62.
  pub handle_all-EndsRight :
      (msgs : List (ℕ × WorkerStatus)) (m : Model F)
      → ended fl m + length msgs < 2 ^ 62
      → m.total_files < 2 ^ 63
      → 0 < m.total_files
      → EndsRight m
      → (ended fl (handle_all msgs m) ≡ ended fl m + adds_all (length m.workers) msgs)
        × EndsRight (handle_all msgs m)
  handle_all-EndsRight [] m h t z right = (omega arith, right)
  handle_all-EndsRight ((now, msg) ∷ msgs) m h t z right =
      let fewer : ended fl m < 2 ^ 62 = omega (arith, h) in
      let (sum, total, workers, ends) = on_status-Next now msg m fewer t z in
      let few = adds-le (length m.workers) msg msg.worker_id refl in
      let m₁ = (on_status fl now msg m).0 in
      let (sum₂, right₂) =
        handle_all-EndsRight msgs m₁ (omega (arith, sum, few, h)) (omega (arith, total, t))
          (omega (arith, total, z)) (on_status-EndsRight now msg m fewer t z right) in
      (sum₂ ∙ ap (λ k. ended fl m₁ + adds_all k msgs) workers ∙ omega (arith, sum), right₂)

  -- ScanCompleteMsg with no error, before any file has ended: the model is right for the run that
  -- starts. It has the number of the items as its total, and is in StateDone if that is 0, and in
  -- StateCatchingUp otherwise, whether the destination is listed in bulk or not.
  pub on_scan-EndsRight :
      (now : ℕ) (msg : ScanComplete) (m : Model F)
      → msg.err ≡ none
      → ended fl m ≡ 0
      → let m' = (on_scan fl now msg m).0 in
        EndsRight m'
        × (m'.total_files ≡ length msg.items)
        × (ended fl m' ≡ 0)
        × (((msg.items ≡ []) × (m'.state ≡ ProgramState.done))
            ⊎ ((msg.items ≢ []) × (m'.state ≡ ProgramState.catching_up)))
  unfolding on_scan begin_catch_up
  on_scan-EndsRight now msg m ok_scan h = rw ok_scan (by_items msg.items refl)
    where
      by_items :
          (items : List Item)
          → msg.items ≡ items
          → let m' = (begin_catch_up fl now msg m).0 in
            EndsRight m'
            × (m'.total_files ≡ length msg.items)
            × (ended fl m' ≡ 0)
            × (((msg.items ≡ []) × (m'.state ≡ ProgramState.done))
                ⊎ ((msg.items ≢ []) × (m'.state ≡ ProgramState.catching_up)))
      by_items [] e = rw e (inl (omega arith, refl, (λ n. cc)), refl, h, inl (refl, refl))
      by_items (i ∷ is) e =
          rw e (elim (Bool-cases (m.bulk_stater && leb bulk_stat_threshold (suc (length is)))) [
            | inl bulk ↦ rw bulk (inr (omega (arith, h), (λ d. cc)), refl, h, inr ((λ n. cc), refl))
            | inr direct ↦
                rw direct (inr (omega (arith, h), (λ d. cc)), refl, h, inr ((λ n. cc), refl))
          ])
