-- ===== src/Ui/Pool/Done.antt =====
-- The messages of a run of the pool (Ui/Pool), handled one after the other by Ui/Update.
use timberlake.Base.{
  ℕ, suc, ◌+◌, ◌<◌, ◌^◌, ◌≡◌, ◌≢◌, refl, sym, ap, ◌∙◌, inl, inr, List, [], ◌∷◌, Option, none, some,
  arith, length, Bool,
}
use timberlake.Io.{Item}
use timberlake.Ui.Model.{Floats, ProgramState, WorkerState, Model, WorkerProgress}
use timberlake.Ui.Update.{on_status, on_progress, apply_progress, recalc_uploaded_bytes, worker_at}
use timberlake.Ui.Update.Counts.{ended, length-store_worker}
use timberlake.Ui.Update.Ending.{adds, EndsRight, on_status-Next, on_status-EndsRight}
use timberlake.Ui.Pool.{Sent, status, progress, Settings, Pool, Move, run, started}
use timberlake.Ui.Pool.Once.{Worth, worth_queued, worth_ended, one, ends, held}
use timberlake.Ui.Pool.Session.{Uncancelled, run-accounted, worth_of, worth_of-one, worth_held-none}

module _ (fl : Floats) where
  open fl use {F}

  -- The handler of a message of the channel.
  abbrev pub deliver : ℕ → Sent → Model F → Model F
  deliver now (status msg) m = (on_status fl now msg m).0
  deliver now (progress msg) m = (on_progress fl now msg m).0

  -- The messages in the order of the channel, the k-th from now at `times k`.
  abbrev pub deliver_all : (ℕ → ℕ) → List Sent → Model F → Model F
  deliver_all times [] m = m
  deliver_all times (x ∷ out) m = deliver_all (λ k. times (suc k)) out (deliver (times 0) x m)

  -- What a progress message leaves as it is.
  abbrev Untouched : Model F → Model F → Type 0
  Untouched m m' =
      (ended fl m' ≡ ended fl m)
      × (m'.total_files ≡ m.total_files)
      × (length m'.workers ≡ length m.workers)
      × (m'.state ≡ m.state)
      × (m'.end_time ≡ m.end_time)

  apply_progress-Untouched :
      (now : ℕ) (msg : WorkerProgress) (m : Model F) (w : Option (WorkerState F))
      → Untouched m (apply_progress fl now msg m w)
  unfolding apply_progress
  apply_progress-Untouched now msg m none = (refl, refl, refl, refl, refl)
  apply_progress-Untouched now msg m (some w) =
      (refl, refl, length-store_worker m.workers msg.worker_id _, refl, refl)

  on_progress-Untouched :
      (now : ℕ) (msg : WorkerProgress) (m : Model F) → Untouched m (on_progress fl now msg m).0
  unfolding on_progress recalc_uploaded_bytes
  on_progress-Untouched now msg m =
      apply_progress-Untouched now msg m (worker_at m.workers msg.worker_id)

  Untouched-EndsRight : (m m' : Model F) → Untouched m m' → EndsRight fl m → EndsRight fl m'
  Untouched-EndsRight m m' (sum, total, workers, state, time) (inl (le, done, over)) =
      inl (omega (arith, le, sum, total), state ∙ done, (λ n. over (sym time ∙ n)))
  Untouched-EndsRight m m' (sum, total, workers, state, time) (inr (lt, not_done)) =
      inr (omega (arith, lt, sum, total), (λ d. not_done (sym state ∙ d)))

  deliver_all-EndsRight :
      (times : ℕ → ℕ) (out : List Sent) (m : Model F) (n : ℕ)
      → length m.workers ≡ n
      → ended fl m + ends n out < 2 ^ 62
      → m.total_files < 2 ^ 63
      → 0 < m.total_files
      → EndsRight fl m
      → (ended fl (deliver_all times out m) ≡ ended fl m + ends n out)
        × ((deliver_all times out m).total_files ≡ m.total_files)
        × EndsRight fl (deliver_all times out m)
  deliver_all-EndsRight times [] m n l h t z right = (omega arith, refl, right)
  deliver_all-EndsRight times (status msg ∷ out) m n l h t z right =
      let now = times 0 in
      let m₁ = (on_status fl now msg m).0 in
      let fewer : ended fl m < 2 ^ 62 = omega (arith, h) in
      let (sum, total, workers, _) = on_status-Next fl now msg m fewer t z in
      let one : ended fl m₁ ≡ ended fl m + adds n msg = sum ∙ ap (λ k. ended fl m + adds k msg) l in
      let (sum₂, total₂, right₂) =
        deliver_all-EndsRight (λ k. times (suc k)) out m₁ n (workers ∙ l) (omega (arith, one, h))
          (omega (arith, total, t)) (omega (arith, total, z))
          (on_status-EndsRight fl now msg m fewer t z right) in
      (omega (arith, sum₂, one), total₂ ∙ total, right₂)
  deliver_all-EndsRight times (progress msg ∷ out) m n l h t z right =
      let now = times 0 in
      let m₁ = (on_progress fl now msg m).0 in
      let same = on_progress-Untouched now msg m in
      let (sum₂, total₂, right₂) =
        deliver_all-EndsRight (λ k. times (suc k)) out m₁ n (same.2 ∙ l) (omega (arith, same.0, h))
          (omega (arith, same.1, t)) (omega (arith, same.1, z))
          (Untouched-EndsRight m m₁ same right) in
      (omega (arith, sum₂, same.0), total₂ ∙ same.1, right₂)

  -- A whole run: the pool works through the items in any interleaving with pauses at any time, no
  -- cancellation and any answers of the destination, until the queue is empty and no worker has an
  -- item; and its messages are handled in order. Then the files that the messages end are those of the
  -- scan, each as often as there, their number has been counted, and the model is in StateDone with
  -- EndTime set. At the start no file has ended, the total is the
  -- number of the items, positive and below 2^62, and there is a slot in the model for each worker.
  pub session-done :
      (s : Settings) (jobs : ℕ) (paused : Bool) (items : List Item) (es : List Move) (p : Pool)
      (times : ℕ → ℕ) (m : Model F) (v : Worth)
      → Uncancelled es
      → run s es (started jobs paused items) ≡ some p
      → p.queue ≡ []
      → held p.workers ≡ 0
      → length m.workers ≡ jobs
      → ended fl m ≡ 0
      → m.total_files ≡ length items
      → 0 < length items
      → length items < 2 ^ 62
      → EndsRight fl m
      → (worth_ended v jobs p.sent ≡ worth_of v items)
        × (ended fl (deliver_all times p.sent m) ≡ length items)
        × ((deliver_all times p.sent m).state ≡ ProgramState.done)
        × ((deliver_all times p.sent m).end_time ≢ none)
  session-done s jobs paused items es p times m v u ran empty idle l zero_ended total some_items few
        right =
      let once = ended_all v in
      let all : ends jobs p.sent ≡ length items = ended_all one ∙ worth_of-one items in
      let (sum, same_total, right') =
        deliver_all-EndsRight times p.sent m jobs l (omega (arith, all, zero_ended, few))
          (omega (arith, total, few)) (omega (arith, total, some_items)) right in
      let m' = deliver_all times p.sent m in
      let counted : ended fl m' ≡ length items = omega (arith, sum, all, zero_ended) in
      elim right' [
        | inl (le, done, over) ↦ (once, counted, done, over)
        | inr (lt, not_done) ↦ absurd (omega (arith, lt, counted, same_total, total))
      ]
    where
      ended_all : (v : Worth) → worth_ended v jobs p.sent ≡ worth_of v items
      ended_all v =
          let no_more : worth_queued v p.queue ≡ 0 = ap (worth_queued v) empty in
          omega (
            arith,
            run-accounted v s jobs paused items es p u ran,
            no_more,
            worth_held-none v p.workers idle,
          )
