-- ===== src/Ui/Page/Shown.antt =====
-- Which page shows in a run with pauses (Ui/Page).
use timberlake.Base.{
  ℕ, suc, ◌+◌, ◌≤◌, ◌<◌, ◌^◌, ◌≡◌, ◌≢◌, ◌↔◌, refl, sym, ap, ◌∙◌, ◌⊎◌, inl, inr, true, false, List,
  [], ◌∷◌, Option, none, some, arith, length, Bool-cases, if◌then◌else◌,
}
use timberlake.Ui.Model.{Floats, ProgramState, Status, WorkerState, Model, WorkerStatus}
use timberlake.Ui.Update.{
  Pair, by_status, record_history, apply_status, on_status, conclude, recalc_uploaded_bytes,
  worker_at, all_finished, is_catching_up,
}
use timberlake.Ui.Update.Counts.{ended}
use timberlake.Ui.Update.Ending.{EndsRight, adds-le_one, on_status-Next, on_status-EndsRight}
use timberlake.Ui.Keys.{on_pause, resumed_state}
use timberlake.Ui.Page.{display_state, page_of, view, is_paused, summary_page}

-- A run is paused from the upload or from the catch-up.
abbrev pub From : ProgramState → Type 0
From ProgramState.uploading = Unit {0}
From ProgramState.catching_up = Unit {0}
From _ = true ≡ false

not_paused : (s : ProgramState) → is_paused s ≡ false → s ≢ ProgramState.paused
unfolding is_paused
not_paused ProgramState.paused h e = cc h
not_paused s h e = cc e

-- What the first upload makes of the state.
upload-state :
    (s : ProgramState)
    → ((if is_catching_up s then ProgramState.uploading else s) ≡ s)
      ⊎ (is_paused (if is_catching_up s then ProgramState.uploading else s) ≡ false)
unfolding is_catching_up is_paused
upload-state ProgramState.catching_up = inr refl
upload-state _ = inl refl

-- A pause that ends.
resumed-page :
    (from : ProgramState)
    → From from
    → page_of (display_state (resumed_state from) from)
      ≡ page_of (display_state ProgramState.paused from)
unfolding resumed_state display_state page_of
resumed-page ProgramState.uploading h = refl
resumed-page ProgramState.catching_up h = refl
resumed-page _ h = cc

resumed-not_done : (from : ProgramState) → From from → resumed_state from ≢ ProgramState.done
unfolding resumed_state
resumed-not_done ProgramState.uploading h e = cc e
resumed-not_done ProgramState.catching_up h e = cc e
resumed-not_done _ h e = cc h

-- The summary is the page of the end, whatever was paused.
summary-done :
    (s from : ProgramState)
    → (page_of (display_state s from) ≡ summary_page) ↔ (s ≡ ProgramState.done)
unfolding display_state page_of
summary-done ProgramState.done from = ((λ h. refl), (λ h. refl))
summary-done ProgramState.paused ProgramState.catching_up = ((λ h. cc h), (λ h. cc h))
summary-done ProgramState.paused _ = ((λ h. cc h), (λ h. cc h))
summary-done ProgramState.catching_up from = ((λ h. cc h), (λ h. cc h))
summary-done ProgramState.scanning from = ((λ h. cc h), (λ h. cc h))
summary-done _ from = ((λ h. cc h), (λ h. cc h))

module _ (fl : Floats) where
  open fl use {F}

  abbrev pub Paused : Model F → Type 0
  Paused m = m.state ≡ ProgramState.paused → From m.paused_from

  -- What a message leaves of the state: it is as it was, or the upload has begun or the run has ended.
  abbrev Goes : Model F → Model F → Type 0
  Goes m m' =
      (m'.paused_from ≡ m.paused_from) × ((m'.state ≡ m.state) ⊎ (is_paused m'.state ≡ false))

  Goes-Paused : (m m' : Model F) → Goes m m' → Paused m → Paused m'
  Goes-Paused m m' (from, inl same) v e = rw from (v (cc (same, e)))
  Goes-Paused m m' (from, inr runs) v e = absurd (not_paused m'.state runs e)

  by_status-Goes :
      (now : ℕ) (msg : WorkerStatus) (st : Status) (p : Pair fl)
      → Goes p.m (by_status fl now msg st p).m
  unfolding by_status record_history
  by_status-Goes now msg Status.uploading p = (refl, upload-state p.m.state)
  by_status-Goes now msg _ p = (refl, inl refl)

  apply_status-Goes :
      (now : ℕ) (msg : WorkerStatus) (m : Model F) (w : Option (WorkerState F))
      → Goes m (apply_status fl now msg m w)
  unfolding apply_status
  apply_status-Goes now msg m none = (refl, inl refl)
  apply_status-Goes now msg m (some w) = by_status-Goes now msg msg.status _

  conclude-Goes : (now : ℕ) (m m' : Model F) → Goes m m' → Goes m (conclude fl now m').0
  unfolding conclude is_paused
  conclude-Goes now m m' g = elim (Bool-cases (all_finished fl m')) [
    | inl fin ↦ rw fin (g.0, inr refl)
    | inr more ↦ rw more g
  ]

  on_status-Goes : (now : ℕ) (msg : WorkerStatus) (m : Model F) → Goes m (on_status fl now msg m).0
  unfolding on_status recalc_uploaded_bytes
  on_status-Goes now msg m =
      conclude-Goes now m _ (apply_status-Goes now msg m (worker_at m.workers msg.worker_id))

  -- The key of the pause.
  on_pause-Paused :
      (m : Model F) (s : ProgramState) → m.state ≡ s → Paused m → Paused (on_pause m s)
  unfolding on_pause resumed_state
  on_pause-Paused m ProgramState.uploading e v = λ _. rw e tt
  on_pause-Paused m ProgramState.catching_up e v = λ _. rw e tt
  on_pause-Paused m ProgramState.paused e v = λ _. v e
  on_pause-Paused m _ e v = v

  on_pause-view :
      (m : Model F) (s : ProgramState) → m.state ≡ s → Paused m → view (on_pause m s) ≡ view m
  unfolding view on_pause resumed_state display_state page_of
  on_pause-view m ProgramState.uploading e v = rw e refl
  on_pause-view m ProgramState.catching_up e v = rw e refl
  on_pause-view m ProgramState.paused e v =
      resumed-page m.paused_from (v e) ∙ ap (λ s. page_of (display_state s m.paused_from)) (sym e)
  on_pause-view m _ e v = refl

  on_pause-EndsRight :
      (m : Model F) (s : ProgramState)
      → m.state ≡ s
      → Paused m
      → EndsRight fl m
      → EndsRight fl (on_pause m s)
  unfolding on_pause
  on_pause-EndsRight m ProgramState.uploading e v (inl (le, done, time)) = cc (e, done)
  on_pause-EndsRight m ProgramState.uploading e v (inr (lt, runs)) = inr (lt, (λ h. cc h))
  on_pause-EndsRight m ProgramState.catching_up e v (inl (le, done, time)) = cc (e, done)
  on_pause-EndsRight m ProgramState.catching_up e v (inr (lt, runs)) = inr (lt, (λ h. cc h))
  on_pause-EndsRight m ProgramState.paused e v (inl (le, done, time)) = cc (e, done)
  on_pause-EndsRight m ProgramState.paused e v (inr (lt, runs)) =
      inr (lt, resumed-not_done m.paused_from (v e))
  on_pause-EndsRight m _ e v right = right

  on_pause-counts :
      (m : Model F) (s : ProgramState)
      → (ended fl (on_pause m s) ≡ ended fl m) × ((on_pause m s).total_files ≡ m.total_files)
  unfolding on_pause
  on_pause-counts m ProgramState.uploading = (refl, refl)
  on_pause-counts m ProgramState.catching_up = (refl, refl)
  on_pause-counts m ProgramState.paused = (refl, refl)
  on_pause-counts m _ = (refl, refl)

-- A message of a worker, at its time, or the key of the pause.
pub data Turn : Type 0 where
  told : ℕ → WorkerStatus → Turn
  pause_pressed : Turn

module _ (fl : Floats) where
  open fl use {F}

  abbrev pub take_turn : Turn → Model F → Model F
  take_turn (told now msg) m = (on_status fl now msg m).0
  take_turn pause_pressed m = on_pause m m.state

  abbrev pub take_turns : List Turn → Model F → Model F
  take_turns [] m = m
  take_turns (t ∷ ts) m = take_turns ts (take_turn t m)

  -- The summary shows if every file has ended, and not before; the key of the pause, and the same key
  -- again, leave the page as it is.
  abbrev pub PageRight : Model F → Type 0
  PageRight m =
      ((view m ≡ summary_page) ↔ (m.total_files ≤ ended fl m))
      × (view (take_turn pause_pressed m) ≡ view m)
      × (view (take_turn pause_pressed (take_turn pause_pressed m)) ≡ view m)

  EndsRight-PageRight : (m : Model F) → Paused fl m → EndsRight fl m → PageRight m
  unfolding view
  EndsRight-PageRight m v right =
      let once = on_pause-view fl m m.state refl v in
      let v' = on_pause-Paused fl m m.state refl v in
      let (only, shows) = summary-done m.state m.paused_from in
      (
        (
          (λ h. elim right [ inl (le, done, time) ↦ le | inr (lt, runs) ↦ absurd (runs (only h)) ]),
          (λ h. elim right [
            | inl (le, done, time) ↦ shows done
            | inr (lt, runs) ↦ absurd (omega (arith, h, lt))
          ]),
        ),
        once,
        on_pause-view fl (on_pause m m.state) _ refl v' ∙ once,
      )

  take_turn-Right :
      (t : Turn) (m : Model F)
      → ended fl m < 2 ^ 62
      → m.total_files < 2 ^ 63
      → 0 < m.total_files
      → Paused fl m
      → EndsRight fl m
      → (ended fl (take_turn t m) ≤ suc (ended fl m))
        × ((take_turn t m).total_files ≡ m.total_files)
        × Paused fl (take_turn t m)
        × EndsRight fl (take_turn t m)
  take_turn-Right (told now msg) m h b z v right =
      let (sum, total, workers, rest) = on_status-Next fl now msg m h b z in
      (
        omega (arith, sum, adds-le_one (length m.workers) msg),
        total,
        Goes-Paused fl m (on_status fl now msg m).0 (on_status-Goes fl now msg m) v,
        on_status-EndsRight fl now msg m h b z right,
      )
  take_turn-Right pause_pressed m h b z v right =
      let (sum, total) = on_pause-counts fl m m.state in
      (
        omega (arith, sum),
        total,
        on_pause-Paused fl m m.state refl v,
        on_pause-EndsRight fl m m.state refl v right,
      )

  -- After any messages of the workers with any presses of the pause between them: View shows the summary
  -- exactly if every file has ended, and pausing and resuming leave the page as it is. The run starts
  -- with a right end and a right pause, a positive total that fits an int64, and the counts stay below
  -- 2^62.
  pub take_turns-PageRight :
      (ts : List Turn) (m : Model F)
      → ended fl m + length ts < 2 ^ 62
      → m.total_files < 2 ^ 63
      → 0 < m.total_files
      → Paused fl m
      → EndsRight fl m
      → PageRight (take_turns ts m)
  take_turns-PageRight [] m h b z v right = EndsRight-PageRight m v right
  take_turns-PageRight (t ∷ ts) m h b z v right =
      let (sum, total, v', right') = take_turn-Right t m (omega (arith, h)) b z v right in
      take_turns-PageRight ts (take_turn t m) (omega (arith, h, sum)) (rw total b) (rw total z) v'
        right'
