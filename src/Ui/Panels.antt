-- ===== src/Ui/Panels.antt =====
-- The panels of ui/panels.go as the values of their lines: titles and badges, statusBadge, workerBadge,
-- renderHistoryPane, renderQueuePane and the lines of renderTransfersPane; and the history of
-- renderWorkerDetail in ui/view.go. Styles are left out. filepath.Base and the cells of a bar, which
-- are float64 arithmetic, are arguments; names are bytes, as len and slices take them.
pub mod Rows
use timberlake.Base.{
  ℕ, zero, suc, ◌+◌, ◌-◌, Bool, true, false, ◌&&◌, ◌||◌, not, List, [], ◌∷◌, ◌++◌, map, Option,
  none, some, ltb, leb, ◌==◌, length, get_elem?, take, drop, if◌then◌else◌,
}
use timberlake.Base.Words.{add64, sub64, lt64}
use timberlake.Base.Int.{ℤ, pos, negsuc, ◌+ℤ◌, ltb_ℤ}
use timberlake.Io.{Text, codes, Item, Error}
use timberlake.Strings.{em_dash}
use timberlake.Config.{AppConfig}
use timberlake.Web.Tunnel.{TunnelState}
use timberlake.Ui.Model.{Floats, ProgramState, Status, Pane, FileRecord, WorkerState, Model}
use timberlake.Ui.Update.{finished_files, live_transferred_bytes}
use timberlake.Ui.Publish.{status_name}
use timberlake.Ui.Screen.{at_least}
use timberlake.Ui.View.{Segments, render_buffer_bar}

-- t
unfoldable pub themed : AppConfig → Text → Text → Text
themed cfg fancy plain = if cfg.out_of_sync then plain else fancy

-- Title
unfoldable pub title : Pane → Text
title Pane.progress = codes "Progress"
title Pane.transfers = codes "Transfers"
title Pane.history = codes "History"
title Pane.queue = codes "Queue"
title Pane.web = codes "Web UI"

unfoldable pub is_idle : Status → Bool
is_idle Status.idle = true
is_idle _ = false

unfoldable pub active_workers : {F : Type 0} → List (WorkerState F) → ℕ
unfolding is_idle
active_workers [] = 0
active_workers (w ∷ ws) = let n = active_workers ws in if is_idle w.status then n else suc n

-- What a badge shows: nothing, a share in percent, a count, or the reach of the page.
pub data Badge : Type 0 where
  no_badge off_badge lan_badge public_badge : Badge
  percent : ℕ → ℕ → Badge
  number : ℕ → Badge

-- Whether there is a page, and the state of the tunnel if there is one.
unfoldable pub web_badge : Bool → Option TunnelState → Badge
web_badge false tunnel = off_badge
web_badge true (some TunnelState.on) = public_badge
web_badge true _ = lan_badge

module _ (fl : Floats) where
  open fl use {F}

  unfoldable pub remaining_files : Model F → ℕ
  remaining_files m = sub64 m.total_files (finished_files fl m)

  -- paneBadge
  unfoldable pub pane_badge : Bool → Option TunnelState → Model F → Pane → Badge
  unfolding active_workers web_badge remaining_files
  pane_badge web tunnel m Pane.progress =
      if lt64 0 m.total_files then percent (finished_files fl m) m.total_files else no_badge
  pane_badge web tunnel m Pane.transfers = number (active_workers m.workers)
  pane_badge web tunnel m Pane.history = number (length m.recent_files)
  pane_badge web tunnel m Pane.queue = number (remaining_files m)
  pane_badge web tunnel m Pane.web = web_badge web tunnel

-- statusBadge, with the message of an error.
unfoldable pub status_badge : AppConfig → Text → ProgramState → Text
unfolding themed
status_badge cfg failure ProgramState.paused =
    themed cfg (codes "PAUSED (\"DRIVE MYSELF CRAZY\")") (codes "PAUSED")
    ++ (codes " " ++ (em_dash ++ codes " workers stopped"))
status_badge cfg failure ProgramState.failed =
    themed cfg (codes "ERROR (\"TEARIN' UP MY HEART\") ") (codes "ERROR ") ++ failure
status_badge cfg failure ProgramState.catching_up = codes "CATCHING UP"
status_badge cfg failure _ =
    if cfg.verify_only
    then codes "VERIFYING (no writes)"
    else if cfg.dry_run
    then codes "DRY RUN (no writes)"
    else themed cfg (codes "UPLOADING (\"CAN'T STOP THE FEELING!\")") (codes "UPLOADING")

unfoldable pub worker_badge : AppConfig → Status → Text
unfolding themed status_name
worker_badge cfg Status.uploading = themed cfg (codes " POP! ") (codes " UP  ")
worker_badge cfg Status.checking = themed cfg (codes " MAY! ") (codes " CHK ")
worker_badge cfg Status.queued = codes " WAIT "
worker_badge cfg Status.error = themed cfg (codes " TEAR ") (codes " ERR ")
worker_badge cfg s = status_name s

-- A name in a column: its start, or its end, with dots for the rest.
unfoldable pub cut_end : ℕ → Text → Text
cut_end width name = if ltb width (length name) then take (width - 3) name ++ codes "..." else name

unfoldable pub cut_start : ℕ → Text → Text
cut_start width name =
    if ltb width (length name) then codes "..." ++ drop (length name - (width - 3)) name else name

-- hist[len(hist)-n:] if it is longer, and the loop from its end.
unfoldable pub last_of : {A : Type 0} → ℕ → List A → List A
last_of n xs = if ltb n (length xs) then drop (length xs - n) xs else xs

unfoldable pub backwards : {A : Type 0} → List A → List A
backwards [] = []
backwards (x ∷ xs) = backwards xs ++ x ∷ []

-- A line of a history: the status, the name as it is shown, the size and the duration if it is
-- positive.
pub record HistoryRow : Type 0 where
  pub status : Status
  pub name : Text
  pub size : ℕ
  pub took : Option ℕ

unfoldable pub took : ℕ → Option ℕ
took zero = none
took (suc n) = some (suc n)

module _ (base : Text → Text) where
  unfoldable pub history_line : ℕ → FileRecord → HistoryRow
  unfolding cut_end took
  history_line name_width r = record {
    status = r.status;
    name = cut_end name_width (base r.name);
    size = r.size;
    took = took r.duration;
  }

  -- renderHistoryPane; no line for an empty history, where it says so. A negative width is below the
  -- least as much as 0 is.
  unfoldable pub render_history_pane : ℕ → ℕ → List FileRecord → List HistoryRow
  unfolding history_line at_least last_of backwards
  render_history_pane width height hist =
      map (history_line (at_least 12 (width - 34))) (backwards (last_of height hist))

-- The history of renderWorkerDetail: twelve files, with names of 46 bytes.
unfoldable pub detail_line : FileRecord → HistoryRow
unfolding cut_start took
detail_line r = record {
  status = r.status;
  name = cut_start 46 r.name;
  size = r.size;
  took = took r.duration;
}

unfoldable pub detail_history : List FileRecord → List HistoryRow
unfolding detail_line last_of backwards
detail_history hist = map detail_line (backwards (last_of 12 hist))

-- The lines of renderQueuePane: the files and the bytes that remain; a file with its number.
pub data QueueRow : Type 0 where
  queue_head : ℕ → ℕ → QueueRow
  queue_gap queue_drained : QueueRow
  queue_item : ℕ → Text → ℕ → QueueRow

-- QueuePos + 1, within the queue.
unfoldable pub queue_start : ℤ → ℕ → ℕ
queue_start (negsuc n) len = 0
queue_start (pos n) len = if ltb len (n + 1) then len else n + 1

unfoldable pub queue_items : ℕ → ℕ → List Item → List QueueRow
unfolding cut_start
queue_items name_width n [] = []
queue_items name_width n (it ∷ items) =
    queue_item n (cut_start name_width it.relative_path) it.size
    ∷ queue_items name_width (suc n) items

unfoldable pub or_drained : List QueueRow → List QueueRow
or_drained [] = queue_drained ∷ []
or_drained (r ∷ rs) = r ∷ rs

module _ (fl : Floats) where
  open fl use {F}

  unfoldable pub render_queue_pane : ℕ → ℕ → Model F → List QueueRow
  unfolding queue_start queue_items or_drained at_least remaining_files
  render_queue_pane width height m =
      let start = queue_start m.queue_pos (length m.work_queue) in
      queue_head (remaining_files fl m)
        (sub64 m.total_bytes (add64 (live_transferred_bytes fl m) m.skipped_bytes))
      ∷ queue_gap
      ∷ or_drained (
          queue_items (at_least 12 (width - 20)) (start + 1)
            (take (at_least 1 (height - 3)) (drop start m.work_queue)))

  -- A line of renderTransfersPane: the number of the worker, whether the cursor is on it, and what it
  -- does.
  pub data WorkerLine : Type 0 where
    idle_line : ℕ → Bool → WorkerLine
    busy_line : ℕ → Bool → Text → Segments → Text → ℕ → WorkerLine

  unfoldable pub same_index : ℤ → ℕ → Bool
  same_index (negsuc n) i = false
  same_index (pos n) i = n == i

  module _ (cells : ℤ → ℤ → ℤ → ℤ) (base : Text → Text) (to_int : ℕ → ℤ) where
    -- `to_int` is the value of an int64.
    unfoldable pub worker_line : AppConfig → ℕ → ℤ → ℕ → WorkerState F → WorkerLine
    unfolding is_idle worker_badge cut_end at_least same_index render_buffer_bar
    worker_line cfg width selected i w =
        if is_idle w.status
        then idle_line (suc i) (same_index selected i)
        else busy_line (suc i) (same_index selected i) (worker_badge cfg w.status)
            (render_buffer_bar cells (pos (at_least 10 (width - 62))) (to_int w.committed_size)
              (to_int w.uploaded_size) (to_int w.buffered_size) (to_int w.total_size))
            (cut_end 22 (base w.file_name)) w.total_size
