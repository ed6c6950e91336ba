-- ===== src/Ui/Page.antt =====
-- What ui/view.go and ui/panels.go show outside the panes of lists, as values: the page that View
-- chooses, renderHeader, renderCatchUpPanel, renderProgressPane, the upper half of renderWorkerDetail;
-- totalBarRatio and the trivia of a spinner.TickMsg in ui/update.go. Styles are left out, float64 is an
-- argument, and times are nanoseconds.
pub mod Shown
use timberlake.Base.{
  ℕ, suc, ◌+◌, ◌-◌, ◌%◌, Bool, true, false, ◌&&◌, ◌||◌, not, List, [], ◌∷◌, ◌++◌, Option, none,
  some, ltb, leb, ◌==◌, length, get_elem?, if◌then◌else◌,
}
use timberlake.Base.Words.{add64, sub64, lt64}
use timberlake.Base.Int.{ℤ, pos}
use timberlake.Io.{Text, codes}
use timberlake.Strings.{is_empty, em_dash, ellipsis}
use timberlake.Config.{AppConfig}
use timberlake.Ui.Model.{Floats, ProgramState, Status, WorkerState, Model}
use timberlake.Ui.Update.{finished_files, live_transferred_bytes}
use timberlake.Ui.View.{Segments, render_buffer_bar}
use timberlake.Ui.Panels.{is_idle, status_badge}
use timberlake.Ui.Screen.{at_least}
use timberlake.Ui.Summary.{Rate, format_speed, format_eta}

-- The state that View draws: a pause of the catch-up keeps its panel.
unfoldable pub display_state : ProgramState → ProgramState → ProgramState
display_state ProgramState.paused ProgramState.catching_up = ProgramState.catching_up
display_state s paused_from = s

pub data Page : Type 0 where
  scanning_page catch_up_page summary_page dashboard : Page

unfoldable pub page_of : ProgramState → Page
page_of ProgramState.scanning = scanning_page
page_of ProgramState.catching_up = catch_up_page
page_of ProgramState.done = summary_page
page_of _ = dashboard

-- View, up to what the page shows.
unfoldable pub view : {F : Type 0} → Model F → Page
unfolding display_state page_of
view m = page_of (display_state m.state m.paused_from)

unfoldable pub is_paused : ProgramState → Bool
is_paused ProgramState.paused = true
is_paused _ = false

-- A ratio of a bar: 0 without a total, 1 above it, or the quotient.
pub data Ratio : Type 0 where
  empty_ratio full_ratio : Ratio
  ratio_of : ℕ → ℕ → Ratio

-- `above n total` is float64(n) / float64(total) > 1.
unfoldable pub ratio : (ℕ → ℕ → Bool) → ℕ → ℕ → Ratio
ratio above n total =
    if not (lt64 0 total)
    then empty_ratio
    else if above n total
    then full_ratio
    else ratio_of n total

-- The numbers of the header: the files that have ended and all files, the speed if it is positive, and
-- whether the run is paused.
pub record Header : Type 0 where
  pub done : ℕ
  pub total : ℕ
  pub speed : Option Rate
  pub paused : Bool

-- The panel of the catch-up: the listing, or the check of each file with the files and the time that
-- its rate comes from.
pub data CatchUpPanel : Type 0 where
  listing : Bool → ℕ → ℕ → CatchUpPanel
  checks : Bool → Ratio → ℕ → ℕ → ℕ → ℕ → Option (ℕ × ℕ) → Text → CatchUpPanel

-- A speed and an estimate: "measuring…" and "--:--", or what they are; `none` for a panic.
pub data Pace : Type 0 where
  measuring : Pace
  measured : Option Rate → Text → Pace

pub record ProgressPane : Type 0 where
  pub status : Text
  pub bytes_ratio : Ratio
  pub transferred : ℕ
  pub total_bytes : ℕ
  pub pace : Pace
  pub files_ratio : Ratio
  pub done : ℕ
  pub total_files : ℕ
  pub uploaded : ℕ
  pub skipped : ℕ
  pub failed : ℕ
  pub elapsed : ℕ
  pub jobs : ℤ
  pub part_size_mb : ℤ
  pub fact : Option Text

-- The item of a worker in its detail.
pub record Current : Type 0 where
  pub file : Text
  pub status : Status
  pub bar : Segments
  pub share : Ratio
  pub committed : ℕ
  pub sent : ℕ
  pub size : ℕ
  pub rate : Option Rate
  pub eta : Text
  pub elapsed : Option ℕ

-- m.TriviaList[m.TriviaIndex%len(m.TriviaList)], if the theme is on and there are any.
unfoldable pub fact_of : AppConfig → List Text → ℕ → Option Text
fact_of cfg [] index = none
fact_of cfg (f ∷ facts) index =
    if cfg.out_of_sync then none else get_elem? (f ∷ facts) (index % length (f ∷ facts))

abbrev pub trivia_display_duration : ℕ
trivia_display_duration = 45_000_000_000

-- TriviaIndex and LastTriviaUpdate after a tick.
unfoldable pub next_trivia : AppConfig → List Text → ℕ → ℕ → ℕ → ℕ × ℕ
next_trivia cfg [] now index last = (index, last)
next_trivia cfg (f ∷ facts) now index last =
    if not cfg.out_of_sync && leb trivia_display_duration (now - last)
    then (suc index % length (f ∷ facts), now)
    else (index, last)

unfoldable pub or_measuring : Text → Text
unfolding is_empty
or_measuring eta = if is_empty eta then codes "measuring" ++ ellipsis else eta

module _ (fl : Floats) (above : ℕ → ℕ → Bool) where
  open fl use {F}

  -- totalBarRatio
  unfoldable pub total_bar_ratio : Model F → Ratio
  unfolding ratio
  total_bar_ratio m =
      ratio above (add64 (live_transferred_bytes fl m) m.skipped_bytes) m.total_bytes

  unfoldable pub files_ratio : Model F → Ratio
  unfolding ratio
  files_ratio m = ratio above (finished_files fl m) m.total_files

  -- renderCatchUpPanel, with CatchUpETA.
  unfoldable pub render_catch_up_panel : ℕ → Text → Model F → CatchUpPanel
  unfolding files_ratio is_paused or_measuring
  render_catch_up_panel now eta m =
      let checked = add64 (add64 m.skipped_files m.uploaded_files) m.failed_files in
      let elapsed = now - m.start_time in
      if m.bulk_listing
      then listing (is_paused m.state) m.bulk_found m.total_files
      else checks (is_paused m.state) (ratio above checked m.total_files) checked m.total_files
          m.skipped_files m.skipped_bytes
          (if leb 1_000_000_000 elapsed && lt64 0 checked then some (checked, elapsed) else none)
          (or_measuring eta)

  -- `positive` is whether a float64 is above 0, `whole` its int64, and `over` the duration of bytes at
  -- a speed.
  module _ (positive : F → Bool) (whole : F → ℕ) (over : ℕ → F → Text) where
    -- renderHeader; nothing but the names without files.
    unfoldable pub render_header : F → Model F → Option Header
    unfolding format_speed is_paused
    render_header speed m =
        if lt64 0 m.total_files
        then some (record {
          done = finished_files fl m;
          total = m.total_files;
          speed = if positive speed then format_speed (positive speed) (whole speed) else none;
          paused = is_paused m.state;
        })
        else none

    unfoldable pub is_uploading : ProgramState → Bool
    is_uploading ProgramState.uploading = true
    is_uploading _ = false

    -- The speed and the estimate of the run.
    unfoldable pub pace_of : ℕ → F → ℕ → Model F → Pace
    unfolding is_uploading format_speed format_eta
    pace_of now speed transferred m =
        if not (positive speed) && is_uploading m.state && ltb (now - m.start_time) 8_000_000_000
        then measuring
        else measured (format_speed (positive speed) (whole speed))
            (format_eta (λ b. over b speed) (positive speed) (sub64 m.total_bytes transferred))

    -- renderProgressPane, with the message of an error.
    unfoldable pub render_progress_pane :
        AppConfig → List Text → ℕ → Text → ℕ → F → Model F → ProgressPane
    unfolding total_bar_ratio files_ratio pace_of fact_of status_badge
    render_progress_pane cfg facts index failure now speed m =
        let transferred = add64 (live_transferred_bytes fl m) m.skipped_bytes in
        record {
          status = status_badge cfg failure m.state;
          bytes_ratio = total_bar_ratio m;
          transferred = transferred;
          total_bytes = m.total_bytes;
          pace = pace_of now speed transferred m;
          files_ratio = files_ratio m;
          done = finished_files fl m;
          total_files = m.total_files;
          uploaded = m.uploaded_files;
          skipped = m.skipped_files;
          failed = m.failed_files;
          elapsed = now - m.start_time;
          jobs = cfg.jobs;
          part_size_mb = cfg.part_size_mb;
          fact = fact_of cfg facts index;
        }

    unfoldable pub elapsed_since : ℕ → Option ℕ → Option ℕ
    elapsed_since now none = none
    elapsed_since now (some start) = some (now - start)

    -- The upper half of renderWorkerDetail; none for an idle worker. `to_int` is the value of an int64.
    unfoldable pub current_item : (ℤ → ℤ → ℤ → ℤ) → (ℕ → ℤ) → ℕ → ℕ → WorkerState F → Option Current
    unfolding is_idle is_empty at_least render_buffer_bar ratio format_speed format_eta
        elapsed_since
    current_item cells to_int width now w =
        if is_idle w.status || is_empty w.file_name
        then none
        else some (record {
          file = w.file_name;
          status = w.status;
          bar =
              render_buffer_bar cells (pos (at_least 20 (width - 16))) (to_int w.committed_size)
                (to_int w.uploaded_size) (to_int w.buffered_size) (to_int w.total_size);
          share = ratio above w.uploaded_size w.total_size;
          committed = w.committed_size;
          sent = w.uploaded_size;
          size = w.total_size;
          rate =
              if positive w.speed_bps
              then format_speed (positive w.speed_bps) (whole w.speed_bps)
              else none;
          eta =
              if positive w.speed_bps
              then format_eta (λ b. over b w.speed_bps) (positive w.speed_bps)
                  (sub64 w.total_size w.committed_size)
              else codes "--:--";
          elapsed = elapsed_since now w.start_time;
        })
