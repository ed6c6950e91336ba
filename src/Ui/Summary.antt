-- ===== src/Ui/Summary.antt =====
-- renderSummaryBox of ui/view.go as the values that it shows: how the run ended, the durations, the
-- cards and the breakout bar; formatSpeed and formatETA. float64 is an argument, and styles are left
-- out.
pub mod Filled
pub mod Verdict
use timberlake.Base.{
  ℕ, zero, suc, ◌+◌, ◌-◌, Bool, true, false, ◌&&◌, not, List, [], ◌∷◌, ◌++◌, Option, none, some,
  ltb, leb, if◌then◌else◌,
}
use timberlake.Base.Words.{sub64, lt64, add64}
use timberlake.Base.Int.{ℤ, pos, ◌+ℤ◌, ◌-ℤ◌, ltb_ℤ}
use timberlake.Io.{Text, codes}
use timberlake.Config.{AppConfig}
use timberlake.Ui.Model.{Floats, ProgramState, Model}
use timberlake.Ui.View.{Shown, format_bytes, max_ℤ}
use timberlake.Ui.Update.{finished_files}

-- The title of the badge, and its colour.
pub data Ending : Type 0 where
  complete cancelled passed dry_run with_errors : Ending
  discrepancies : ℕ → Ending

pub data Colour : Type 0 where
  green amber red : Colour

unfoldable pub colour : Ending → Colour
colour complete = green
colour cancelled = amber
colour passed = green
colour dry_run = amber
colour with_errors = red
colour (discrepancies n) = red

unfoldable pub is_cancelled : ProgramState → Bool
is_cancelled ProgramState.cancelled = true
is_cancelled _ = false

unfoldable pub ending : {F : Type 0} → AppConfig → Model F → Ending
unfolding is_cancelled
ending cfg m =
    if is_cancelled m.state
    then cancelled
    else if cfg.verify_only
    then (if lt64 0 m.failed_files then discrepancies m.failed_files else passed)
    else if cfg.dry_run
    then dry_run
    else if lt64 0 m.failed_files
    then with_errors
    else complete

abbrev pub or_now : ℕ → Option ℕ → ℕ
or_now now none = now
or_now now (some t) = t

-- From the start to the end, a millisecond if that is not positive.
unfoldable pub run_duration : {F : Type 0} → ℕ → Model F → ℕ
run_duration now m =
    let d = or_now now m.end_time - m.start_time in if leb d 0 then 1_000_000 else d

unfoldable pub since_transfer : ℕ → ℕ → Option ℕ → ℕ
since_transfer end duration none = duration
since_transfer end duration (some t) = if ltb 0 (end - t) then end - t else duration

-- From the first transfer, if that is before the end.
unfoldable pub transfer_duration : {F : Type 0} → ℕ → Model F → ℕ
unfolding run_duration since_transfer
transfer_duration now m =
    since_transfer (or_now now m.end_time) (run_duration now m) m.transfer_start_time

-- The lengths of the segments of the breakout bar.
pub record Breakout : Type 0 where
  pub uploaded : ℤ
  pub skipped : ℤ
  pub failed : ℤ
  pub rest : ℤ

abbrev pub bar_width : ℤ
bar_width = pos 36

-- fW, cut to what the others leave.
unfoldable pub failed_cells : ℤ → ℤ → ℤ → ℤ
failed_cells u s f =
    if ltb_ℤ bar_width (u +ℤ s +ℤ f) then max_ℤ (pos 0) (bar_width -ℤ u -ℤ s) else f

unfoldable pub rest_cells : ℤ → ℤ → ℤ → ℤ
rest_cells u s f = max_ℤ (pos 0) (bar_width -ℤ (u +ℤ s +ℤ f))

module _ (cells : ℕ → ℕ → ℤ) where
  -- `cells n total` is int(float64(n) / float64(total) * float64(width)).
  unfoldable pub segments_of : ℕ → ℕ → ℕ → ℕ → Breakout
  unfolding failed_cells rest_cells
  segments_of uploaded skipped failed total =
      let u = cells uploaded total in
      let s = cells skipped total in
      let f = failed_cells u s (cells failed total) in
      record { uploaded = u; skipped = s; failed = f; rest = rest_cells u s f }

  unfoldable pub breakout_bar : {F : Type 0} → Model F → Option Breakout
  unfolding segments_of
  breakout_bar m =
      if lt64 0 m.total_files
      then some (segments_of m.uploaded_files m.skipped_files m.failed_files m.total_files)
      else none

-- A card: a number of files, with their bytes or a number of errors.
pub record Card : Type 0 where
  pub files : ℕ
  pub below : ℕ

-- What the box shows. `average` is the bytes over the duration of the transfers.
pub record SummaryBox : Type 0 where
  pub ended : Ending
  pub uploaded : Card
  pub skipped : Card
  pub failed : Card
  pub bar : Option Breakout
  pub elapsed : ℕ
  pub average : ℕ × ℕ
  pub quote : Bool

unfoldable pub render_summary_box :
    {F : Type 0} → (ℕ → ℕ → ℤ) → AppConfig → ℕ → Model F → SummaryBox
unfolding ending breakout_bar run_duration transfer_duration
render_summary_box cells cfg now m = record {
  ended = ending cfg m;
  uploaded = record { files = m.uploaded_files; below = m.uploaded_bytes };
  skipped = record { files = m.skipped_files; below = m.skipped_bytes };
  failed = record { files = m.failed_files; below = m.failed_files };
  bar = breakout_bar cells m;
  elapsed = run_duration now m;
  average = (m.uploaded_bytes, transfer_duration now m);
  quote = not cfg.out_of_sync;
}

-- formatSpeed, of whether the speed is positive and of its int64: "0 B/s", or a size per second;
-- `none` for a panic of formatBytes.
pub data Rate : Type 0 where
  no_rate : Rate
  per_second : Shown → Rate

abbrev pub with_rate : Option Shown → Option Rate
with_rate none = none
with_rate (some s) = some (per_second s)

unfoldable pub format_speed : Bool → ℕ → Option Rate
format_speed positive bytes = if positive then with_rate (format_bytes 6 bytes) else some no_rate

-- formatETA: "0s", "--:--", or the rounded duration `over remaining`.
unfoldable pub format_eta : (ℕ → Text) → Bool → ℕ → Text
format_eta over positive remaining =
    if not (lt64 0 remaining)
    then codes "0s"
    else if not positive
    then codes "--:--"
    else over remaining
