-- ===== src/Ui/Speed.antt =====
-- sampleSpeed and refreshCatchUpETA of ui/update.go: the rolling window of the upload speed, and the
-- text of the catch-up estimate. Times are nanoseconds; float64 is a parameter.
pub mod Rolling
use timberlake.Base.{
  ℕ, ◌-◌, ◌+◌, Bool, true, false, ◌&&◌, ◌||◌, not, List, [], ◌∷◌, ◌++◌, Option, none, some, ltb,
  leb, ◌==◌, if◌then◌else◌,
}
use timberlake.Base.Words.{sub64, lt64}
use timberlake.Io.{Text, codes}
use timberlake.Strings.{is_empty, em_dash, ellipsis}
use timberlake.Ui.Model.{Floats, Model, ProgramState}
use timberlake.Ui.Update.{live_transferred_bytes, is_catching_up, finished_files}

abbrev pub speed_warmup : ℕ
speed_warmup = 3_000_000_000

abbrev pub speed_sample_gap : ℕ
speed_sample_gap = 750_000_000

abbrev pub speed_window : ℕ
speed_window = 12_000_000_000

abbrev pub catch_up_eta_interval : ℕ
catch_up_eta_interval = 5_000_000_000

pub record SpeedSample : Type 0 where
  pub at : ℕ
  pub bytes : ℕ

-- SpeedBps, speedSamples and lastSpeedTime of the model.
pub record Speed (F : Type 0) : Type 0 where
  pub speed_bps : F
  pub samples : List SpeedSample
  pub last_speed_time : Option ℕ

-- The loop over the samples before the cutoff; the last one stays.
unfoldable pub drop_old : ℕ → List SpeedSample → List SpeedSample
drop_old cutoff [] = []
drop_old cutoff (s ∷ []) = s ∷ []
drop_old cutoff (s ∷ t ∷ r) = if ltb s.at cutoff then drop_old cutoff (t ∷ r) else s ∷ t ∷ r

unfoldable pub last_sample : SpeedSample → List SpeedSample → SpeedSample
last_sample s [] = s
last_sample s (t ∷ r) = last_sample t r

-- Too early, or too soon after the last sample.
unfoldable pub too_soon : ℕ → Option ℕ → Bool
too_soon now none = false
too_soon now (some last) = ltb (now - last) speed_sample_gap

-- CatchUpETA and catchUpETAAt.
pub record CatchUp : Type 0 where
  pub eta : Text
  pub eta_at : ℕ

module _ (fl : Floats) where
  open fl use {F, rate}

  -- float64(last.bytes-first.bytes) / span, which is negative exactly if the difference is.
  unfoldable pub between : F → SpeedSample → SpeedSample → F
  between old first last =
      if leb 2_000_000_000 (last.at - first.at) && not (lt64 (sub64 last.bytes first.bytes) 0)
      then rate (sub64 last.bytes first.bytes) (last.at - first.at)
      else old

  unfoldable pub measure : F → List SpeedSample → F
  unfolding between last_sample
  measure old [] = old
  measure old (s ∷ []) = old
  measure old (s ∷ t ∷ r) = between old s (last_sample t r)

  unfoldable pub add_sample : ℕ → ℕ → Speed F → Speed F
  unfolding measure drop_old
  add_sample now bytes sp =
      let kept =
        drop_old (now - speed_window) (sp.samples ++ record { at = now; bytes = bytes } ∷ []) in
      record { speed_bps = measure sp.speed_bps kept; samples = kept; last_speed_time = some now }

  unfoldable pub sample_speed : ℕ → Model F → Speed F → Speed F
  unfolding too_soon add_sample
  sample_speed now m sp =
      if ltb (now - m.start_time) speed_warmup || too_soon now sp.last_speed_time
      then sp
      else add_sample now (live_transferred_bytes fl m) sp

  -- `text checked elapsed remaining` is the rounded duration that the float64 arithmetic gives.
  unfoldable pub eta_text : (ℕ → ℕ → ℕ → Text) → ℕ → Model F → Text
  eta_text text now m =
      let checked = finished_files fl m in
      let elapsed = now - m.start_time in
      let remaining = sub64 m.total_files checked in
      if ltb elapsed 1_000_000_000 || checked == 0
      then codes "measuring" ++ ellipsis
      else if lt64 0 remaining && lt64 0 checked
      then text checked elapsed remaining
      else em_dash

  -- refreshCatchUpETA
  unfoldable pub refresh_catch_up_eta : (ℕ → ℕ → ℕ → Text) → ℕ → Model F → CatchUp → CatchUp
  unfolding eta_text is_catching_up is_empty
  refresh_catch_up_eta text now m c =
      if not (is_catching_up m.state) && not (is_catching_up m.paused_from)
      then c
      else if ltb (now - c.eta_at) catch_up_eta_interval && not (is_empty c.eta)
      then c
      else record { eta = eta_text text now m; eta_at = now }
