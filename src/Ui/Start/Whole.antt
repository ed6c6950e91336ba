-- ===== src/Ui/Start/Whole.antt =====
-- A whole session, from the model with which the program starts (Ui/Start).
use timberlake.Base.{ℕ, Bool, List, Option, none}
use timberlake.Io.{Text, Item, Result}
use timberlake.Ui.Model.{Floats, Model}
use timberlake.Ui.Update.{on_scan}
use timberlake.Ui.Pool.{Pool}
use timberlake.Ui.Start.{scan_complete, initial_model, begin_pool}

module _ (fl : Floats) where
  open fl use {F}

  -- The model when the workers start: the scan has found `items`, and the destination has been listed
  -- before, if it can be and they are enough, with `answer`.
  abbrev pub ready : ℕ → Bool → ℕ → ℕ → List Item → Result (Option (List (Text × ℕ))) → Model F
  ready jobs bulk now₀ now₁ items answer =
      let scanned = on_scan fl now₁ (scan_complete items none) (initial_model fl jobs bulk now₀) in
      begin_pool fl answer scanned.0 scanned.1
