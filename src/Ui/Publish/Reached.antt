-- ===== src/Ui/Publish/Reached.antt =====
-- What publishWeb publishes, as a browser gets it (Ui/Publish, Web/Hub).
use timberlake.Base.{ℕ, List, [], ◌∷◌}
use timberlake.Ui.Model.{Floats, Model}
use timberlake.Web.Hub.{Hub, Snapshot, Event, set, wake, run}

module _ (fl : Floats) where
  abbrev after : List (Event fl.F fl.zero_f) → Hub fl.F fl.zero_f → Hub fl.F fl.zero_f
  after es h = run fl.F fl.zero_f es h

  abbrev published : ℕ → Snapshot fl.F fl.zero_f → List (Event fl.F fl.zero_f)
  published now s = set now s ∷ wake ∷ []
