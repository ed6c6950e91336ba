-- ===== src/Ui/Keys/Gate.antt =====
-- The gate of the workers and the state, over the keys (Ui/Keys).
use timberlake.Base.{ℕ, ◌≡◌, ◌≢◌, ◌⊎◌, true, false, List, [], ◌∷◌}
use timberlake.Ui.Model.{ProgramState, Model}
use timberlake.Ui.Keys.{Key, on_key}

-- Over, or the gate is closed exactly in StatePaused.
abbrev pub Agrees : {F : Type 0} → Model F → Type 0
Agrees m =
    (m.ctx_cancelled ≡ true)
    ⊎ (((m.state ≡ ProgramState.paused) × (m.gate_paused ≡ true))
        ⊎ ((m.state ≢ ProgramState.paused) × (m.gate_paused ≡ false)))

module _ {F : Type 0} where
  abbrev pub press_all : List (ℕ × Key) → Model F → Model F
  press_all [] m = m
  press_all ((now, k) ∷ ks) m = press_all ks (on_key now m k).0
