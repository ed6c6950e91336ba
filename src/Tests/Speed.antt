-- ===== src/Tests/Speed.antt =====
-- Two ticks, four seconds apart, while a worker sends.
use timberlake.Base.{ℕ, ◌≤◌, ◌≡◌, refl, List, [], ◌∷◌, none, length}
use timberlake.Ui.Model.{Model}
use timberlake.Ui.Speed.{Speed, sample_speed}
use timberlake.Ui.Update.{live_transferred_bytes, live_bytes}
use timberlake.Ui.Speed.Rolling.{IsWindow, IsRate, Known, ticks, ticks-IsRolling}
use timberlake.Tests.Ui.{whole, fresh}

abbrev no_speed : Speed ℕ
no_speed = record { speed_bps = 0; samples = []; last_speed_time = none }

abbrev two_ticks : List (ℕ × Model ℕ)
two_ticks = (4_000_000_000, fresh) ∷ (8_000_000_000, record fresh { completed_bytes = 4096 }) ∷ []

speed_measured : (ticks whole two_ticks no_speed).speed_bps ≡ 4096
unfolding sample_speed live_transferred_bytes live_bytes
speed_measured = refl

ticks-IsRolling_example :
    IsWindow whole (ticks whole two_ticks no_speed)
    × (length (ticks whole two_ticks no_speed).samples ≤ 17)
    × IsRate whole (Known whole [] two_ticks) 0 (ticks whole two_ticks no_speed).speed_bps
ticks-IsRolling_example = ticks-IsRolling whole two_ticks no_speed refl
