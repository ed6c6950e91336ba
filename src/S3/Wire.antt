-- ===== src/S3/Wire.antt =====
-- countingTransport and countingReadCloser of transfer/s3backend/internal.go: the counters of one
-- upload, and the bodies of its PUT requests, which the HTTP client reads in any order.
pub mod Order
use timberlake.Base.{
  ℕ, zero, suc, Bool, true, false, List, [], ◌∷◌, Option, none, some, and_then, if◌then◌else◌,
}
use timberlake.Base.Words.{add64}

-- A countingReadCloser, and whether its RoundTrip has returned.
pub record Body : Type 0 where
  pub sent : ℕ
  pub returned : Bool

pub record Wire : Type 0 where
  pub wire : ℕ
  pub committed : ℕ
  pub bodies : List Body

abbrev pub no_wire : Wire
no_wire = record { wire = 0; committed = 0; bodies = [] }

-- A RoundTrip begins; the k-th body delivers n bytes; the RoundTrip of the k-th body returns, with a
-- status of 200 to 299 or not.
pub data Traffic : Type 0 where
  begin : Traffic
  read : ℕ → ℕ → Traffic
  return : ℕ → Bool → Traffic

abbrev pub body_first : Body → List Body → Option (List Body)
body_first b bs = some (b ∷ bs)

-- c.sent.Add
unfoldable pub bump : ℕ → ℕ → List Body → Option (List Body)
bump k n [] = none
bump zero n (b ∷ bs) = some (record b { sent = add64 b.sent n } ∷ bs)
bump (suc k) n (b ∷ bs) = and_then (body_first b) (bump k n bs)

-- What the k-th body has sent, and the bodies after its RoundTrip; `none` if it has returned.
abbrev pub close_first : Body → ℕ × List Body → Option (ℕ × List Body)
close_first b (sent, bs) = some (sent, b ∷ bs)

unfoldable pub close : ℕ → List Body → Option (ℕ × List Body)
close k [] = none
close zero (b ∷ bs) = if b.returned then none else some (b.sent, record b { returned = true } ∷ bs)
close (suc k) (b ∷ bs) = and_then (close_first b) (close k bs)

abbrev pub after_read : Wire → ℕ → List Body → Option Wire
after_read w n bs = some (record w { wire = add64 w.wire n; bodies = bs })

abbrev pub after_return : Wire → Bool → ℕ × List Body → Option Wire
after_return w true (sent, bs) = some (record w { committed = add64 w.committed sent; bodies = bs })
after_return w false (sent, bs) = some (record w { bodies = bs })

unfoldable pub step : Traffic → Wire → Option Wire
unfolding bump close
step begin w = some (record w { bodies = record { sent = 0; returned = false } ∷ w.bodies })
step (read k n) w = and_then (after_read w n) (bump k n w.bodies)
step (return k success) w = and_then (after_return w success) (close k w.bodies)

unfoldable pub run : List Traffic → Wire → Option Wire
unfolding step
run [] w = some w
run (t ∷ ts) w = and_then (run ts) (step t w)
