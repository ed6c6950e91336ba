-- ===== src/Tests/Wire.antt =====
-- Two requests, one of which fails.
use timberlake.Base.{◌≡◌, refl, true, false, List, [], ◌∷◌, some, arith}
use timberlake.S3.Wire.{Wire, no_wire, Traffic, begin, read, return, bump, close, step, run}
use timberlake.S3.Wire.Order.{delivered, Ordered, run-Ordered}

abbrev two_requests : List Traffic
two_requests = begin ∷ read 0 5 ∷ begin ∷ read 0 7 ∷ return 1 false ∷ read 0 2 ∷ return 0 true ∷ []

abbrev two_bodies : Wire
two_bodies = record {
  wire = 14;
  committed = 9;
  bodies = record { sent = 9; returned = true } ∷ record { sent = 5; returned = true } ∷ [];
}

two_run : run two_requests no_wire ≡ some two_bodies
unfolding run step bump close
two_run = refl

run-Ordered_example : Ordered two_bodies
unfolding delivered
run-Ordered_example = run-Ordered two_requests two_bodies (omega arith) two_run
