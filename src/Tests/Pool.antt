-- ===== src/Tests/Pool.antt =====
-- Two workers with one upload slot: one transfer waits for the other, with a pause in between.
use timberlake.Base.{ℕ, ◌+◌, ◌≤◌, ◌≡◌, refl, Bool, true, false, List, [], ◌∷◌, Option, none, some}
use timberlake.Io.{codes, message, Result, ok, err, eq_text}
use timberlake.Sizes.{known_size}
use timberlake.Ui.Pool.{
  Settings, Pool, Move, work, pause, receive, admit, acquire, check, transfer, says, take_next,
  pass_gate, start_transfer, existing, is_complete, missing_text, after_stat, take_slot, release,
  forward, last_word, advance, step, run, numbered, started,
}
use timberlake.Ui.Pool.Once.{Worth, worth_queued, worth_held, worth_ended}
use timberlake.Ui.Pool.Session.{run-accounted}
use timberlake.Ui.Pool.Slots.{sending_count, run-slots}
use timberlake.Tests.Ui.{scanned}

abbrev one_slot : Settings
one_slot = record {
  known = none;
  verify_only = false;
  dry_run = false;
  slots = some 1;
  error_text = λ e. codes "failed";
  mismatch_text = λ size want. codes "size mismatch";
}

abbrev absent : Result (Bool × ℕ)
absent = ok (false, 0)

-- Until both have passed the check and one has the slot.
abbrev half : List Move
half =
    work 0 receive
    ∷ work 1 receive
    ∷ work 1 admit
    ∷ pause true
    ∷ work 1 (check absent)
    ∷ pause false
    ∷ work 0 admit
    ∷ work 0 (check absent)
    ∷ work 1 acquire
    ∷ []

abbrev rest : List Move
rest =
    work 1 (transfer ((7, 7, 7) ∷ []) (ok tt))
    ∷ work 1 receive
    ∷ work 0 acquire
    ∷ work 0 (transfer [] (err (message "lost")))
    ∷ work 0 receive
    ∷ []

abbrev beginning : Pool
beginning = started 2 false scanned.items

abbrev pool_of : Option Pool → Pool
pool_of none = beginning
pool_of (some p) = p

half_run : Option Pool
unfolding run step advance take_next pass_gate existing known_size is_complete missing_text
    after_stat says start_transfer take_slot release forward last_word numbered eq_text
half_run = run one_slot half beginning

half_runs : run one_slot half beginning ≡ some (pool_of half_run)
unfolding half_run run step advance take_next pass_gate existing known_size is_complete missing_text
    after_stat says start_transfer take_slot release forward last_word numbered eq_text
half_runs = refl

whole_run : Option Pool
unfolding half_run run step advance take_next pass_gate existing known_size is_complete missing_text
    after_stat says start_transfer take_slot release forward last_word numbered eq_text
whole_run = run one_slot rest (pool_of half_run)

abbrev pub all_moves : List Move
all_moves =
    work 0 receive
    ∷ work 1 receive
    ∷ work 1 admit
    ∷ pause true
    ∷ work 1 (check absent)
    ∷ pause false
    ∷ work 0 admit
    ∷ work 0 (check absent)
    ∷ work 1 acquire
    ∷ rest

whole_runs : run one_slot all_moves beginning ≡ some (pool_of whole_run)
unfolding half_run whole_run run step advance take_next pass_gate existing known_size is_complete
    missing_text after_stat says start_transfer take_slot release forward last_word numbered eq_text
whole_runs = refl

-- One for each file, and its bytes.
abbrev with_bytes : Worth
with_bytes path size = 1 + size

run-accounted_example :
    worth_queued with_bytes (pool_of half_run).queue
      + worth_held with_bytes (pool_of half_run).workers
      + worth_ended with_bytes 2 (pool_of half_run).sent
    ≡ 14
run-accounted_example =
    run-accounted with_bytes one_slot 2 false scanned.items half (pool_of half_run) tt half_runs

run-slots_example : sending_count (pool_of half_run).workers ≤ 1
run-slots_example =
    run-slots one_slot 1 refl 2 false scanned.items half (pool_of half_run) half_runs
