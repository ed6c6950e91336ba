-- ===== src/Ui/Pool.antt =====
-- startWorkerPool of ui/update.go with the pause gate of ui/pause.go: the workers as stages of one
-- state, and an executable step for each move of one of them, of the user and of the context. The
-- answers of the destination and of Put come with the moves. A list of moves is a schedule.
pub mod Once
pub mod Session
pub mod Done
pub mod Slots
use timberlake.Base.{
  ℕ, ◌+◌, ◌-◌, Bool, true, false, ◌&&◌, List, [], ◌∷◌, ◌++◌, Option, none, some, and_then, ltb,
  ◌==◌, get_elem?, set, replicate, if◌then◌else◌,
}
use timberlake.Base.Int.{ℤ, pos, pos_part, ltb_ℤ}
use timberlake.Sizes.{known_size}
use timberlake.Io.{Text, codes, eq_text, Item, Error, Result, ok, err}
use timberlake.Ui.Model.{Status, WorkerStatus, WorkerProgress}

-- An item with its position in the scan order.
pub record Queued : Type 0 where
  pub item : Item
  pub index : ℕ

-- Where a worker stands: before it takes an item; with one, at the gate; with the check under way;
-- waiting for a slot; transferring; or returned.
pub data Stage : Type 0 where
  idle stopped : Stage
  holding checking waiting sending : Queued → Stage

-- What is sent on MsgChan.
pub data Sent : Type 0 where
  status : WorkerStatus → Sent
  progress : WorkerProgress → Sent

-- `slots` is the capacity of uploadSem, `none` where there is none.
pub record Settings : Type 0 where
  pub known : Option (List (Text × ℕ))
  pub verify_only : Bool
  pub dry_run : Bool
  pub slots : Option ℕ
  pub error_text : Error → Text
  pub mismatch_text : ℕ → ℕ → Text

-- `used` slots of uploadSem are taken; `cancelled` is ctx.Err() != nil.
pub record Pool : Type 0 where
  pub queue : List Queued
  pub workers : List Stage
  pub used : ℕ
  pub paused : Bool
  pub cancelled : Bool
  pub sent : List Sent

-- A move of one worker. The answer of a check is that of dest.Stat; that of a transfer has the
-- progress messages that the channel had room for, and the error.
pub data Act : Type 0 where
  receive admit acquire give_up : Act
  check : Result (Bool × ℕ) → Act
  transfer : List (ℕ × ℕ × ℕ) → Result (Unit {0}) → Act

pub data Move : Type 0 where
  work : ℕ → Act → Move
  pause : Bool → Move
  cancel : Move

-- make(chan struct{}, n) if 0 < n < Jobs.
unfoldable pub upload_slots : ℤ → ℤ → Option ℕ
upload_slots n jobs = if ltb_ℤ (pos 0) n && ltb_ℤ n jobs then some (pos_part n) else none

unfoldable pub says : ℕ → Queued → Status → Text → ℕ → Sent
says i q s failure index = status (record {
  worker_id = pos i;
  status = s;
  file_name = q.item.relative_path;
  err = failure;
  size = q.item.size;
  queue_index = pos index;
})

abbrev pub become : ℕ → Stage → List Sent → Pool → Pool
become i s out p = record p { workers = set p.workers i s; sent = p.sent ++ out }

-- fileChan is full from the start and closed: a worker takes an item or returns.
unfoldable pub take_next : ℕ → Pool → List Queued → Pool
take_next i p [] = become i Stage.stopped [] p
take_next i p (q ∷ qs) = become i (Stage.holding q) [] (record p { queue = qs })

-- The test of ctx, then the gate: no move while the pool is paused and not cancelled.
unfoldable pub pass_gate : ℕ → Queued → Pool → Option Pool
pass_gate i q p =
    if p.cancelled
    then some (become i Stage.stopped [] p)
    else if p.paused
    then none
    else some (become i (Stage.checking q) (says i q Status.checking [] q.index ∷ []) p)

-- Towards the transfer: at once, or after a wait for a slot.
unfoldable pub start_transfer : ℕ → Queued → Pool → Option ℕ → Pool
unfolding says
start_transfer i q p none = become i (Stage.sending q) (says i q Status.uploading [] 0 ∷ []) p
start_transfer i q p (some n) = become i (Stage.waiting q) (says i q Status.queued [] 0 ∷ []) p

module _ (s : Settings) where
  -- From the bulk listing if there is one, else what dest.Stat answers.
  unfoldable pub existing : Queued → Result (Bool × ℕ) → Result (Bool × ℕ)
  unfolding known_size
  existing q answer = elim s.known [
    | none ↦ answer
    | some known ↦ ok (known_size q.item.relative_path known)
  ]

  -- With an error, every Stat returns false and 0.
  unfoldable pub is_complete : Queued → Result (Bool × ℕ) → Bool
  is_complete q (ok (exists, size)) = exists && (size == q.item.size)
  is_complete q (err e) = false

  unfoldable pub missing_text : Queued → Result (Bool × ℕ) → Text
  missing_text q (ok (true, size)) = s.mismatch_text size q.item.size
  missing_text q (ok (false, size)) = codes "missing at destination"
  missing_text q (err e) = codes "missing at destination"

  -- After the check: skip, report, or go on to the transfer.
  unfoldable pub after_stat : ℕ → Queued → Result (Bool × ℕ) → Pool → Pool
  unfolding says
  after_stat i q found p =
      if is_complete q found
      then become i Stage.idle (says i q Status.skipped [] 0 ∷ []) p
      else if s.verify_only
      then become i Stage.idle (says i q Status.error (missing_text q found) 0 ∷ []) p
      else if s.dry_run
      then become i Stage.idle (says i q Status.done [] 0 ∷ []) p
      else start_transfer i q p s.slots

  unfoldable pub take_slot : ℕ → Queued → Pool → Option ℕ → Option Pool
  unfolding says
  take_slot i q p none = none
  take_slot i q p (some n) =
      if ltb p.used n
      then some (
          become i (Stage.sending q) (says i q Status.uploading [] 0 ∷ [])
            (record p { used = p.used + 1 }))
      else none

  unfoldable pub release : ℕ → Option ℕ → ℕ
  release used none = used
  release used (some n) = used - 1

  unfoldable pub forward : ℕ → Queued → List (ℕ × ℕ × ℕ) → List Sent
  forward i q [] = []
  forward i q ((committed, uploaded, buffered) ∷ reports) =
      progress (record {
        worker_id = pos i;
        committed_size = committed;
        uploaded_size = uploaded;
        buffered_size = buffered;
        total_size = q.item.size;
        file_name = q.item.relative_path;
      })
      ∷ forward i q reports

  unfoldable pub last_word : ℕ → Queued → Result (Unit {0}) → Sent
  unfolding says
  last_word i q (ok u) = says i q Status.done [] 0
  last_word i q (err e) = says i q Status.error (s.error_text e) 0

  -- `none` where the worker cannot make this move.
  unfoldable pub advance : ℕ → Act → Pool → Option Stage → Option Pool
  unfolding take_next pass_gate existing after_stat
  advance i receive p (some Stage.idle) = some (take_next i p p.queue)
  advance i admit p (some (Stage.holding q)) = pass_gate i q p
  advance i (check answer) p (some (Stage.checking q)) = some (after_stat i q (existing q answer) p)
  advance i acquire p (some (Stage.waiting q)) = take_slot i q p s.slots
  advance i give_up p (some (Stage.waiting q)) =
      if p.cancelled then some (become i Stage.stopped [] p) else none
  advance i (transfer reports r) p (some (Stage.sending q)) = some (
      become i Stage.idle (forward i q reports ++ last_word i q r ∷ [])
        (record p { used = release p.used s.slots }))
  advance i a p st = none

  unfoldable pub step : Move → Pool → Option Pool
  step (work i a) p = advance i a p (get_elem? p.workers i)
  step (pause on) p = some (record p { paused = on })
  step cancel p = some (record p { cancelled = true })

  unfoldable pub run : List Move → Pool → Option Pool
  run [] p = some p
  run (e ∷ es) p = and_then (run es) (step e p)

-- The pool as startWorkerPool starts it.
unfoldable pub numbered : ℕ → List Item → List Queued
numbered i [] = []
numbered i (x ∷ xs) = record { item = x; index = i } ∷ numbered (i + 1) xs

abbrev pub started : ℕ → Bool → List Item → Pool
started jobs paused items = record {
  queue = numbered 0 items;
  workers = replicate jobs Stage.idle;
  used = 0;
  paused = paused;
  cancelled = false;
  sent = [];
}
