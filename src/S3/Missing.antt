-- ===== src/S3/Missing.antt =====
-- `uploadMissingParts` and `uploadPart` of internal.go. The loop and the goroutines it starts
-- interleave: a state of the upload, and one executable step for each turn of the loop and for
-- each goroutine that ends. Which comes next is a schedule.
pub mod Complete
pub mod Ends
use timberlake.Base.{
  ℕ, zero, ◌+◌, ◌-◌, ◌≡◌, Bool, true, false, ◌||◌, not, List, [], ◌∷◌, Option, none, some, and_then,
  member, remove, ltb, ◌==◌, length, set, replicate, if◌then◌else◌,
}
use timberlake.Base.Words.{to_int32, add64, lt32}
use timberlake.Io.{
  Text, Error, cancelled, message, wrapped, OpenFunc, Result, ok, err, ◌>>=◌, context, Reader,
  read_full,
}
use timberlake.S3.Client.{Client, Counters, part_start, part_bytes}
use timberlake.S3.Service.{Service, CompletedPart}
use timberlake.S3.Existing.{PartMap, lookup}

-- Where the loop over the part numbers stands: before its tests for n, at `sem <- struct{}{}`
-- for n, or after its end.
pub data Loop : Type 0 where
  at acquiring : ℕ → Loop
  ended : Loop

-- `running` has the parts whose goroutines hold a slot of `sem`.
pub record Uploads (State : Type 0) : Type 0 where
  pub loop : Loop
  pub running : List ℕ
  pub completed : List CompletedPart
  pub first_err : Option Error
  pub buffered : ℕ
  pub server : State

-- One turn of the loop, with whether ctx is done then; or the goroutine of a part, to its end.
pub data Event : Type 0 where
  turn : Bool → Event
  finish : ℕ → Event

-- errOnce.Do(func() { firstErr = err })
unfoldable pub once : Option Error → Error → Option Error
once none e = some e
once (some e) e' = some e

-- The parameters of the call.
pub record Job : Type 0 where
  pub key : Text
  pub upload_id : Text
  pub open_at : OpenFunc
  pub size : ℕ
  pub total : ℕ
  pub existing : PartMap

module _ (svc : Service) (s : Client) where
  open svc use {State, put_part}

  -- The ETag of an uploaded part, or why there is none.
  unfoldable pub part_etag : State × Result (Option Text) → State × Result Text
  part_etag (σ, err e) = (σ, err (wrapped "upload part" e))
  part_etag (σ, ok none) = (σ, err (message "upload part: no ETag returned"))
  part_etag (σ, ok (some e)) = (σ, ok e)

  -- After the part is in memory: count it as buffered, and send it.
  unfoldable pub send_part : Job → ℕ → State → ℕ → Result (List ℕ) → ℕ × (State × Result Text)
  unfolding part_etag
  send_part j n σ buffered (err e) = (buffered, (σ, err e))
  send_part j n σ buffered (ok buf) =
      (add64 buffered (part_bytes s n j.size), part_etag (put_part σ j.key j.upload_id n buf))

  unfoldable pub upload_part : Job → ℕ → State → ℕ → ℕ × (State × Result Text)
  unfolding send_part
  upload_part j n σ buffered = send_part j n σ buffered (do
    r ← context "open part" (j.open_at (part_start s n))
    context "read part" (read_full r (part_bytes s n j.size)))

  -- The goroutine's own writes, after its upload.
  unfoldable pub record_part : ℕ → Uploads State → ℕ × (State × Result Text) → Uploads State
  record_part n u (b, (σ, err e)) = record u {
    running = remove n u.running;
    first_err = once u.first_err e;
    buffered = b;
    server = σ;
  }
  record_part n u (b, (σ, ok e)) = record u {
    running = remove n u.running;
    completed = set u.completed (n - 1) (some (n, e));
    buffered = b;
    server = σ;
  }

  -- `if firstErr != nil { break }`, else on to the semaphore.
  unfoldable pub after_check : ℕ → Uploads State → Option Error → Option (Uploads State)
  after_check n u none = some (record u { loop = acquiring n; first_err = none })
  after_check n u (some e) = some (record u { loop = ended; first_err = some e })

  -- `none` where the step is not possible: no such goroutine, no free slot, no loop any more.
  unfoldable pub turn_loop : Job → Bool → Uploads State → Loop → Option (Uploads State)
  turn_loop j done u (at n) =
      if lt32 j.total n then some (record u { loop = ended }) else elim (lookup n j.existing) [
        | some e ↦ some (record u { loop = at (to_int32 (n + 1)) })
        | none ↦ after_check n u (if done then once u.first_err cancelled else u.first_err)
      ]
  turn_loop j done u (acquiring n) =
      if ltb (length u.running) s.concurrency
      then some (record u { loop = at (to_int32 (n + 1)); running = n ∷ u.running })
      else none
  turn_loop j done u ended = none

  unfoldable pub step : Job → Event → Uploads State → Option (Uploads State)
  step j (turn done) u = turn_loop j done u u.loop
  step j (finish n) u =
      if member n u.running
      then some (record_part n u (upload_part j n u.server u.buffered))
      else none

  unfoldable pub run : Job → List Event → Uploads State → Option (Uploads State)
  run j [] u = some u
  run j (e ∷ es) u = and_then (run j es) (step j e u)

-- The loop has ended and wg.Wait() returns.
abbrev pub Finished : {State : Type 0} → Uploads State → Type 0
Finished u = (u.loop ≡ ended) × (u.running ≡ [])
