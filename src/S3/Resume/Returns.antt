-- ===== src/S3/Resume/Returns.antt =====
-- The runs of Put (S3/Resume) to their end.
use timberlake.Base.{
  ℕ, ◌<◌, ◌-◌, ◌^◌, ◌≡◌, refl, true, false, List, [], ◌∷◌, Option, none, some, arith, Bool-cases,
  inl, inr,
}
use timberlake.Base.Words.{lt32, lt64}
use timberlake.Io.{Text, OpenFunc, Result, ok, err}
use timberlake.S3.Client.{Client, Counters, no_counters, total_parts}
use timberlake.S3.Parts.{Fits, count-lt, total_parts-count}
use timberlake.S3.Service.{Service}
use timberlake.S3.Existing.{PartMap, valid_existing_parts}
use timberlake.S3.Missing.{Uploads, Job, Event, Finished}
use timberlake.S3.Missing.Ends.{ends_within, steps_left}
use timberlake.S3.Resume.{
  Outcome, Answer, finish, send_whole, is_finished, seed_counters, complete_upload, start_uploads,
  finish_run, upload_rest, resume_checked, resume_multipart, finish_resumed,
  find_in_progress_upload, put_found, put,
}

Finished-true : {A : Type 0} (u : Uploads A) → Finished u → is_finished u.loop u.running ≡ true
unfolding is_finished
Finished-true u (l, r) = rw (l, r) refl

module _ (svc : Service) (s : Client) (size : ℕ) (fits : Fits s size) (slots : 0 < s.concurrency)
    (open_at : OpenFunc) (key : Text) where
  open svc use {State}

  upload_rest-returns :
      (σ : State) (uid : Text) (c : Counters) (existing : PartMap)
      → (sched : List Event) × (w : Outcome State) × (upload_rest svc s sched σ key uid open_at size
            c existing
          ≡ some w)
  unfolding upload_rest finish_run
  upload_rest-returns σ uid c existing =
      let total = total_parts s size in
      let counted = total_parts-count s size fits in
      let few = count-lt s size fits in
      let positive : lt32 total 0 ≡ false = ground (arith, counted, few) in
      let c' = seed_counters s size existing c in
      let u = start_uploads svc s σ c' existing total in
      let job : Job = record {
        key = key;
        upload_id = uid;
        open_at = open_at;
        size = size;
        total = total;
        existing = existing;
      } in
      let small : job.total < 2 ^ 31 - 1 = rw counted few in
      let (sched, u', ran, fin) =
        ends_within svc s job small (steps_left svc s job small u) u slots
          (omega arith, omega arith) (omega arith) in
      (sched, complete_upload svc s key uid c' u', rw (positive, ran, Finished-true u' fin) refl)

  resume_checked-returns :
      (σ : State) (uid : Text) (c : Counters) (r : Result (Option PartMap))
      → (sched : List Event) × (w : Outcome State) × (resume_checked svc s sched σ key uid open_at
            size c r
          ≡ some w)
  unfolding resume_checked
  resume_checked-returns σ uid c (err e) = ([], _, refl)
  resume_checked-returns σ uid c (ok none) = ([], _, refl)
  resume_checked-returns σ uid c (ok (some m)) = upload_rest-returns σ uid c m

  put_found-returns :
      (σ : State) (r : Result Text)
      → (sched : List Event) × (a : Answer State) × (put_found svc s sched σ key open_at size r
          ≡ some a)
  unfolding put_found resume_multipart finish_resumed
  put_found-returns σ (err e) = ([], _, refl)
  put_found-returns σ (ok []) = ([], _, refl)
  put_found-returns σ (ok (x ∷ xs)) =
      let (sched, w, p) =
        resume_checked-returns σ (x ∷ xs) no_counters
          (valid_existing_parts svc s σ key (x ∷ xs) open_at size) in
      (sched, finish svc s size w, rw p refl)

  -- Put has a run to its end, with an answer, whatever the service and the source answer, if part
  -- numbers and offsets do not overflow and the client has an upload slot.
  pub put-returns :
      (σ : State)
      → (sched : List Event) × (a : Answer State) × (put svc s sched σ key open_at size ≡ some a)
  unfolding put
  put-returns σ = elim (Bool-cases (lt64 s.part_size size)) [
    | inl large ↦
        let (sched, a, p) = put_found-returns σ (find_in_progress_upload svc s σ key) in
        (sched, a, rw large p)
    | inr small ↦ (
      [],
      finish svc s size (send_whole svc s "upload" σ key open_at size no_counters),
      rw small refl,
    )
  ]
