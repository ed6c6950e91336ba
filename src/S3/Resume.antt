-- ===== src/S3/Resume.antt =====
-- `Put`, `findInProgressUpload`, `resumeMultipart` and `freshMultipart` of s3.go, `sortCompleted`
-- of internal.go. A schedule says in which order the goroutines of uploadMissingParts move;
-- the result is `none` where it is not the schedule of a whole run. The reports of the ticker are
-- left out; the last report is there.
pub mod Slots
pub mod Content
pub mod Returns
use Prim.Native.String.{String}
use timberlake.Base.{
  ℕ, zero, ◌+◌, ◌-◌, Bool, true, false, ◌&&◌, List, [], ◌∷◌, Option, none, some, ltb, leb, set,
  replicate, if◌then◌else◌,
}
use timberlake.Base.Words.{add64, lt64, lt32}
use timberlake.Io.{
  Text, eq_text, Error, message, wrapped, panic, OpenFunc, Result, ok, err, ◌>>=◌, Reader,
}
use timberlake.S3.Client.{Client, Counters, no_counters, part_bytes, total_parts}
use timberlake.S3.Service.{Service, Upload, CompletedPart}
use timberlake.S3.Existing.{PartMap, valid_existing_parts}
use timberlake.S3.Missing.{Loop, at, acquiring, ended, Uploads, Event, Job, run}

-- aws.ToInt32(p.PartNumber)
unfoldable pub number_of : CompletedPart → ℕ
number_of none = 0
number_of (some (n, e)) = n

unfoldable pub insert_part : CompletedPart → List CompletedPart → List CompletedPart
insert_part p [] = p ∷ []
insert_part p (q ∷ qs) =
    if lt32 (number_of q) (number_of p) then q ∷ insert_part p qs else p ∷ q ∷ qs

-- sort.Slice by part number.
unfoldable pub sort_completed : List CompletedPart → List CompletedPart
unfolding insert_part number_of
sort_completed [] = []
sort_completed (p ∷ ps) = insert_part p (sort_completed ps)

-- The loop over `existing` in resumeMultipart: the parts that are kept are done.
unfoldable pub seed_completed : PartMap → List CompletedPart → List CompletedPart
seed_completed [] completed = completed
seed_completed ((n, e) ∷ kept) completed = seed_completed kept (set completed (n - 1) (some (n, e)))

unfoldable pub seed_counters : Client → ℕ → PartMap → Counters → Counters
seed_counters s size [] c = c
seed_counters s size ((n, e) ∷ kept) c =
    let pb = part_bytes s n size in
    seed_counters s size kept (record {
      wire = add64 c.wire pb;
      committed = add64 c.committed pb;
      buffered = add64 c.buffered pb;
    })

unfoldable pub is_finished : Loop → List ℕ → Bool
is_finished ended [] = true
is_finished _ _ = false

pub record Outcome (State : Type 0) : Type 0 where
  pub server : State
  pub counters : Counters
  pub result : Result (Unit {0})

-- What Put hands to the caller: the state, the error, and the last progress report, if any.
pub record Answer (State : Type 0) : Type 0 where
  pub server : State
  pub result : Result (Unit {0})
  pub report : Option (ℕ × ℕ × ℕ)

-- The first entry for this key that has an UploadId; the empty text for none.
unfoldable pub find_upload : Text → List Upload → Text
find_upload key [] = []
find_upload key (u ∷ us) = elim u.key [
  | none ↦ find_upload key us
  | some k ↦ elim u.upload_id [
    | none ↦ find_upload key us
    | some i ↦ if eq_text k key then i else find_upload key us
  ]
]

module _ (svc : Service) (s : Client) where
  open svc use {State, list_uploads, complete, abort, upload}

  unfoldable pub find_in_progress_upload : State → Text → Result Text
  unfolding find_upload
  find_in_progress_upload σ key = do us ← list_uploads σ key; ok (find_upload key us)

  unfoldable pub after_upload : String → Counters → State × (ℕ × Result (Unit {0})) → Outcome State
  after_upload what c (σ, (n, r)) = record {
    server = σ;
    counters = record c { buffered = add64 c.buffered n };
    result = elim r [ ok u ↦ ok u | err e ↦ err (wrapped what e) ];
  }

  -- With the opened source: hand it to the managed uploader.
  unfoldable pub send_opened : String → State → Text → ℕ → Counters → Result Reader → Outcome State
  send_opened what σ key size c (err e) = record {
    server = σ;
    counters = c;
    result = err (wrapped "open source" e);
  }
  send_opened what σ key size c (ok r) = after_upload what c (upload σ key r size)

  unfoldable pub send_whole : String → State → Text → OpenFunc → ℕ → Counters → Outcome State
  send_whole what σ key open_at size c = send_opened what σ key size c (open_at 0)

  unfoldable pub fresh_multipart : State → Text → OpenFunc → ℕ → Counters → Outcome State
  fresh_multipart = send_whole "fresh upload"

  unfoldable pub after_complete : Counters → State × Result (Unit {0}) → Outcome State
  after_complete c (σ, ok u) = record { server = σ; counters = c; result = ok u }
  after_complete c (σ, err e) = record {
    server = σ;
    counters = c;
    result = err (wrapped "complete resumed upload" e);
  }

  -- After uploadMissingParts has returned firstErr.
  unfoldable pub complete_unless :
      Text → Text → Counters → Uploads State → Option Error → Outcome State
  complete_unless key uid c u (some e) = record { server = u.server; counters = c; result = err e }
  complete_unless key uid c u none =
      after_complete c (complete u.server key uid (sort_completed u.completed))

  unfoldable pub complete_upload : Text → Text → Counters → Uploads State → Outcome State
  complete_upload key uid c u =
      complete_unless key uid (record c { buffered = u.buffered }) u u.first_err

  unfoldable pub finish_run :
      Text → Text → Counters → Option (Uploads State) → Option (Outcome State)
  finish_run key uid c none = none
  finish_run key uid c (some u) =
      if is_finished u.loop u.running then some (complete_upload key uid c u) else none

  abbrev pub start_uploads : State → Counters → PartMap → ℕ → Uploads State
  start_uploads σ c existing total = record {
    loop = at 1;
    running = [];
    completed = seed_completed existing (replicate total none);
    first_err = none;
    buffered = c.buffered;
    server = σ;
  }

  -- With the parts to keep: make the slice, seed it, upload the rest, complete.
  unfoldable pub upload_rest :
      List Event → State → Text → Text → OpenFunc → ℕ → Counters → PartMap → Option (Outcome State)
  upload_rest sched σ key uid open_at size c existing =
      let total = total_parts s size in
      let c' = seed_counters s size existing c in
      if lt32 total 0
      then some
          (record { server = σ; counters = c; result = err (panic "makeslice: len out of range") })
      else finish_run key uid c' (
          run svc s
            (record {
              key = key;
              upload_id = uid;
              open_at = open_at;
              size = size;
              total = total;
              existing = existing;
            })
            sched (start_uploads σ c' existing total))

  -- With what validExistingParts returned: an unusable upload is aborted, and its error ignored.
  unfoldable pub resume_checked :
      List Event
      → State
      → Text
      → Text
      → OpenFunc
      → ℕ
      → Counters
      → Result (Option PartMap)
      → Option (Outcome State)
  resume_checked sched σ key uid open_at size c (err e) =
      some (record { server = σ; counters = c; result = err e })
  resume_checked sched σ key uid open_at size c (ok none) =
      some (fresh_multipart (abort σ key uid).0 key open_at size c)
  resume_checked sched σ key uid open_at size c (ok (some existing)) =
      upload_rest sched σ key uid open_at size c existing

  unfoldable pub resume_multipart :
      List Event → State → Text → Text → OpenFunc → ℕ → Counters → Option (Outcome State)
  resume_multipart sched σ key uid open_at size c =
      resume_checked sched σ key uid open_at size c
        (valid_existing_parts svc s σ key uid open_at size)

  -- `finish` of Put: the last report is made on success only.
  unfoldable pub finish : ℕ → Outcome State → Answer State
  finish size o = record {
    server = o.server;
    result = o.result;
    report = elim o.result [ ok u ↦ some (size, size, size) | err e ↦ none ];
  }

  unfoldable pub finish_resumed : ℕ → Option (Outcome State) → Option (Answer State)
  finish_resumed size none = none
  finish_resumed size (some o) = some (finish size o)

  -- With what findInProgressUpload returned.
  unfoldable pub put_found :
      List Event → State → Text → OpenFunc → ℕ → Result Text → Option (Answer State)
  put_found sched σ key open_at size (err e) = some (
      finish size (record {
        server = σ;
        counters = no_counters;
        result = err (wrapped "checking for resumable upload" e);
      }))
  put_found sched σ key open_at size (ok []) =
      some (finish size (send_whole "upload" σ key open_at size no_counters))
  put_found sched σ key open_at size (ok (c ∷ cs)) =
      finish_resumed size (resume_multipart sched σ key (c ∷ cs) open_at size no_counters)

  unfoldable pub put : List Event → State → Text → OpenFunc → ℕ → Option (Answer State)
  put sched σ key open_at size =
      if lt64 s.part_size size
      then put_found sched σ key open_at size (find_in_progress_upload σ key)
      else some (finish size (send_whole "upload" σ key open_at size no_counters))
