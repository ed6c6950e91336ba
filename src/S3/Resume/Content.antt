-- ===== src/S3/Resume/Content.antt =====
-- The object that Put (S3/Resume) leaves behind.
use Prim.Native.String.{String}
use timberlake.Base.{
  member, ℕ, suc, ◌+◌, ◌-◌, ◌<◌, ◌^◌, ◌≡◌, refl, sym, ap, ◌∙◌, inl, inr, true, false, List, [], ◌∷◌,
  Option, none, some, arith, length, replicate, Bool-cases, Option-cases, length-replicate,
}
use timberlake.Base.Words.{lt32, lt64}
use timberlake.Io.{Text, Error, OpenFunc, Serves, Reader, Result, ok, err}
use timberlake.Io.Readers.{bytes-all}
use timberlake.S3.Client.{Client, Counters, total_parts, no_counters}
use timberlake.S3.Parts.{Fits, count, count-lt, total_parts-count, chunk, parts-tile}
use timberlake.S3.Service.{Service, Laws, Unmistakable}
use timberlake.S3.Existing.{PartMap, lookup, valid_existing_parts}
use timberlake.S3.Existing.Kept.{AllKept, valid_existing_parts-Kept}
use timberlake.S3.Missing.{Loop, at, ended, acquiring, Uploads, Event, Job, Finished}
use timberlake.S3.Missing.Complete.{failed, Inv, run-Inv, Finished-Done}
use timberlake.S3.Resume.{
  sort_completed, seed_counters, is_finished, Outcome, Answer, after_upload, send_opened,
  send_whole, fresh_multipart, after_complete, complete_unless, complete_upload, resume_checked,
  put_found, finish_run, start_uploads, upload_rest, resume_multipart, finish, finish_resumed, put,
}
use timberlake.S3.Resume.Slots.{
  sort_completed_id, DoneFrom, done-Numbered, done-Stored, seed-length, seed-Done,
}

is_finished-true : {A : Type 0} (u : Uploads A) → is_finished u.loop u.running ≡ true → Finished u
unfolding is_finished
is_finished-true u h = go u.loop u.running h
  where
    go : (l : Loop) (r : List ℕ) → is_finished l r ≡ true → (l ≡ ended) × (r ≡ [])
    go ended [] h = (refl, refl)
    go ended (x ∷ r) h = cc
    go (at n) r h = cc
    go (acquiring n) r h = cc

some_eq : {A : Type 0} {a b : A} → some a ≡ some b → a ≡ b
some_eq h = ground arith

module _ (svc : Service) (laws : Laws svc) (s : Client) (open_at : OpenFunc) (content : List ℕ)
    (serves : Serves open_at content) (fits : Fits s (length content))
    (unmistakable : Unmistakable svc laws (chunk s.part_size content)) (key : Text) where
  open svc use {State, complete}
  open laws use {object, stored, complete_lem, upload_lem}

  after_upload-content :
      (what : String) (c : Counters) (r : Reader) (x : State × (ℕ × Result (Unit {0}))) (σ : State)
      → open_at 0 ≡ ok r
      → svc.upload σ key r (length content) ≡ x
      → (after_upload svc s what c x).result ≡ ok tt
      → object (after_upload svc s what c x).server key ≡ some content
  unfolding after_upload
  after_upload-content what c r (σ', (n, ok tt)) σ opened sent h =
      let stored_all = upload_lem σ σ' key r (length content) n sent in
      stored_all.1 ∙ ap some (bytes-all r content (serves.reads 0 r opened) stored_all.0)
  after_upload-content what c r (σ', (n, err e)) σ opened sent h = cc

  send_opened-content :
      (what : String) (σ : State) (c : Counters) (o : Result Reader)
      → open_at 0 ≡ o
      → (send_opened svc s what σ key (length content) c o).result ≡ ok tt
      → object (send_opened svc s what σ key (length content) c o).server key ≡ some content
  unfolding send_opened
  send_opened-content what σ c (err e) opened h = cc
  send_opened-content what σ c (ok r) opened h = after_upload-content what c r _ σ opened refl h

  send_whole-content :
      (what : String) (σ : State) (c : Counters)
      → (send_whole svc s what σ key open_at (length content) c).result ≡ ok tt
      → object (send_whole svc s what σ key open_at (length content) c).server key ≡ some content
  unfolding send_whole
  send_whole-content what σ c h = send_opened-content what σ c (open_at 0) refl h

  module _ (uid : Text) (existing : PartMap) where
    abbrev job : Job
    job = record {
      key = key;
      upload_id = uid;
      open_at = open_at;
      size = length content;
      total = total_parts s (length content);
      existing = existing;
    }

    counted : job.total ≡ count s (length content)
    counted = total_parts-count s (length content) fits

    start-Inv :
        (σ : State) (c : Counters)
        → AllKept (stored σ uid) s.part_size content (count s (length content)) existing
        → Inv svc laws s job content serves fits refl counted
            (start_uploads svc s σ c existing (total_parts s (length content)))
    unfolding member
    start-Inv σ c kept = record {
      slots = λ i h. elim (Option-cases (lookup (suc i) existing)) [
        | inl missing ↦ inr (inl (omega arith, missing))
        | inr (d, there) ↦ inr (
            inr (
              inr (
                seed-Done (stored σ uid) s.part_size content (count s (length content)) existing
                  (replicate (total_parts s (length content)) none) i
                  (length-replicate (total_parts s (length content)) none ∙ counted) kept
                  (inl (λ gone. cc)))))
      ];
      position = (omega arith, omega arith);
      sized_slice =
          seed-length (stored σ uid) s.part_size content (count s (length content)) existing
            (replicate (total_parts s (length content)) none)
          ∙ length-replicate (total_parts s (length content)) none;
      parts_running = λ m r. cc;
    }

    -- Every slot done: sorting changes nothing, and the completed object is the file.
    complete-content :
        (c : Counters) (u : Uploads State) (x : State × Result (Unit {0}))
        → length u.completed ≡ count s (length content)
        → DoneFrom (stored u.server uid) s.part_size content 0 u.completed
        → complete u.server key uid (sort_completed u.completed) ≡ x
        → (after_complete svc s c x).result ≡ ok tt
        → object (after_complete svc s c x).server key ≡ some content
    unfolding after_complete
    complete-content c u (σ, err e) l done sent h = cc
    complete-content c u (σ, ok tt) l done sent h =
        let parts = stored u.server uid in
        let few : 0 + length u.completed < 2 ^ 31 - 1 =
          omega (arith, l, count-lt s (length content) fits) in
        let sorted =
          sort_completed_id 1 u.completed
            (done-Numbered parts s.part_size content 0 u.completed few done) in
        complete_lem u.server σ key uid u.completed _
          (ap (complete u.server key uid) (sym sorted) ∙ sent)
          (done-Stored parts s.part_size content 0 u.completed done)
        ∙ ap some (rw l (parts-tile s content fits))

    complete_unless-content :
        (c : Counters) (u : Uploads State) (e : Option Error)
        → u.first_err ≡ e
        → Inv svc laws s job content serves fits refl counted u
        → Finished u
        → (complete_unless svc s key uid c u e).result ≡ ok tt
        → object (complete_unless svc s key uid c u e).server key ≡ some content
    unfolding complete_unless
    complete_unless-content c u (some e) failed v fin h = cc
    complete_unless-content c u none fine v fin h =
        let all = Finished-Done svc laws s job content serves fits refl counted u v fin fine in
        complete-content c u _ (v.sized_slice ∙ counted)
          (λ i n b e.
            let n_i : n ≡ i = omega (arith, e) in rw n_i (all i (omega (arith, b, v.sized_slice))))
          refl h

    finish_run-inv :
        (c : Counters) (o : Option (Uploads State)) (w : Outcome State)
        → finish_run svc s key uid c o ≡ some w
        → (u : Uploads State) × (o ≡ some u) × Finished u × (complete_upload svc s key uid c u ≡ w)
    unfolding finish_run
    finish_run-inv c none w p = cc
    finish_run-inv c (some u) w p = elim (Bool-cases (is_finished u.loop u.running)) [
      | inl fin ↦ (u, refl, is_finished-true u fin, ground arith)
      | inr not_yet ↦ absurd (ground arith)
    ]

    upload_rest-content :
        (sched : List Event) (σ : State) (c : Counters) (w : Outcome State)
        → AllKept (stored σ uid) s.part_size content (count s (length content)) existing
        → upload_rest svc s sched σ key uid open_at (length content) c existing ≡ some w
        → w.result ≡ ok tt
        → object w.server key ≡ some content
    unfolding upload_rest complete_upload
    upload_rest-content sched σ c w kept p h =
        let positive : lt32 (total_parts s (length content)) 0 ≡ false =
          ground (arith, counted, count-lt s (length content) fits) in
        let c' = seed_counters s (length content) existing c in
        let (u, ran, fin, w_is) = finish_run-inv c' _ w (rw positive at p) in
        let v =
          run-Inv svc laws s job content serves fits refl counted sched _ u (start-Inv σ c' kept)
            ran in
        rw (← w_is) (
          complete_unless-content (record c' { buffered = u.buffered }) u u.first_err refl v fin
            (rw (← w_is) at h))

  resume_checked-content :
      (sched : List Event) (σ : State) (uid : Text) (c : Counters) (w : Outcome State)
      (r : Result (Option PartMap))
      → valid_existing_parts svc s σ key uid open_at (length content) ≡ r
      → resume_checked svc s sched σ key uid open_at (length content) c r ≡ some w
      → w.result ≡ ok tt
      → object w.server key ≡ some content
  unfolding resume_checked fresh_multipart
  resume_checked-content sched σ uid c w (err e) v p h = ground arith
  resume_checked-content sched σ uid c w (ok none) v p h =
      let w_is : send_whole svc s "fresh upload" (svc.abort σ key uid).0 key open_at
            (length content) c
          ≡ w =
        some_eq p in
      rw (← w_is) (send_whole-content "fresh upload" (svc.abort σ key uid).0 c (rw (← w_is) at h))
  resume_checked-content sched σ uid c w (ok (some m)) v p h =
      upload_rest-content uid m sched σ c w
        (valid_existing_parts-Kept svc laws s open_at content serves fits unmistakable σ key uid m
          v)
        p h

  whole-content :
      (σ : State) (a : Answer State)
      → finish svc s
          (length content)
          (send_whole svc s "upload" σ key open_at (length content) no_counters)
        ≡ a
      → a.result ≡ ok tt
      → object a.server key ≡ some content
  unfolding finish
  whole-content σ a a_is h =
      rw (← a_is) (send_whole-content "upload" σ no_counters (rw (← a_is) at h))

  finish_resumed-inv :
      (o : Option (Outcome State)) (a : Answer State)
      → finish_resumed svc s (length content) o ≡ some a
      → (w : Outcome State) × (o ≡ some w) × (finish svc s (length content) w ≡ a)
  unfolding finish_resumed
  finish_resumed-inv none a p = cc
  finish_resumed-inv (some w) a p = (w, refl, some_eq p)

  put_found-content :
      (sched : List Event) (σ : State) (r : Result Text) (a : Answer State)
      → put_found svc s sched σ key open_at (length content) r ≡ some a
      → a.result ≡ ok tt
      → object a.server key ≡ some content
  unfolding put_found finish resume_multipart
  put_found-content sched σ (err e) a p h = ground arith
  put_found-content sched σ (ok []) a p h = whole-content σ a (some_eq p) h
  put_found-content sched σ (ok (x ∷ xs)) a p h =
      let (w, resumed, a_is) = finish_resumed-inv _ a p in
      rw (← a_is)
        (resume_checked-content sched σ (x ∷ xs) no_counters w _ refl resumed (rw (← a_is) at h))

  -- Whatever the order in which the goroutines of a resumed upload move: when Put returns nil, the
  -- object under the key has exactly the bytes of the source, if part numbers and offsets do not
  -- overflow, the content does not change meanwhile, and no stored part has the MD5 of a part of
  -- the file without being that part.
  pub put-object :
      (sched : List Event) (σ : State) (a : Answer State)
      → put svc s sched σ key open_at (length content) ≡ some a
      → a.result ≡ ok tt
      → object a.server key ≡ some content
  unfolding put
  put-object sched σ a p h = elim (Bool-cases (lt64 s.part_size (length content))) [
    | inl large ↦ put_found-content sched σ _ a (rw large at p) h
    | inr small ↦ whole-content σ a (some_eq (rw small at p)) h
  ]
