-- ===== src/S3/Missing/Ends.antt =====
-- The length of the runs of uploadMissingParts (S3/Missing), its progress and its semaphore.
use timberlake.Base.{
  member, remove, ℕ, zero, suc, ◌+◌, ◌-◌, ◌*◌, ◌<◌, ◌≤◌, ◌^◌, ◌≡◌, ◌≢◌, refl, sym, ap, ◌∙◌, ◌⊎◌,
  inl, inr, Bool, true, false, List, [], ◌∷◌, Option, none, some, and_then-inv, arith, length, ltb,
  if◌then◌else◌, Bool-cases,
}
use timberlake.Io.{Text, Result, ok, err}
use timberlake.S3.Client.{Client}
use timberlake.S3.Service.{Service}
use timberlake.S3.Missing.{
  Loop, at, acquiring, ended, Uploads, Event, turn, finish, once, Job, upload_part, record_part,
  after_check, turn_loop, step, run, Finished,
}
use timberlake.S3.Missing.Complete.{InRange}

length-remove : (n : ℕ) (ms : List ℕ) → member n ms ≡ true → length ms ≡ suc (length (remove n ms))
unfolding member remove
length-remove n [] h = cc
length-remove n (m ∷ ms) h = ground (arith, length-remove n ms)

-- How many steps are left at most.
abbrev pub left : ℕ → Loop → ℕ
left total (at n) = 3 * (suc total - n) + 2
left total (acquiring n) = 3 * (suc total - n) + 1
left total ended = 0

some_of : {A : Type 0} (o : Option A) → o ≢ none → (a : A) × (o ≡ some a)
some_of none h = absurd (h refl)
some_of (some a) h = (a, refl)

module _ (svc : Service) (s : Client) (j : Job) (small : j.total < 2 ^ 31 - 1) where
  open svc use {State}

  abbrev pub steps_left : Uploads State → ℕ
  steps_left u = left j.total u.loop + length u.running

  turn-left :
      (done : Bool) (u u' : Uploads State) (l : Loop)
      → turn_loop svc s j done u l ≡ some u'
      → InRange l j.total
      → InRange u'.loop j.total
        × (left j.total u'.loop + length u'.running < left j.total l + length u.running)
  unfolding turn_loop after_check once
  turn-left done u u' (at n) p range = ground arith
  turn-left done u u' (acquiring n) p range = ground arith
  turn-left done u u' ended p range = ground arith

  finish-left :
      (n : ℕ) (u : Uploads State) (x : ℕ × (State × Result Text))
      → member n u.running ≡ true
      → let u' = record_part svc s n u x in
        (u'.loop ≡ u.loop) × (suc (length u'.running) ≡ length u.running)
  unfolding record_part
  finish-left n u (b, (σ, err e)) h = (refl, sym (length-remove n u.running h))
  finish-left n u (b, (σ, ok e)) h = (refl, sym (length-remove n u.running h))

  step-left :
      (e : Event) (u u' : Uploads State)
      → InRange u.loop j.total
      → step svc s j e u ≡ some u'
      → InRange u'.loop j.total × (steps_left u' < steps_left u)
  unfolding step
  step-left (turn done) u u' range p = turn-left done u u' u.loop p range
  step-left (finish n) u u' range p = elim (Bool-cases (member n u.running)) [
    | inl here ↦
        let x = upload_part svc s j n u.server u.buffered in
        let after = finish-left n u x here in
        let u'_is : record_part svc s n u x ≡ u' = ground arith in
        rw (← u'_is) (rw after.0 (range, omega (arith, after.1)))
    | inr gone ↦ absurd (ground arith)
  ]

  -- No run has more steps than that.
  pub length-run :
      (es : List Event) (u u' : Uploads State)
      → InRange u.loop j.total
      → run svc s j es u ≡ some u'
      → length es + steps_left u' ≤ steps_left u
  unfolding run
  length-run [] u u' range p = let same : u ≡ u' = cc in rw same (omega arith)
  length-run (e ∷ es) u u' range p =
      let (u₁, first, rest) = and_then-inv (run svc s j es) (step svc s j e u) p in
      let after = step-left e u u₁ range first in
      omega (arith, after.1, length-run es u₁ u' after.0 rest)

  run-range :
      (es : List Event) (u u' : Uploads State)
      → InRange u.loop j.total
      → run svc s j es u ≡ some u'
      → InRange u'.loop j.total
  unfolding run
  run-range [] u u' range p = let same : u ≡ u' = cc in rw (← same) range
  run-range (e ∷ es) u u' range p =
      let (u₁, first, rest) = and_then-inv (run svc s j es) (step svc s j e u) p in
      run-range es u₁ u' (step-left e u u₁ range first).0 rest

  turn-concurrency :
      (done : Bool) (u u' : Uploads State) (l : Loop)
      → length u.running ≤ s.concurrency
      → turn_loop svc s j done u l ≡ some u'
      → length u'.running ≤ s.concurrency
  unfolding turn_loop after_check once
  turn-concurrency done u u' (at n) h p = ground arith
  turn-concurrency done u u' (acquiring n) h p = ground arith
  turn-concurrency done u u' ended h p = ground arith

  step-concurrency :
      (e : Event) (u u' : Uploads State)
      → length u.running ≤ s.concurrency
      → step svc s j e u ≡ some u'
      → length u'.running ≤ s.concurrency
  unfolding step
  step-concurrency (turn done) u u' h p = turn-concurrency done u u' u.loop h p
  step-concurrency (finish n) u u' h p = elim (Bool-cases (member n u.running)) [
    | inl here ↦
        let x = upload_part svc s j n u.server u.buffered in
        let u'_is : record_part svc s n u x ≡ u' = ground arith in
        rw (← u'_is) (omega (arith, (finish-left n u x here).1))
    | inr gone ↦ absurd (ground arith)
  ]

  -- What can move next: the loop, or else a goroutine.
  next_event : Loop → List ℕ → Event
  next_event ended (m ∷ ms) = finish m
  next_event (acquiring n) (m ∷ ms) =
      if ltb (length (m ∷ ms)) s.concurrency then turn false else finish m
  next_event _ _ = turn false

  turn-some :
      (u : Uploads State) (l : Loop)
      → l ≢ ended
      → ((n : ℕ) → l ≡ acquiring n → length u.running < s.concurrency)
      → turn_loop svc s j false u l ≢ none
  unfolding turn_loop after_check
  turn-some u (at n) open_loop free p = ground arith
  turn-some u (acquiring n) open_loop free p = ground (arith, free n refl)
  turn-some u ended open_loop free p = open_loop refl

  turn-next :
      (u : Uploads State) (l : Loop)
      → u.loop ≡ l
      → l ≢ ended
      → ((n : ℕ) → l ≡ acquiring n → length u.running < s.concurrency)
      → step svc s j (turn false) u ≢ none
  unfolding step
  turn-next u l e open_loop free p =
      turn-some u l open_loop free (ap (turn_loop svc s j false u) (sym e) ∙ p)

  finish-some :
      (u : Uploads State) (m : ℕ) → member m u.running ≡ true → step svc s j (finish m) u ≢ none
  unfolding step
  finish-some u m h p = ground arith

  head-member : (m : ℕ) (ms : List ℕ) → member m (m ∷ ms) ≡ true
  unfolding member
  head-member m ms = ground arith

  step-next :
      (u : Uploads State) (l : Loop) (r : List ℕ)
      → u.loop ≡ l
      → u.running ≡ r
      → 0 < s.concurrency
      → Finished u ⊎ (step svc s j (next_event l r) u ≢ none)
  unfolding next_event
  step-next u ended [] e f pos = inl (e, f)
  step-next u ended (m ∷ ms) e f pos = inr (finish-some u m (rw f (head-member m ms)))
  step-next u (at n) r e f pos = inr (turn-next u (at n) e (λ c. cc) (λ k c. cc))
  step-next u (acquiring n) [] e f pos =
      inr (turn-next u (acquiring n) e (λ c. cc) (λ k c. rw f pos))
  step-next u (acquiring n) (m ∷ ms) e f pos =
      elim (Bool-cases (ltb (length (m ∷ ms)) s.concurrency)) [
        | inl free ↦
            rw free (inr (turn-next u (acquiring n) e (λ c. cc) (λ k c. rw f (ground arith))))
        | inr full ↦ rw full (inr (finish-some u m (rw f (head-member m ms))))
      ]

  -- From any state that the loop can be in, some schedule leads to the end.
  pub ends_within :
      (fuel : ℕ) (u : Uploads State)
      → 0 < s.concurrency
      → InRange u.loop j.total
      → steps_left u ≤ fuel
      → (es : List Event) × (u' : Uploads State) × (run svc s j es u ≡ some u') × Finished u'
  unfolding run
  ends_within zero u pos range h = elim (step-next u u.loop u.running refl refl pos) [
    | inl fin ↦ ([], u, refl, fin)
    | inr moves ↦
        let (u₁, first) = some_of _ moves in
        absurd (omega (arith, (step-left (next_event u.loop u.running) u u₁ range first).1))
  ]
  ends_within (suc fuel) u pos range h = elim (step-next u u.loop u.running refl refl pos) [
    | inl fin ↦ ([], u, refl, fin)
    | inr moves ↦
        let (u₁, first) = some_of _ moves in
        let after = step-left (next_event u.loop u.running) u u₁ range first in
        let (es, u', rest, fin) = ends_within fuel u₁ pos after.0 (omega (arith, after.1)) in
        (next_event u.loop u.running ∷ es, u', rw first rest, fin)
  ]

  -- However the loop and the goroutines interleave, a run makes at most steps_left steps, three for
  -- each part number to come and one for each goroutine under way, and wherever it is, it can go on
  -- to its end. There is a slot in the semaphore, the loop stands within the part numbers, and
  -- these fit an int32.
  pub run-ends :
      (es : List Event) (u u' : Uploads State)
      → 0 < s.concurrency
      → InRange u.loop j.total
      → run svc s j es u ≡ some u'
      → (length es ≤ steps_left u)
        × ((fs : List Event) × (v : Uploads State) × (run svc s j fs u' ≡ some v) × Finished v)
  run-ends es u u' pos range p = (
    omega (arith, length-run es u u' range p),
    ends_within (steps_left u') u' pos (run-range es u u' range p) (omega arith),
  )

  -- However the loop and the goroutines interleave: if no more goroutines run than the semaphore
  -- has slots, so it stays. The part numbers fit an int32.
  pub run-concurrency :
      (es : List Event) (u u' : Uploads State)
      → length u.running ≤ s.concurrency
      → run svc s j es u ≡ some u'
      → length u'.running ≤ s.concurrency
  unfolding run
  run-concurrency [] u u' h p = let same : u ≡ u' = cc in rw (← same) h
  run-concurrency (e ∷ es) u u' h p =
      let (u₁, first, rest) = and_then-inv (run svc s j es) (step svc s j e u) p in
      run-concurrency es u₁ u' (step-concurrency e u u₁ h first) rest
