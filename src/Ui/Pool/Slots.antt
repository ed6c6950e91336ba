-- ===== src/Ui/Pool/Slots.antt =====
-- The slots of uploadSem over a run of the pool (Ui/Pool).
use timberlake.Base.{
  ℕ, zero, suc, ◌+◌, ◌-◌, ◌≤◌, ◌≡◌, refl, Bool, true, List, [], ◌∷◌, ◌++◌, Option, none, some,
  and_then-inv, arith, get_elem?, set, replicate, ltb, Bool-cases, inl, inr,
}
use timberlake.Io.{Item, Result}
use timberlake.Ui.Model.{Status}
use timberlake.Ui.Pool.{
  says, missing_text, Queued, Stage, Sent, Settings, Pool, Act, receive, admit, acquire, give_up,
  check, transfer, Move, work, pause, cancel, become, take_next, pass_gate, start_transfer,
  is_complete, after_stat, existing, take_slot, release, forward, last_word, advance, step, run,
  started,
}

abbrev sends : Stage → ℕ
sends Stage.idle = 0
sends Stage.stopped = 0
sends (Stage.holding q) = 0
sends (Stage.checking q) = 0
sends (Stage.waiting q) = 0
sends (Stage.sending q) = 1

-- How many workers are at a transfer.
abbrev pub sending_count : List Stage → ℕ
sending_count [] = 0
sending_count (s ∷ ss) = sends s + sending_count ss

sending_count-set :
    (ws : List Stage) (i : ℕ) (old new : Stage)
    → get_elem? ws i ≡ some old
    → sending_count (set ws i new) + sends old ≡ sending_count ws + sends new
sending_count-set [] i old new h = ground arith
sending_count-set (w ∷ ws) zero old new h =
    let same : w ≡ old = ground arith in rw same (omega arith)
sending_count-set (w ∷ ws) (suc i) old new h = omega (arith, sending_count-set ws i old new h)

-- Each slot in use is a worker's that transfers.
abbrev Held : ℕ → Pool → Type 0
Held n p = (sending_count p.workers ≡ p.used) × (p.used ≤ n)

sending_count-idle : (jobs : ℕ) → sending_count (replicate jobs Stage.idle) ≡ 0
sending_count-idle zero = refl
sending_count-idle (suc jobs) = omega (arith, sending_count-idle jobs)

module _ (s : Settings) (n : ℕ) (capped : s.slots ≡ some n) where
  -- A worker goes between stages without a transfer.
  aside-Held :
      (i : ℕ) (old new : Stage) (out : List Sent) (p : Pool)
      → get_elem? p.workers i ≡ some old
      → sends old ≡ sends new
      → Held n p
      → Held n (become i new out p)
  aside-Held i old new out p h same (count, le) =
      (omega (arith, sending_count-set p.workers i old new h, same, count), le)

  take_next-Held :
      (i : ℕ) (p : Pool) (qs : List Queued)
      → get_elem? p.workers i ≡ some Stage.idle
      → Held n p
      → Held n (take_next i p qs)
  unfolding take_next
  take_next-Held i p [] h v = aside-Held i Stage.idle Stage.stopped [] p h refl v
  take_next-Held i p (q ∷ qs) h v =
      aside-Held i Stage.idle (Stage.holding q) [] (record p { queue = qs }) h refl v

  pass_gate-Held :
      (i : ℕ) (q : Queued) (p p' : Pool)
      → get_elem? p.workers i ≡ some (Stage.holding q)
      → pass_gate i q p ≡ some p'
      → Held n p
      → Held n p'
  unfolding pass_gate
  pass_gate-Held i q p p' h e v = elim (Bool-cases p.cancelled) [
    | inl over ↦
        let moved : become i Stage.stopped [] p ≡ p' = ground arith in
        rw (← moved) (aside-Held i (Stage.holding q) Stage.stopped [] p h refl v)
    | inr live ↦ elim (Bool-cases p.paused) [
      | inl on ↦ ground arith
      | inr off ↦
          let moved : become i (Stage.checking q) (says i q Status.checking [] q.index ∷ []) p
              ≡ p' =
            ground arith in
          rw (← moved) (
            aside-Held i (Stage.holding q) (Stage.checking q)
              (says i q Status.checking [] q.index ∷ []) p h refl v)
    ]
  ]

  after_stat-Held :
      (i : ℕ) (q : Queued) (found : Result (Bool × ℕ)) (p : Pool)
      → get_elem? p.workers i ≡ some (Stage.checking q)
      → Held n p
      → Held n (after_stat s i q found p)
  unfolding after_stat start_transfer
  after_stat-Held i q found p h v = elim (Bool-cases (is_complete s q found)) [
    | inl c ↦
        rw c (
          aside-Held i (Stage.checking q) Stage.idle (says i q Status.skipped [] 0 ∷ []) p h refl v)
    | inr c ↦ rw c (elim (Bool-cases s.verify_only) [
      | inl w ↦ rw w (
          aside-Held i (Stage.checking q) Stage.idle
            (says i q Status.error (missing_text s q found) 0 ∷ []) p h refl v)
      | inr w ↦ rw w (elim (Bool-cases s.dry_run) [
        | inl d ↦
            rw d (
              aside-Held i (Stage.checking q) Stage.idle (says i q Status.done [] 0 ∷ []) p h refl
                v)
        | inr d ↦ rw d (to_transfer s.slots capped)
      ])
    ])
  ]
    where
      to_transfer : (slots : Option ℕ) → slots ≡ some n → Held n (start_transfer i q p slots)
      to_transfer none c = cc
      to_transfer (some k) c =
          aside-Held i (Stage.checking q) (Stage.waiting q) (says i q Status.queued [] 0 ∷ []) p h
            refl v

  take_slot-Held :
      (i : ℕ) (q : Queued) (p p' : Pool) (slots : Option ℕ)
      → slots ≡ some n
      → get_elem? p.workers i ≡ some (Stage.waiting q)
      → take_slot s i q p slots ≡ some p'
      → Held n p
      → Held n p'
  unfolding take_slot
  take_slot-Held i q p p' none c h e v = cc
  take_slot-Held i q p p' (some k) c h e (count, le) = elim (Bool-cases (ltb p.used k)) [
    | inl free ↦
        let same : k ≡ n = ground arith in
        let moved : become i (Stage.sending q) (says i q Status.uploading [] 0 ∷ [])
              (record p { used = p.used + 1 })
            ≡ p' =
          ground arith in
        let sum = sending_count-set p.workers i (Stage.waiting q) (Stage.sending q) h in
        rw (← moved) (omega (arith, sum, count), ground (arith, free, same))
    | inr full ↦ ground arith
  ]

  release-some : (used : ℕ) (slots : Option ℕ) → slots ≡ some n → release s used slots ≡ used - 1
  unfolding release
  release-some used none c = cc
  release-some used (some k) c = refl

  transfer-Held :
      (i : ℕ) (q : Queued) (out : List Sent) (p : Pool)
      → get_elem? p.workers i ≡ some (Stage.sending q)
      → Held n p
      → Held n (become i Stage.idle out (record p { used = release s p.used s.slots }))
  unfolding release
  transfer-Held i q out p h (count, le) =
      let sum = sending_count-set p.workers i (Stage.sending q) Stage.idle h in
      let freed = release-some p.used s.slots capped in
      (omega (arith, sum, count, freed), omega (arith, le, freed))

  advance-Held :
      (i : ℕ) (a : Act) (p p' : Pool) (st : Option Stage)
      → get_elem? p.workers i ≡ st
      → advance s i a p st ≡ some p'
      → Held n p
      → Held n p'
  unfolding advance
  advance-Held i receive p p' (some Stage.idle) h e v =
      let moved : take_next i p p.queue ≡ p' = ground arith in
      rw (← moved) (take_next-Held i p p.queue h v)
  advance-Held i admit p p' (some (Stage.holding q)) h e v = pass_gate-Held i q p p' h e v
  advance-Held i (check answer) p p' (some (Stage.checking q)) h e v =
      let moved : after_stat s i q (existing s q answer) p ≡ p' = ground arith in
      rw (← moved) (after_stat-Held i q (existing s q answer) p h v)
  advance-Held i acquire p p' (some (Stage.waiting q)) h e v =
      take_slot-Held i q p p' s.slots capped h e v
  advance-Held i give_up p p' (some (Stage.waiting q)) h e v = elim (Bool-cases p.cancelled) [
    | inl over ↦
        let moved : become i Stage.stopped [] p ≡ p' = ground arith in
        rw (← moved) (aside-Held i (Stage.waiting q) Stage.stopped [] p h refl v)
    | inr live ↦ ground arith
  ]
  advance-Held i (transfer reports r) p p' (some (Stage.sending q)) h e v =
      let p₁ : Pool = record p { used = release s p.used s.slots } in
      let moved : become i Stage.idle (forward s i q reports ++ last_word s i q r ∷ []) p₁ ≡ p' =
        ground arith in
      rw (← moved) (transfer-Held i q (forward s i q reports ++ last_word s i q r ∷ []) p h v)
  advance-Held i a p p' st h e v = cc

  run-Held : (es : List Move) (p p' : Pool) → run s es p ≡ some p' → Held n p → Held n p'
  unfolding run step
  run-Held [] p p' e v = let same : p ≡ p' = ground arith in rw (← same) v
  run-Held (m ∷ es) p p' e v =
      let (q, first, rest) = and_then-inv (run s es) (step s m p) e in
      run-Held es q p' rest (moved m q first)
    where
      moved : (m : Move) (q : Pool) → step s m p ≡ some q → Held n q
      moved (work i a) q f = advance-Held i a p q _ refl f v
      moved (pause on) q f = let same : record p { paused = on } ≡ q = ground arith in rw (← same) v
      moved cancel q f =
          let same : record p { cancelled = true } ≡ q = ground arith in rw (← same) v

  -- With a cap on the transfers: at each moment of a run from the start of the pool, whatever the
  -- interleaving, with pauses and cancellation, no more workers transfer than there are slots.
  pub run-slots :
      (jobs : ℕ) (paused : Bool) (items : List Item) (es : List Move) (p : Pool)
      → run s es (started jobs paused items) ≡ some p
      → sending_count p.workers ≤ n
  run-slots jobs paused items es p e =
      let (count, le) =
        run-Held es (started jobs paused items) p e (sending_count-idle jobs, omega arith) in
      omega (arith, count, le)
