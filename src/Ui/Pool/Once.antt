-- ===== src/Ui/Pool/Once.antt =====
-- The account of the items over one step of the pool (Ui/Pool): in the queue, held, or ended.
use timberlake.Base.{
  ℕ, zero, suc, ◌+◌, ◌*◌, ◌<◌, ◌≡◌, refl, ap, ◌∙◌, Bool, true, false, List, [], ◌∷◌, ◌++◌, Option,
  none, some, arith, length, get_elem?, set, ltb, Bool-cases, inl, inr,
}
use timberlake.Io.{Text, Result, ok, err}
use timberlake.Ui.Model.{Status}
use timberlake.Ui.Update.Counts.{ends_file, length-set}
use timberlake.Ui.Update.Ending.{adds}
use timberlake.Ui.Pool.{
  Queued, Stage, Sent, status, progress, Settings, Pool, Act, receive, admit, acquire, give_up,
  check, transfer, says, become, take_next, pass_gate, start_transfer, existing, is_complete,
  after_stat, take_slot, release, forward, last_word, advance,
}

-- A worth of a file by its path and its size. With 1 for one file and 0 for the others, sums of it
-- count the copies of that file.
abbrev pub Worth : Type 0
Worth = Text → ℕ → ℕ

abbrev pub item_worth : Worth → Queued → ℕ
item_worth v q = v q.item.relative_path q.item.size

abbrev pub worth_queued : Worth → List Queued → ℕ
worth_queued v [] = 0
worth_queued v (q ∷ qs) = item_worth v q + worth_queued v qs

-- What a worker has.
abbrev pub holds : Worth → Stage → ℕ
holds v Stage.idle = 0
holds v Stage.stopped = 0
holds v (Stage.holding q) = item_worth v q
holds v (Stage.checking q) = item_worth v q
holds v (Stage.waiting q) = item_worth v q
holds v (Stage.sending q) = item_worth v q

abbrev pub worth_held : Worth → List Stage → ℕ
worth_held v [] = 0
worth_held v (s ∷ ss) = holds v s + worth_held v ss

-- What the messages end, for this number of workers.
abbrev pub worth_ended : Worth → ℕ → List Sent → ℕ
worth_ended v n [] = 0
worth_ended v n (status msg ∷ out) = adds n msg * v msg.file_name msg.size + worth_ended v n out
worth_ended v n (progress msg ∷ out) = worth_ended v n out

-- Each file counts as one.
abbrev pub one : Worth
one path size = 1

abbrev pub held : List Stage → ℕ
held = worth_held one

abbrev pub ends : ℕ → List Sent → ℕ
ends = worth_ended one

module _ (v : Worth) where
  ends-append :
      (n : ℕ) (a b : List Sent) → worth_ended v n (a ++ b) ≡ worth_ended v n a + worth_ended v n b
  ends-append n [] b = omega arith
  ends-append n (status msg ∷ a) b = rw (ends-append n a b) (omega arith)
  ends-append n (progress msg ∷ a) b = ends-append n a b

  held-set :
      (ws : List Stage) (i : ℕ) (old new : Stage)
      → get_elem? ws i ≡ some old
      → (worth_held v (set ws i new) + holds v old ≡ worth_held v ws + holds v new)
        × (i < length ws)
  held-set [] i old new h = ground arith
  held-set (w ∷ ws) zero old new h =
      let same : w ≡ old = ground arith in (rw same (omega arith), omega arith)
  held-set (w ∷ ws) (suc i) old new h =
      let (sum, lt) = held-set ws i old new h in (omega (arith, sum), omega (arith, lt))

  -- The items that are still to end, and those that have ended.
  abbrev pub accounted : Pool → ℕ
  accounted p =
      worth_queued v p.queue + worth_held v p.workers + worth_ended v (length p.workers) p.sent

  -- One worker goes on to a stage and sends messages: what the account changes by.
  become-accounted :
      (i : ℕ) (old new : Stage) (out : List Sent) (p : Pool)
      → get_elem? p.workers i ≡ some old
      → let p' = become i new out p in
        (accounted p' + holds v old
          ≡ accounted p + holds v new + worth_ended v (length p.workers) out)
        × (i < length p.workers)
  become-accounted i old new out p h =
      let (sum, lt) = held-set p.workers i old new h in
      (
        rw (length-set p.workers i new, ends-append (length p.workers) p.sent out)
            (omega (arith, sum)),
        lt,
      )

  says-ends :
      (n i : ℕ) (q : Queued) (s : Status) (failure : Text) (index : ℕ)
      → i < n
      → worth_ended v n (says i q s failure index ∷ []) ≡ ends_file s * item_worth v q
  unfolding says
  says-ends n i q s failure index h =
      let lt : ltb i n ≡ true = ground arith in rw lt (omega (arith))

  -- The account, the number of workers and the context stay as they are.
  abbrev pub Kept : Pool → Pool → Type 0
  Kept p p' =
      (accounted p' ≡ accounted p)
      × (length p'.workers ≡ length p.workers)
      × (p'.cancelled ≡ p.cancelled)

  become-Kept :
      (i : ℕ) (old new : Stage) (out : List Sent) (p : Pool)
      → get_elem? p.workers i ≡ some old
      → (i < length p.workers → holds v new + worth_ended v (length p.workers) out ≡ holds v old)
      → Kept p (become i new out p)
  become-Kept i old new out p h balance =
      let (sum, lt) = become-accounted i old new out p h in
      (omega (arith, sum, balance lt), length-set p.workers i new, refl)

  one_message-Kept :
      (i : ℕ) (old new : Stage) (q : Queued) (s : Status) (failure : Text) (index : ℕ) (p : Pool)
      → get_elem? p.workers i ≡ some old
      → holds v new + ends_file s * item_worth v q ≡ holds v old
      → Kept p (become i new (says i q s failure index ∷ []) p)
  one_message-Kept i old new q s failure index p h balance = become-Kept i old new _ p h (λ lt.
      ap (λ k. holds v new + k) (says-ends (length p.workers) i q s failure index lt) ∙ balance)

  take_next-Kept :
      (i : ℕ) (p : Pool) (qs : List Queued)
      → p.queue ≡ qs
      → get_elem? p.workers i ≡ some Stage.idle
      → Kept p (take_next i p qs)
  unfolding take_next
  take_next-Kept i p [] e h = become-Kept i Stage.idle Stage.stopped [] p h (λ lt. refl)
  take_next-Kept i p (q ∷ qs) e h =
      let (sum, lt) = become-accounted i Stage.idle (Stage.holding q) [] p h in
      (rw e (omega (arith, (rw e at sum))), length-set p.workers i (Stage.holding q), refl)

  pass_gate-Kept :
      (i : ℕ) (q : Queued) (p p' : Pool)
      → get_elem? p.workers i ≡ some (Stage.holding q)
      → p.cancelled ≡ false
      → pass_gate i q p ≡ some p'
      → Kept p p'
  unfolding pass_gate
  pass_gate-Kept i q p p' h live e = elim (Bool-cases p.paused) [
    | inl on ↦ ground arith
    | inr off ↦
        let moved : become i (Stage.checking q) (says i q Status.checking [] q.index ∷ []) p ≡ p' =
          ground arith in
        rw (← moved) (
          one_message-Kept i (Stage.holding q) (Stage.checking q) q Status.checking [] q.index p h
            (omega arith))
  ]

  module _ (s : Settings) where
    after_stat-Kept :
        (i : ℕ) (q : Queued) (found : Result (Bool × ℕ)) (p : Pool)
        → get_elem? p.workers i ≡ some (Stage.checking q)
        → Kept p (after_stat s i q found p)
    unfolding after_stat start_transfer
    after_stat-Kept i q found p h = elim (Bool-cases (is_complete s q found)) [
      | inl c ↦
          rw c (
            one_message-Kept i (Stage.checking q) Stage.idle q Status.skipped [] 0 p h
              (omega arith))
      | inr c ↦ rw c (elim (Bool-cases s.verify_only) [
        | inl v ↦
            rw v (
              one_message-Kept i (Stage.checking q) Stage.idle q Status.error _ 0 p h (omega arith))
        | inr v ↦ rw v (elim (Bool-cases s.dry_run) [
          | inl d ↦ rw d (
              one_message-Kept i (Stage.checking q) Stage.idle q Status.done [] 0 p h (omega arith))
          | inr d ↦ rw d (to_transfer s.slots)
        ])
      ])
    ]
      where
        to_transfer : (slots : Option ℕ) → Kept p (start_transfer i q p slots)
        to_transfer none =
            one_message-Kept i (Stage.checking q) (Stage.sending q) q Status.uploading [] 0 p h
              (omega arith)
        to_transfer (some n) =
            one_message-Kept i (Stage.checking q) (Stage.waiting q) q Status.queued [] 0 p h
              (omega arith)

    take_slot-Kept :
        (i : ℕ) (q : Queued) (p p' : Pool) (slots : Option ℕ)
        → get_elem? p.workers i ≡ some (Stage.waiting q)
        → take_slot s i q p slots ≡ some p'
        → Kept p p'
    unfolding take_slot
    take_slot-Kept i q p p' none h e = cc
    take_slot-Kept i q p p' (some n) h e = elim (Bool-cases (ltb p.used n)) [
      | inl free ↦
          let p₁ : Pool = record p { used = p.used + 1 } in
          let moved : become i (Stage.sending q) (says i q Status.uploading [] 0 ∷ []) p₁ ≡ p' =
            ground arith in
          rw (← moved) (
            one_message-Kept i (Stage.waiting q) (Stage.sending q) q Status.uploading [] 0 p₁ h
              (omega arith))
      | inr full ↦ ground arith
    ]

    ends-forward :
        (n i : ℕ) (q : Queued) (reports : List (ℕ × ℕ × ℕ))
        → worth_ended v n (forward s i q reports) ≡ 0
    unfolding forward
    ends-forward n i q [] = refl
    ends-forward n i q ((c, u, b) ∷ reports) = ends-forward n i q reports

    ends-last_word :
        (n i : ℕ) (q : Queued) (r : Result (Unit {0}))
        → i < n
        → worth_ended v n (last_word s i q r ∷ []) ≡ item_worth v q
    unfolding last_word
    ends-last_word n i q (ok u) h = says-ends n i q Status.done [] 0 h ∙ omega arith
    ends-last_word n i q (err e) h = says-ends n i q Status.error (s.error_text e) 0 h ∙ omega arith

    transfer-Kept :
        (i : ℕ) (q : Queued) (reports : List (ℕ × ℕ × ℕ)) (r : Result (Unit {0})) (p : Pool)
        → get_elem? p.workers i ≡ some (Stage.sending q)
        → Kept p (become i Stage.idle (forward s i q reports ++ last_word s i q r ∷ []) p)
    transfer-Kept i q reports r p h =
        let n = length p.workers in
        become-Kept i (Stage.sending q) Stage.idle _ p h (λ lt. omega (
          arith,
          ends-append n (forward s i q reports) (last_word s i q r ∷ []),
          ends-forward n i q reports,
          ends-last_word n i q r lt,
        ))

    pub advance-Kept :
        (i : ℕ) (a : Act) (p p' : Pool) (st : Option Stage)
        → get_elem? p.workers i ≡ st
        → p.cancelled ≡ false
        → advance s i a p st ≡ some p'
        → Kept p p'
    unfolding advance
    advance-Kept i receive p p' (some Stage.idle) h live e =
        let moved : take_next i p p.queue ≡ p' = ground arith in
        rw (← moved) (take_next-Kept i p p.queue refl h)
    advance-Kept i admit p p' (some (Stage.holding q)) h live e = pass_gate-Kept i q p p' h live e
    advance-Kept i (check answer) p p' (some (Stage.checking q)) h live e =
        let moved : after_stat s i q (existing s q answer) p ≡ p' = ground arith in
        rw (← moved) (after_stat-Kept i q (existing s q answer) p h)
    advance-Kept i acquire p p' (some (Stage.waiting q)) h live e =
        take_slot-Kept i q p p' s.slots h e
    advance-Kept i give_up p p' (some (Stage.waiting q)) h live e = ground arith
    advance-Kept i (transfer reports r) p p' (some (Stage.sending q)) h live e =
        let p₁ : Pool = record p { used = release s p.used s.slots } in
        let moved : become i Stage.idle (forward s i q reports ++ last_word s i q r ∷ []) p₁ ≡ p' =
          ground arith in
        rw (← moved) (transfer-Kept i q reports r p₁ h)
    advance-Kept i a p p' st h live e = cc
