-- ===== src/Ui/Pool/Session.antt =====
-- The items over a run of the pool (Ui/Pool) from its start.
use timberlake.Base.{
  ℕ, zero, suc, ◌+◌, ◌≡◌, refl, sym, ap, ◌∙◌, Bool, false, List, [], ◌∷◌, some, and_then-inv, arith,
  length, replicate,
}
use timberlake.Io.{Item}
use timberlake.Ui.Pool.{
  Stage, Settings, Pool, Move, work, pause, cancel, step, run, numbered, started,
}
use timberlake.Ui.Pool.Once.{
  Worth, worth_queued, worth_held, worth_ended, one, held, Kept, advance-Kept,
}

-- No cancellation in the schedule.
abbrev pub Uncancelled : List Move → Type 0
Uncancelled [] = Unit
Uncancelled (cancel ∷ es) = ⊥
Uncancelled (work i a ∷ es) = Uncancelled es
Uncancelled (pause on ∷ es) = Uncancelled es

-- The worth of the items of a scan.
abbrev pub worth_of : Worth → List Item → ℕ
worth_of v [] = 0
worth_of v (it ∷ items) = v it.relative_path it.size + worth_of v items

Kept-trans : (v : Worth) (p q r : Pool) → Kept v p q → Kept v q r → Kept v p r
Kept-trans v p q r (a, b, c) (d, e, f) = (d ∙ a, e ∙ b, f ∙ c)

worth_queued-numbered :
    (v : Worth) (i : ℕ) (items : List Item) → worth_queued v (numbered i items) ≡ worth_of v items
unfolding numbered
worth_queued-numbered v i [] = refl
worth_queued-numbered v i (x ∷ xs) = omega (arith, worth_queued-numbered v (i + 1) xs)

held-replicate :
    (v : Worth) (n : ℕ)
    → (worth_held v (replicate n Stage.idle) ≡ 0) × (length (replicate n Stage.idle) ≡ n)
held-replicate v zero = (refl, refl)
held-replicate v (suc n) = let (h, l) = held-replicate v n in (omega (arith, h), ap suc l)

pub worth_of-one : (items : List Item) → worth_of one items ≡ length items
worth_of-one [] = refl
worth_of-one (it ∷ items) = omega (arith, worth_of-one items)

-- Workers without an item have nothing of any worth.
pub worth_held-none : (v : Worth) (ws : List Stage) → held ws ≡ 0 → worth_held v ws ≡ 0
worth_held-none v [] h = refl
worth_held-none v (Stage.idle ∷ ws) h = omega (arith, worth_held-none v ws (omega (arith, h)))
worth_held-none v (Stage.stopped ∷ ws) h = omega (arith, worth_held-none v ws (omega (arith, h)))
worth_held-none v (Stage.holding q ∷ ws) h = absurd (omega (arith, h))
worth_held-none v (Stage.checking q ∷ ws) h = absurd (omega (arith, h))
worth_held-none v (Stage.waiting q ∷ ws) h = absurd (omega (arith, h))
worth_held-none v (Stage.sending q ∷ ws) h = absurd (omega (arith, h))

module _ (v : Worth) (s : Settings) where
  step-Kept :
      (e : Move) (es : List Move) (p p' : Pool)
      → Uncancelled (e ∷ es)
      → p.cancelled ≡ false
      → step s e p ≡ some p'
      → Uncancelled es × Kept v p p'
  unfolding step
  step-Kept (work i a) es p p' u live e = (u, advance-Kept v s i a p p' _ refl live e)
  step-Kept (pause on) es p p' u live e =
      let moved : record p { paused = on } ≡ p' = ground arith in
      (u, rw (← moved) (refl, refl, refl))
  step-Kept cancel es p p' u live e = absurd u

  run-Kept :
      (es : List Move) (p p' : Pool)
      → Uncancelled es
      → p.cancelled ≡ false
      → run s es p ≡ some p'
      → Kept v p p'
  unfolding run
  run-Kept [] p p' u live e = let same : p ≡ p' = ground arith in rw (← same) (refl, refl, refl)
  run-Kept (m ∷ es) p p' u live e =
      let (q, first, rest) = and_then-inv (run s es) (step s m p) e in
      let (u', kept) = step-Kept m es p q u live first in
      Kept-trans v p q p' kept (run-Kept es q p' u' (kept.2 ∙ live) rest)

  -- However the workers interleave, and whatever the destination answers: if the run is not
  -- cancelled, the worth of the items in the queue, of those that the workers have, and of the files
  -- that messages Done, Skipped or Error have ended, by the path and the size that the messages name,
  -- is at each moment that of the items of the scan; paused or not. The worth is any function of path
  -- and size, so that each file is in these three places as often as the scan has it.
  pub run-accounted :
      (jobs : ℕ) (paused : Bool) (items : List Item) (es : List Move) (p : Pool)
      → Uncancelled es
      → run s es (started jobs paused items) ≡ some p
      → worth_queued v p.queue + worth_held v p.workers + worth_ended v jobs p.sent
        ≡ worth_of v items
  run-accounted jobs paused items es p u e =
      let (sum, workers, live) = run-Kept es (started jobs paused items) p u refl e in
      let (none_held, count) = held-replicate v jobs in
      ap (λ n. worth_queued v p.queue + worth_held v p.workers + worth_ended v n p.sent)
        (sym (workers ∙ count))
      ∙ omega (arith, sum, none_held, worth_queued-numbered v 0 items)
