-- ===== src/S3/Resume/Slots.antt =====
-- The slice of completed parts in resumeMultipart (S3/Resume): its seed and its order.
use timberlake.Base.{
  ℕ, suc, ◌+◌, ◌-◌, ◌<◌, ◌^◌, ◌≡◌, ◌≢◌, refl, ◌∙◌, ◌⊎◌, inl, inr, List, [], ◌∷◌, Option, none, some,
  arith, length, set, get_elem?, Bool-cases, ◌==◌, length-set, get_elem?-set_self, get_elem?-set_ne,
}
use timberlake.Io.{Text}
use timberlake.S3.Parts.{chunk, chunks}
use timberlake.S3.Service.{CompletedPart, Stored}
use timberlake.S3.Existing.{PartMap, lookup}
use timberlake.S3.Existing.Kept.{AllKept, KeptPart}
use timberlake.S3.Missing.Complete.{Done}
use timberlake.S3.Resume.{sort_completed, seed_completed}

-- The slice has the part numbers k, k + 1, … in order.
abbrev pub Numbered : ℕ → List CompletedPart → Type 0
Numbered k [] = Unit
Numbered k (none ∷ cs) = ⊥
Numbered k (some (n, e) ∷ cs) = (n ≡ k) × (n < 2 ^ 31) × Numbered (suc k) cs

pub sort_completed_id : (k : ℕ) (cs : List CompletedPart) → Numbered k cs → sort_completed cs ≡ cs
unfolding sort_completed
sort_completed_id k [] h = refl
sort_completed_id k (none ∷ cs) h = absurd h
sort_completed_id k (some (n, e) ∷ []) h = refl
sort_completed_id k (some (n, e) ∷ none ∷ cs) h = absurd h.2
sort_completed_id k (some (n, e) ∷ some (m, d) ∷ cs) h =
    rw (sort_completed_id (suc k) (some (m, d) ∷ cs) h.2) (ground arith)

-- Slots that are done, counted from k, are numbered and stored.
module _ (parts : ℕ → Option (List ℕ × Text)) (size : ℕ) (content : List ℕ) where
  abbrev pub DoneFrom : ℕ → List CompletedPart → Type 0
  DoneFrom k cs =
      (i n : ℕ)
      → i < length cs
      → n ≡ k + i
      → (e : Text) × (get_elem? cs i ≡ some (some (suc n, e)))
        × (parts (suc n) ≡ some (chunk size content n, e))

  shift :
      (k : ℕ) (c : CompletedPart) (cs : List CompletedPart)
      → DoneFrom k (c ∷ cs)
      → DoneFrom (suc k) cs
  shift k c cs d i n h e = d (suc i) n (omega arith) (omega arith)

  head_done :
      (k : ℕ) (c : CompletedPart) (cs : List CompletedPart)
      → DoneFrom k (c ∷ cs)
      → (e : Text) × (c ≡ some (suc k, e)) × (parts (suc k) ≡ some (chunk size content k, e))
  head_done k c cs d =
      let (e, at_0, st) = d 0 k (omega arith) (omega arith) in (e, ground arith, st)

  pub done-Numbered :
      (k : ℕ) (cs : List CompletedPart)
      → k + length cs < 2 ^ 31 - 1
      → DoneFrom k cs
      → Numbered (suc k) cs
  done-Numbered k [] h d = tt
  done-Numbered k (none ∷ cs) h d = let (e, same, _) = head_done k none cs d in cc
  done-Numbered k (some (n, e) ∷ cs) h d =
      let (e', same, _) = head_done k (some (n, e)) cs d in
      (
        ground arith,
        ground arith,
        done-Numbered (suc k) cs (omega arith) (shift k (some (n, e)) cs d),
      )

  pub done-Stored :
      (k : ℕ) (cs : List CompletedPart)
      → DoneFrom k cs
      → Stored parts cs (chunks size content k (length cs))
  done-Stored k [] d = tt
  done-Stored k (none ∷ cs) d = let (e, same, _) = head_done k none cs d in cc
  done-Stored k (some (n, e) ∷ cs) d =
      let (e', same, st) = head_done k (some (n, e)) cs d in
      (
        (let n_k : n ≡ suc k = ground arith in let e_e : e ≡ e' = ground arith in rw (n_k, e_e) st),
        done-Stored (suc k) cs (shift k (some (n, e)) cs d),
      )

-- Before the uploads: the kept parts are done, and no slot is filled otherwise.
module _ (parts : ℕ → Option (List ℕ × Text)) (size : ℕ) (content : List ℕ) (total : ℕ) where
  pub seed-length :
      (m : PartMap) (cs : List CompletedPart) → length (seed_completed m cs) ≡ length cs
  unfolding seed_completed
  seed-length [] cs = refl
  seed-length ((n, e) ∷ m) cs =
      seed-length m (set cs (n - 1) (some (n, e))) ∙ length-set cs (n - 1) (some (n, e))

  -- A slot stays done, since what is written into it is a kept part too.
  set-Done :
      (cs : List CompletedPart) (n : ℕ) (e : Text) (i : ℕ)
      → length cs ≡ total
      → KeptPart parts size content total n e
      → (n ≡ suc i) ⊎ Done parts size content cs i
      → Done parts size content (set cs (n - 1) (some (n, e))) i
  set-Done cs n e i l (k, n_k, h, st) d =
      let pred : n - 1 ≡ k = omega (arith, n_k) in
      elim (Bool-cases (k == i)) [
        | inl same ↦
            let k_i : k ≡ i = ground arith in
            (
              e,
              rw (pred, n_k, k_i)
                  (get_elem?-set_self cs i (some (suc i, e)) (omega (arith, k_i, l, h))),
              rw (← k_i, ← n_k) st,
            )
        | inr other ↦ elim d [
          | inl n_i ↦ absurd (ground arith)
          | inr (x, at_i, st_i) ↦
              (x, rw pred (get_elem?-set_ne cs k i (some (n, e)) (ground arith)) ∙ at_i, st_i)
        ]
      ]

  pub seed-Done :
      (m : PartMap) (cs : List CompletedPart) (i : ℕ)
      → length cs ≡ total
      → AllKept parts size content total m
      → (lookup (suc i) m ≢ none) ⊎ Done parts size content cs i
      → Done parts size content (seed_completed m cs) i
  unfolding seed_completed lookup
  seed-Done [] cs i l kept (inl found) = absurd (found refl)
  seed-Done [] cs i l kept (inr d) = d
  seed-Done ((n, e) ∷ m) cs i l kept d =
      seed-Done m (set cs (n - 1) (some (n, e))) i (length-set cs (n - 1) (some (n, e)) ∙ l) kept.1
        (next d)
    where
      next :
          (lookup (suc i) ((n, e) ∷ m) ≢ none) ⊎ Done parts size content cs i
          → (lookup (suc i) m ≢ none) ⊎ Done parts size content (set cs (n - 1) (some (n, e))) i
      next (inr d) = inr (set-Done cs n e i l kept.0 (inr d))
      next (inl found) = elim (Bool-cases (n == suc i)) [
        | inl same ↦ inr (set-Done cs n e i l kept.0 (inl (ground arith)))
        | inr other ↦ inl (rw other at found)
      ]
