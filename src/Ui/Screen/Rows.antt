-- ===== src/Ui/Screen/Rows.antt =====
-- The lines of the transfers pane, and those that a viewport shows (Ui/Screen).
use timberlake.Base.{
  ℕ, zero, suc, ◌+◌, ◌<◌, ◌≤◌, ◌≡◌, ◌≢◌, refl, sym, ap, ◌∙◌, List, [], ◌∷◌, ◌++◌, some, arith,
  length, length-append, get_elem?, take, drop,
}
use timberlake.Ui.Model.{WorkerState}
use timberlake.Ui.Screen.{
  TransferRow, worker, space, select_hint, worker_rows, or_no_workers, transfer_rows, visible,
  wrapped_rows, on_screen,
}

pub get_elem?-take {ℓ} :
    {A : Type ℓ} (n k : ℕ) (xs : List A) → k < n → get_elem? (take n xs) k ≡ get_elem? xs k
get_elem?-take zero k xs h = absurd (omega arith)
get_elem?-take (suc n) k [] h = refl
get_elem?-take (suc n) zero (x ∷ xs) h = refl
get_elem?-take (suc n) (suc k) (x ∷ xs) h = get_elem?-take n k xs (omega arith)

pub get_elem?-drop {ℓ} :
    {A : Type ℓ} (n k j : ℕ) (xs : List A) → j ≡ n + k → get_elem? (drop n xs) k ≡ get_elem? xs j
get_elem?-drop zero k j xs e = ap (get_elem? xs) (omega arith)
get_elem?-drop (suc n) k zero xs e = absurd (omega arith)
get_elem?-drop (suc n) k (suc j) [] e = refl
get_elem?-drop (suc n) k (suc j) (x ∷ xs) e = get_elem?-drop n k j xs (omega arith)

-- The line that shows at a row of the viewport.
pub visible-get :
    {A : Type 0} (height offset k j : ℕ) (rows : List A)
    → k < height
    → j ≡ offset + k
    → get_elem? (visible height offset rows) k ≡ get_elem? rows j
unfolding visible
visible-get height offset k j rows h e =
    get_elem?-take height k (drop offset rows) h ∙ get_elem?-drop offset k j rows e

get_elem?-take_inv {ℓ} :
    {A : Type ℓ} (n k : ℕ) (xs : List A) {r : A}
    → get_elem? (take n xs) k ≡ some r
    → get_elem? xs k ≡ some r
get_elem?-take_inv zero k xs h = cc
get_elem?-take_inv (suc n) k [] h = cc
get_elem?-take_inv (suc n) zero (x ∷ xs) h = h
get_elem?-take_inv (suc n) (suc k) (x ∷ xs) h = get_elem?-take_inv n k xs h

-- The line that a row of the viewport shows.
pub visible-inv :
    {A : Type 0} (height offset k : ℕ) (rows : List A) {r : A}
    → get_elem? (visible height offset rows) k ≡ some r
    → get_elem? rows (offset + k) ≡ some r
unfolding visible
visible-inv height offset k rows h =
    sym (get_elem?-drop offset k (offset + k) rows refl)
    ∙ get_elem?-take_inv height k (drop offset rows) h

-- Lines that do not wrap stand where they stood.
wrapped_rows-get :
    {A : Type 0} (lines : A → ℕ) (k : ℕ) (rows : List A)
    → ((j : ℕ) (r : A) → j ≤ k → get_elem? rows j ≡ some r → lines r ≡ 1)
    → get_elem? (wrapped_rows lines rows) k ≡ get_elem? rows k
unfolding wrapped_rows
wrapped_rows-get lines k [] one = refl
wrapped_rows-get lines zero (r ∷ rs) one = rw (one 0 r (omega arith) refl) refl
wrapped_rows-get lines (suc k) (r ∷ rs) one =
    rw (one 0 r (omega arith) refl)
      (wrapped_rows-get lines k rs (λ j r' h at_j. one (suc j) r' (omega arith) at_j))

pub on_screen-get :
    {A : Type 0} (lines : A → ℕ) (height offset k : ℕ) (rows : List A)
    → k < height
    → ((j : ℕ) (r : A) → j ≤ offset + k → get_elem? rows j ≡ some r → lines r ≡ 1)
    → get_elem? (on_screen height lines offset rows) k ≡ get_elem? (visible height offset rows) k
unfolding on_screen
on_screen-get lines height offset k rows h one =
    get_elem?-take height k (wrapped_rows lines (visible height offset rows)) h
    ∙ wrapped_rows-get lines k (visible height offset rows)
        (λ j r j_h at_j. one (offset + j) r (omega arith) (visible-inv height offset j rows at_j))

module _ {F : Type 0} where
  worker_rows-get :
      (i k : ℕ) (ws : List (WorkerState F)) (rest : List TransferRow)
      → k < length ws
      → get_elem? (worker_rows i ws ++ rest) k ≡ some (worker (i + k))
  unfolding worker_rows
  worker_rows-get i k [] rest h = absurd (omega arith)
  worker_rows-get i zero (w ∷ ws) rest h = ap (λ n. some (worker n)) (omega arith)
  worker_rows-get i (suc k) (w ∷ ws) rest h =
      worker_rows-get (suc i) k ws rest (omega arith) ∙ ap (λ n. some (worker n)) (omega arith)

  length-worker_rows : (i : ℕ) (ws : List (WorkerState F)) → length (worker_rows i ws) ≡ length ws
  unfolding worker_rows
  length-worker_rows i [] = refl
  length-worker_rows i (w ∷ ws) = ap suc (length-worker_rows (suc i) ws)

  or_no_workers-some :
      (i : ℕ) (ws : List (WorkerState F))
      → 0 < length ws
      → or_no_workers (worker_rows i ws) ≡ worker_rows i ws
  unfolding or_no_workers worker_rows
  or_no_workers-some i [] h = absurd (omega arith)
  or_no_workers-some i (w ∷ ws) h = refl

  -- The workers stand in the first lines, in order.
  pub transfer_rows-get :
      (k : ℕ) (ws : List (WorkerState F))
      → k < length ws
      → get_elem? (transfer_rows ws) k ≡ some (worker k)
  unfolding transfer_rows
  transfer_rows-get k ws h =
      rw (or_no_workers-some 0 ws (omega arith))
        (worker_rows-get 0 k ws _ h ∙ ap (λ n. some (worker n)) (omega arith))

  pub length-transfer_rows :
      (ws : List (WorkerState F)) → 0 < length ws → length (transfer_rows ws) ≡ length ws + 2
  unfolding transfer_rows
  length-transfer_rows ws h =
      rw (or_no_workers-some 0 ws h, length-append) (omega (arith, length-worker_rows 0 ws))

-- The two lines below the workers.
rest-worker : (j n : ℕ) → get_elem? (space ∷ select_hint ∷ []) j ≢ some (worker n)
rest-worker zero n h = cc
rest-worker (suc zero) n h = cc
rest-worker (suc (suc j)) n h = cc

module _ {F : Type 0} where
  worker_rows-inv :
      (i k n : ℕ) (ws : List (WorkerState F))
      → get_elem? (worker_rows i ws ++ space ∷ select_hint ∷ []) k ≡ some (worker n)
      → (n ≡ i + k) × (k < length ws)
  unfolding worker_rows
  worker_rows-inv i k n [] h = absurd (rest-worker k n h)
  worker_rows-inv i zero n (w ∷ ws) h = (ground arith, omega arith)
  worker_rows-inv i (suc k) n (w ∷ ws) h =
      let (e, l) = worker_rows-inv (suc i) k n ws h in (omega arith, omega arith)

  -- A worker's line is that of its index.
  pub transfer_rows-inv :
      (k n : ℕ) (ws : List (WorkerState F))
      → get_elem? (transfer_rows ws) k ≡ some (worker n)
      → (n ≡ k) × (k < length ws)
  unfolding transfer_rows or_no_workers worker_rows
  transfer_rows-inv zero n [] h = cc
  transfer_rows-inv (suc k) n [] h = absurd (rest-worker k n h)
  transfer_rows-inv k n (w ∷ ws) h =
      let (e, l) = worker_rows-inv 0 k n (w ∷ ws) h in (omega arith, l)
