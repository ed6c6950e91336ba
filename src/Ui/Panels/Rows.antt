-- ===== src/Ui/Panels/Rows.antt =====
-- The lines of the history and of the queue (Ui/Panels).
use timberlake.Base.{
  ℕ, zero, suc, ◌+◌, ◌-◌, ◌≤◌, ◌<◌, ◌≡◌, refl, ap, ◌∙◌, inl, inr, List, [], ◌∷◌, ◌++◌, map, some,
  arith, ltb, length, length-append, length-map, length-take, length-drop, get_elem?, take, drop,
  Bool-cases, some_inj, ltb→lt,
}
use timberlake.Base.Int.{pos}
use timberlake.Io.{Text, codes, Item}
use timberlake.Ui.Model.{Floats, FileRecord, Model}
use timberlake.Ui.Screen.{at_least}
use timberlake.Ui.Screen.Rows.{get_elem?-take, get_elem?-drop}
use timberlake.Ui.Panels.{
  cut_end, cut_start, last_of, backwards, history_line, render_history_pane, QueueRow, queue_item,
  queue_start, queue_items, or_drained, render_queue_pane,
}

length-cut_end : (width : ℕ) (name : Text) → 3 ≤ width → length (cut_end width name) ≤ width
unfolding cut_end
length-cut_end width name h = elim (Bool-cases (ltb width (length name))) [
  | inl long ↦ rw long (
      omega
        (arith, length-append (take (width - 3) name) (codes "..."), length-take (width - 3) name))
  | inr short ↦ rw short (ground arith)
]

length-cut_start : (width : ℕ) (name : Text) → 3 ≤ width → length (cut_start width name) ≤ width
unfolding cut_start
length-cut_start width name h = elim (Bool-cases (ltb width (length name))) [
  | inl long ↦
      rw long (omega (arith, length-drop (length name - (width - 3)) name, ltb→lt _ _ long))
  | inr short ↦ rw short (ground arith)
]

module _ {A : Type 0} where
  get_elem?-append :
      (xs ys : List A) (k : ℕ) → k < length xs → get_elem? (xs ++ ys) k ≡ get_elem? xs k
  get_elem?-append [] ys k h = absurd (omega arith)
  get_elem?-append (x ∷ xs) ys zero h = refl
  get_elem?-append (x ∷ xs) ys (suc k) h = get_elem?-append xs ys k (omega arith)

  get_elem?-snoc :
      (xs : List A) (y : A) (k : ℕ) → k ≡ length xs → get_elem? (xs ++ y ∷ []) k ≡ some y
  get_elem?-snoc [] y k h = rw h refl
  get_elem?-snoc (x ∷ xs) y zero h = absurd (omega arith)
  get_elem?-snoc (x ∷ xs) y (suc k) h = get_elem?-snoc xs y k (omega arith)

  length-backwards : (xs : List A) → length (backwards xs) ≡ length xs
  unfolding backwards
  length-backwards [] = refl
  length-backwards (x ∷ xs) =
      omega (arith, length-append (backwards xs) (x ∷ []), length-backwards xs)

  -- The k-th from the end.
  get_elem?-backwards :
      (xs : List A) (k j : ℕ)
      → suc (j + k) ≡ length xs
      → get_elem? (backwards xs) k ≡ get_elem? xs j
  unfolding backwards
  get_elem?-backwards [] k j h = absurd (omega arith)
  get_elem?-backwards (x ∷ xs) k zero h =
      get_elem?-snoc (backwards xs) x k (omega (arith, length-backwards xs))
  get_elem?-backwards (x ∷ xs) k (suc j) h =
      get_elem?-append (backwards xs) (x ∷ []) k (omega (arith, length-backwards xs))
      ∙ get_elem?-backwards xs k j (omega arith)

  length-last_of : (n : ℕ) (xs : List A) → length (last_of n xs) ≤ n
  unfolding last_of
  length-last_of n xs = elim (Bool-cases (ltb n (length xs))) [
    | inl long ↦ rw long (omega (arith, length-drop (length xs - n) xs, ltb→lt _ _ long))
    | inr short ↦ rw short (ground arith)
  ]

  -- The k-th line of the last n, newest first.
  get_elem?-newest :
      (n : ℕ) (xs : List A) (k j : ℕ)
      → k < n
      → suc (j + k) ≡ length xs
      → get_elem? (backwards (last_of n xs)) k ≡ get_elem? xs j
  unfolding last_of
  get_elem?-newest n xs k j h e = elim (Bool-cases (ltb n (length xs))) [
    | inr short ↦ rw short (get_elem?-backwards xs k j e)
    | inl long ↦
        let off = length xs - n in
        let l = ltb→lt _ _ long in
        rw long (
          get_elem?-backwards (drop off xs) k (j - off) (omega (arith, length-drop off xs))
          ∙ get_elem?-drop off (j - off) j xs (omega arith))
  ]

  get_elem?-map :
      {B : Type 0} (f : A → B) (xs : List A) (k : ℕ) {a : A}
      → get_elem? xs k ≡ some a
      → get_elem? (map f xs) k ≡ some (f a)
  get_elem?-map f [] k h = cc
  get_elem?-map f (x ∷ xs) zero {a} h = ap (λ t. some (f t)) (some_inj x a h)
  get_elem?-map f (x ∷ xs) (suc k) h = get_elem?-map f xs k h

-- The history pane has a line for each of the last files that fit its height, newest first: the line
-- k is that of the file j with k files after it. Its name fits its column, and the lines fit the
-- height.
pub render_history_pane-Newest :
    (base : Text → Text) (width height : ℕ) (hist : List FileRecord) (k j : ℕ) (r : FileRecord)
    → k < height
    → suc (j + k) ≡ length hist
    → get_elem? hist j ≡ some r
    → let column = at_least 12 (width - 34) in
      (get_elem? (render_history_pane base width height hist) k ≡ some (history_line base column r))
      × (length (history_line base column r).name ≤ column)
      × (length (render_history_pane base width height hist) ≤ height)
unfolding render_history_pane history_line at_least
render_history_pane-Newest base width height hist k j r h e at_j = (
  get_elem?-map _ (backwards (last_of height hist)) k (get_elem?-newest height hist k j h e ∙ at_j),
  length-cut_end _ (base r.name) (ground arith),
  omega (
    arith,
    length-map (backwards (last_of height hist)) (history_line base (at_least 12 (width - 34))),
    length-backwards (last_of height hist),
    length-last_of height hist,
  ),
)

queue_items-get :
    (width s : ℕ) (items : List Item) (k : ℕ) {it : Item}
    → get_elem? items k ≡ some it
    → get_elem? (queue_items width s items) k
      ≡ some (queue_item (s + k) (cut_start width it.relative_path) it.size)
unfolding queue_items
queue_items-get width s [] k h = cc
queue_items-get width s (x ∷ xs) zero {it} h =
    ap (λ (t : Item). some (queue_item s (cut_start width t.relative_path) t.size))
      (some_inj x it h)
    ∙ ap (λ n. some (queue_item n (cut_start width it.relative_path) it.size)) (omega arith)
queue_items-get width s (x ∷ xs) (suc k) {it} h =
    queue_items-get width (suc s) xs k h
    ∙ ap (λ n. some (queue_item n (cut_start width it.relative_path) it.size)) (omega arith)

length-queue_items :
    (width s : ℕ) (items : List Item) → length (queue_items width s items) ≡ length items
unfolding queue_items
length-queue_items width s [] = refl
length-queue_items width s (x ∷ xs) = ap suc (length-queue_items width (suc s) xs)

or_drained-get :
    (rows : List QueueRow) (k : ℕ) {r : QueueRow}
    → get_elem? rows k ≡ some r
    → get_elem? (or_drained rows) k ≡ some r
unfolding or_drained
or_drained-get [] k h = cc
or_drained-get (x ∷ xs) k h = h

length-or_drained :
    (rows : List QueueRow) (n : ℕ) → length rows ≤ n → 0 < n → length (or_drained rows) ≤ n
unfolding or_drained
length-or_drained [] n h z = z
length-or_drained (x ∷ xs) n h z = h

-- A row of the shown part of the queue from `s` on.
shown-get :
    (width s show k : ℕ) (items : List Item) {it : Item}
    → k < show
    → get_elem? items (s + k) ≡ some it
    → get_elem? (or_drained (queue_items width (s + 1) (take show (drop s items)))) k
      ≡ some (queue_item (s + 1 + k) (cut_start width it.relative_path) it.size)
shown-get width s show k items h at_k = or_drained-get _ k (
    queue_items-get width (s + 1) (take show (drop s items)) k
      (get_elem?-take show k (drop s items) h ∙ get_elem?-drop s k (s + k) items refl ∙ at_k))

length-shown :
    (width s show : ℕ) (items : List Item)
    → 0 < show
    → length (or_drained (queue_items width (s + 1) (take show (drop s items)))) ≤ show
length-shown width s show items h =
    length-or_drained _ show
      (omega (
        arith,
        length-queue_items width (s + 1) (take show (drop s items)),
        length-take show (drop s items),
      ))
      h

get_elem?-lt : {A : Type 0} (xs : List A) (k : ℕ) {a : A} → get_elem? xs k ≡ some a → k < length xs
get_elem?-lt [] k h = cc
get_elem?-lt (x ∷ xs) zero h = omega arith
get_elem?-lt (x ∷ xs) (suc k) h = omega (arith, get_elem?-lt xs k h)

queue_start-within : (n len : ℕ) → n + 1 ≤ len → queue_start (pos n) len ≡ n + 1
unfolding queue_start
queue_start-within n len h = ground arith

module _ (fl : Floats) where
  -- The queue pane shows, in scan order, the items behind the last that was dispatched, as many as
  -- fit, each with its number in the scan: line k + 2 is that of the item k + 1 places behind
  -- QueuePos. Its name fits its column, and the lines fit a height of at least four.
  pub render_queue_pane-Next :
      (width height n k : ℕ) (m : Model fl.F) (it : Item)
      → m.queue_pos ≡ pos n
      → get_elem? m.work_queue (n + 1 + k) ≡ some it
      → k < at_least 1 (height - 3)
      → 4 ≤ height
      → let column = at_least 12 (width - 20) in
        (get_elem? (render_queue_pane fl width height m) (suc (suc k))
          ≡ some (queue_item (n + 2 + k) (cut_start column it.relative_path) it.size))
        × (length (cut_start column it.relative_path) ≤ column)
        × (length (render_queue_pane fl width height m) ≤ height)
  unfolding render_queue_pane
  render_queue_pane-Next width height n k m it p at_k h fits =
      let some_show : 0 < at_least 1 (height - 3) = unfold at_least in ground arith in
      let within : n + 1 ≤ length m.work_queue =
        omega (arith, get_elem?-lt m.work_queue (n + 1 + k) at_k) in
      let start : queue_start m.queue_pos (length m.work_queue) ≡ n + 1 =
        ap (λ q. queue_start q (length m.work_queue)) p
        ∙ queue_start-within n (length m.work_queue) within in
      let show = at_least 1 (height - 3) in
      let small : show + 2 ≤ height = unfold at_least in ground arith in
      let column = at_least 12 (width - 20) in
      (
        rw start (
            shown-get column (n + 1) show k m.work_queue h at_k
            ∙ ap (λ i. some (queue_item i (cut_start column it.relative_path) it.size))
                (omega arith)),
        length-cut_start column it.relative_path (unfold at_least in ground arith),
        rw start (omega (arith, length-shown column (n + 1) show m.work_queue some_show, small)),
      )
