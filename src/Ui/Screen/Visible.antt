-- ===== src/Ui/Screen/Visible.antt =====
-- The selected worker is on the screen (Ui/Screen).
use timberlake.Base.{
  ℕ, Bool, if◌then◌else◌, ◌+◌, ◌-◌, ◌≤◌, ◌<◌, ◌≡◌, refl, sym, ap, ◌∙◌, inl, inr, true, false, not,
  List, [], ◌∷◌, Option, none, some, some_inj, arith, ltb, lt→ltb, length, get_elem?, Bool-cases,
}
use timberlake.Base.Int.{ℤ, pos, negsuc, ◌+ℤ◌, ◌-ℤ◌, ltb_ℤ}
use timberlake.Ui.Model.{ProgramState, Pane, WorkerState, Model}
use timberlake.Ui.Keys.{
  Key, quit_key, pause_key, zoom_key, esc, tab, shift_tab, up, down, home, end_key, digit, on_pause,
  on_key,
}
use timberlake.Ui.Screen.{
  at_least, inner_height, content_width, TransferRow, worker, transfer_rows, on_screen,
  is_transfers, scroll, view_offset, on_click, select_worker, focus, Layout, click_content,
}
use timberlake.Ui.Screen.Rows.{visible-get, on_screen-get, transfer_rows-get, length-transfer_rows}

-- A viewport takes an offset that leaves no line free.
abbrev pub Clamps : (ℕ → ℕ → ℤ → ℕ) → Type 0
Clamps set_offset = (lines height n : ℕ) → n + height ≤ lines → set_offset lines height (pos n) ≡ n

-- The cursor before, after, and not at the end.
less-one : {c : ℤ} {s : ℕ} → ltb_ℤ (pos 0) c ≡ true → c ≡ pos s → c -ℤ pos 1 ≡ pos (s - 1)
less-one {c} {s} more e =
    rw e (let more' : ltb_ℤ (pos 0) (pos s) ≡ true = rw e at more in ground arith)

one-more : {c : ℤ} {s : ℕ} → c ≡ pos s → c +ℤ pos 1 ≡ pos (s + 1)
one-more {c} {s} e = rw e (ground arith)

not-last : {c : ℤ} {s n : ℕ} → ltb_ℤ c (pos n -ℤ pos 1) ≡ true → c ≡ pos s → s + 1 < n
not-last {c} {s} {n} more e =
    let more' : ltb_ℤ (pos s) (pos n -ℤ pos 1) ≡ true = rw e at more in ground arith

module _ {F : Type 0} where
  -- The cursor is on a worker.
  abbrev pub InRange : Model F → Type 0
  InRange m = (s : ℕ) × (m.selected_worker ≡ pos s) × (s < length m.workers)

  on_pause-same :
      (m : Model F) (s : ProgramState)
      → ((on_pause m s).selected_worker ≡ m.selected_worker) × ((on_pause m s).workers ≡ m.workers)
  unfolding on_pause
  on_pause-same m ProgramState.uploading = (refl, refl)
  on_pause-same m _ = (refl, refl)

  zoom-InRange :
      (m : Model F) (ws : List (WorkerState F))
      → InRange m
      → InRange (elim ws [ [] ↦ m | _ ↦ record m { zoom_worker = not m.zoom_worker } ])
  zoom-InRange m [] v = v
  zoom-InRange m (w ∷ ws) v = v

  if-InRange :
      (m m' : Model F) (b : Bool)
      → (b ≡ true → InRange m)
      → (b ≡ false → InRange m')
      → InRange (if b then m else m')
  if-InRange m m' true h k = h refl
  if-InRange m m' false h k = k refl

  on_key-InRange : (now : ℕ) (m : Model F) (k : Key) → InRange m → InRange (on_key now m k).0
  unfolding on_key
  on_key-InRange now m quit_key v = v
  on_key-InRange now m pause_key (s, e, h) =
      let (same, workers) = on_pause-same m m.state in (s, same ∙ e, rw workers h)
  on_key-InRange now m zoom_key v = zoom-InRange m m.workers v
  on_key-InRange now m esc v = v
  on_key-InRange now m tab v = v
  on_key-InRange now m shift_tab v = v
  on_key-InRange now m (digit p) v = v
  on_key-InRange now m up (s, e, h) =
      if-InRange _ _ (ltb_ℤ (pos 0) m.selected_worker)
        (λ more. (s - 1, less-one more e, omega arith)) (λ start. (s, e, h))
  on_key-InRange now m down (s, e, h) =
      if-InRange _ _ (ltb_ℤ m.selected_worker (pos (length m.workers) -ℤ pos 1))
        (λ more. (s + 1, one-more e, not-last more e)) (λ end. (s, e, h))
  on_key-InRange now m home (s, e, h) = (0, refl, omega arith)
  on_key-InRange now m end_key (s, e, h) = (length m.workers - 1, ground arith, omega arith)

  select-InRange : (m : Model F) (row : ℤ) → InRange m → InRange (select_worker m row)
  unfolding select_worker
  select-InRange m (negsuc n) v = v
  select-InRange m (pos n) v =
      if-InRange _ _ (ltb n (length m.workers)) (λ h. (n, refl, ground arith)) (λ h. v)

  focus-InRange : (m : Model F) (p : Option Pane) → InRange m → InRange (focus m p)
  unfolding focus
  focus-InRange m none v = v
  focus-InRange m (some p) v = v

  content-InRange :
      (l : Layout) (offset y : ℕ) (m : Model F) (p : Pane)
      → InRange m
      → InRange (click_content l offset y m p).m
  unfolding click_content
  content-InRange l offset y m Pane.web v = v
  content-InRange l offset y m Pane.transfers v =
      if-InRange _ _ m.zoom_worker (λ z. v) (λ z. select-InRange m _ v)
  content-InRange l offset y m Pane.progress v = v
  content-InRange l offset y m Pane.history v = v
  content-InRange l offset y m Pane.queue v = v

  on_click-InRange :
      (l : Layout) (offset x y : ℕ) (m : Model F) → InRange m → InRange (on_click l offset x y m).m
  unfolding on_click
  on_click-InRange l offset x y m v = elim (Bool-cases (ltb x l.sidebar_cols)) [
    | inl h ↦ rw h (focus-InRange m _ v)
    | inr h ↦ rw h (content-InRange l offset y m m.active_pane v)
  ]

-- What the user does: a key at a time, or a click at a cell, with the layout that the last View noted.
pub data Input : Type 0 where
  press : ℕ → Key → Input
  click : Layout → ℕ → ℕ → Input

module _ {F : Type 0} where
  -- Update keeps the offset of its viewport at 0: View scrolls a copy.
  abbrev pub use_all : List Input → Model F → Model F
  use_all [] m = m
  use_all (press now k ∷ is) m = use_all is (on_key now m k).0
  use_all (click l x y ∷ is) m = use_all is (on_click l 0 x y m).m

  use_all-InRange : (is : List Input) (m : Model F) → InRange m → InRange (use_all is m)
  use_all-InRange [] m v = v
  use_all-InRange (press now k ∷ is) m v = use_all-InRange is _ (on_key-InRange now m k v)
  use_all-InRange (click l x y ∷ is) m v = use_all-InRange is _ (on_click-InRange l 0 x y m v)

module _ (set_offset : ℕ → ℕ → ℤ → ℕ) where
  -- The line that `scroll` brings into the viewport.
  scroll-Shows :
      (lines inner s : ℕ)
      → Clamps set_offset
      → 0 < inner
      → s < lines
      → (k : ℕ) × (k < inner) × (s ≡ scroll set_offset lines inner 0 (pos s) + k)
  unfolding scroll
  scroll-Shows lines inner s c h l =
      let start : ltb_ℤ (pos s) (pos 0) ≡ false = ground arith in
      elim (Bool-cases (ltb_ℤ (pos s) (pos (0 + inner)))) [
        | inl near ↦ (s, ground arith, rw (start, near) (omega arith))
        | inr far ↦
            let to : pos s -ℤ pos inner +ℤ pos 1 ≡ pos (s + 1 - inner) = ground arith in
            (
              inner - 1,
              omega arith,
              rw (start, far, to, c lines inner (s + 1 - inner) (ground arith)) (ground arith),
            )
      ]

inner_height_pos : (height header help : ℕ) → 0 < inner_height height header help
unfolding inner_height at_least
inner_height_pos height header help = ground arith

module _ (set_offset : ℕ → ℕ → ℤ → ℕ) {F : Type 0} where
  -- The line of the selected worker is one of those that the viewport draws, in a panel of this
  -- height, of lines that wrap as `lines` says.
  abbrev pub Shows : ℕ → (TransferRow → ℕ) → Model F → Type 0
  Shows inner lines m =
      (s : ℕ) × (k : ℕ) × (m.selected_worker ≡ pos s)
      × (s < length m.workers)
      × (k < inner)
      × (get_elem?
            (on_screen inner lines (view_offset set_offset inner 0 m) (transfer_rows m.workers)) k
          ≡ some (worker s))

  view_offset-scroll :
      (inner s : ℕ) (m : Model F)
      → 0 < inner
      → m.selected_worker ≡ pos s
      → m.active_pane ≡ Pane.transfers
      → m.zoom_worker ≡ false
      → view_offset set_offset inner 0 m
        ≡ scroll set_offset (length (transfer_rows m.workers)) inner 0 (pos s)
  unfolding view_offset is_transfers
  view_offset-scroll inner s m h e p z =
      rw (p, z, lt→ltb 0 inner h)
        (ap (scroll set_offset (length (transfer_rows m.workers)) inner 0) e)

  -- No worker's line wraps.
  abbrev OneLine : (TransferRow → ℕ) → Model F → Type 0
  OneLine lines m = (i : ℕ) → i < length m.workers → lines (worker i) ≡ 1

  rows-OneLine :
      (lines : TransferRow → ℕ) (m : Model F) (s j : ℕ) (r : TransferRow)
      → OneLine lines m
      → s < length m.workers
      → j ≤ s
      → get_elem? (transfer_rows m.workers) j ≡ some r
      → lines r ≡ 1
  rows-OneLine lines m s j r one l h at_j =
      let l' : j < length m.workers = omega arith in
      let same : worker j ≡ r =
        some_inj (worker j) r (sym (transfer_rows-get j m.workers l') ∙ at_j) in
      ap lines (sym same) ∙ one j l'

  view_offset-Shows :
      (inner : ℕ) (lines : TransferRow → ℕ) (m : Model F)
      → Clamps set_offset
      → 0 < inner
      → InRange m
      → m.active_pane ≡ Pane.transfers
      → m.zoom_worker ≡ false
      → OneLine lines m
      → Shows inner lines m
  view_offset-Shows inner lines m c h (s, e, l) p z one =
      let rows = transfer_rows m.workers in
      let count = length-transfer_rows m.workers (omega arith) in
      let (k, k_h, k_e) =
        scroll-Shows set_offset (length rows) inner s c h (omega (arith, count, l)) in
      let at_k : s ≡ view_offset set_offset inner 0 m + k =
        k_e ∙ ap (λ o. o + k) (sym (view_offset-scroll inner s m h e p z)) in
      (
        s,
        k,
        e,
        l,
        k_h,
        on_screen-get lines inner (view_offset set_offset inner 0 m) k rows k_h
              (λ j r j_h at_j. rows-OneLine lines m s j r one l (omega (arith, at_k, j_h)) at_j)
            ∙ visible-get inner (view_offset set_offset inner 0 m) k s rows k_h at_k
            ∙ transfer_rows-get s m.workers l,
      )

  -- Whatever keys are pressed and wherever the mouse clicks, in any layout: if the cursor was on a
  -- worker it still is; and in a terminal of any height that is wide enough for the workers' lines,
  -- the line of the selected worker is one of those that View draws of the transfers pane, with no
  -- worker zoomed in. `cells` is how wide a line is drawn, `wrap` into how many lines of a width text
  -- of so many cells is wrapped, and text that fits is not wrapped. The viewport takes an offset that
  -- leaves no line of it free.
  pub use_all-Shows :
      (is : List Input) (m : Model F) (height width header help : ℕ) (cells : TransferRow → ℕ)
      (wrap : ℕ → ℕ → ℕ)
      → Clamps set_offset
      → ((w c : ℕ) → c ≤ w → wrap w c ≡ 1)
      → InRange m
      → (use_all is m).active_pane ≡ Pane.transfers
      → (use_all is m).zoom_worker ≡ false
      → ((i : ℕ) → i < length (use_all is m).workers → cells (worker i) ≤ content_width width)
      → Shows
          (inner_height height header help)
          (λ r. wrap (content_width width) (cells r))
          (use_all is m)
  use_all-Shows is m height width header help cells wrap c one v p z fits =
      view_offset-Shows _ _ (use_all is m) c (inner_height_pos height header help)
        (use_all-InRange is m v) p z
        (λ i h. one (content_width width) (cells (worker i)) (fits i h))
