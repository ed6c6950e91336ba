-- ===== src/Ui/Screen/Clicks.antt =====
-- What a click on a drawn row does (Ui/Screen).
use timberlake.Base.{
  ℕ, zero, suc, ◌+◌, ◌-◌, ◌≤◌, ◌<◌, ◌≡◌, ◌≢◌, refl, ap, ◌∙◌, inl, inr, Bool, false, List, [],
  Option, none, some, arith, ltb, leb, lt→ltb, get_elem?, Bool-cases, if◌then◌else◌,
}
use timberlake.Base.Int.{pos, ◌+ℤ◌, ◌-ℤ◌}
use timberlake.Io.{Text}
use timberlake.Ui.Model.{Pane, Model}
use timberlake.Web.Tunnel.{TunnelState}
use timberlake.Web.Install.{InstallState}
use timberlake.Ui.Screen.{
  Layout, view_layout, drawn_layout, entry, render_sidebar, row_at, lan_link, public_link,
  render_web_pane, web_layout, worker, transfer_rows, visible, on_click, focus, pane_at,
  click_content, select_worker, link_at, Clicked,
}
use timberlake.Ui.Screen.Rows.{visible-inv, transfer_rows-inv}
use timberlake.Ui.Screen.Links.{lan_link-row, public_link-row, link_at-lan, link_at-public}

-- A drawn line and its number below the border.
row_at-inv :
    {A : Type 0} (top y : ℕ) (rows : List A) {r : A}
    → row_at top rows y ≡ some r
    → (k : ℕ) × (y ≡ suc top + k) × (get_elem? rows k ≡ some r)
unfolding row_at
row_at-inv top y rows h = elim (Bool-cases (leb (suc top) y)) [
  | inl below ↦ (y - suc top, ground arith, rw below at h)
  | inr above ↦ cc (rw above at h)
]

-- The pane whose entry stands below that of a pane; none below the last.
abbrev pub next_entry : Pane → Option Pane
next_entry Pane.progress = some Pane.transfers
next_entry Pane.transfers = some Pane.history
next_entry Pane.history = some Pane.queue
next_entry Pane.queue = some Pane.web
next_entry Pane.web = none

-- The fifth line and so on of the sidebar, and what the handler reads at them.
entry-next :
    (k : ℕ) (p : Pane)
    → get_elem? render_sidebar k ≡ some (entry p)
    → pane_at (pos k -ℤ pos 1) ≡ next_entry p
unfolding render_sidebar pane_at
entry-next zero p h = cc h
entry-next (suc zero) p h = cc h
entry-next (suc (suc zero)) p h = ground arith
entry-next (suc (suc (suc zero))) p h = ground arith
entry-next (suc (suc (suc (suc zero)))) p h = ground arith
entry-next (suc (suc (suc (suc (suc zero))))) p h = ground arith
entry-next (suc (suc (suc (suc (suc (suc zero)))))) p h = ground arith
entry-next (suc (suc (suc (suc (suc (suc (suc k))))))) p h = cc h

-- A row of the content below the border, as the handler counts it from contentTop and sidebarTop.
content-row : (top k : ℕ) → pos (suc top + k) -ℤ pos (top + 1) +ℤ pos 0 ≡ pos k
content-row top k = ground arith

sidebar-row : (top k : ℕ) → pos (suc top + k) -ℤ pos (top + 2) ≡ pos k -ℤ pos 1
sidebar-row top k = ground arith

sidebar-row_zero : (top k : ℕ) → pos (suc top + k) -ℤ pos (top + 2) +ℤ pos 0 ≡ pos k -ℤ pos 1
sidebar-row_zero top k = ground arith

-- Where the panels are, whichever pane is active.
layout_tops :
    (top : ℕ) (lan : Text) (state : TunnelState) (u : Text) (l : Layout) (p : Pane)
    → ((drawn_layout top lan state u p l).sidebar_cols ≡ 22)
      × ((drawn_layout top lan state u p l).sidebar_top ≡ top + 2)
      × ((drawn_layout top lan state u p l).content_top ≡ top + 1)
unfolding drawn_layout
layout_tops top lan state u l Pane.web = (refl, refl, refl)
layout_tops top lan state u l _ = (refl, refl, refl)

if_false : {A : Type 0} (x y : A) (b : Bool) → b ≡ false → (if b then x else y) ≡ y
if_false x y b e = rw e refl

link-row : (top y k : ℕ) → y ≡ suc top + k → pos y -ℤ pos (top + 1) +ℤ pos 0 ≡ pos k
link-row top y k e = ap (λ t. pos t -ℤ pos (top + 1) +ℤ pos 0) e ∙ content-row top k

-- What is drawn at a cell that the handler looks at.
pub data Target : Type 0 where
  pane_entry : Pane → Target
  worker_line : ℕ → Target
  lan_url public_line : Text → Target

module _ {F : Type 0} (top inner offset : ℕ) (lan : Text) (state : TunnelState) (u note : Text)
    (i : InstallState) (l : Layout) where
  -- `m` is drawn below a header of `top` lines; the transfers pane from the offset of View on.
  abbrev pub Drawn : Model F → ℕ → ℕ → Target → Type 0
  Drawn m x y (pane_entry p) = (x < 22) × (row_at top render_sidebar y ≡ some (entry p))
  Drawn m x y (worker_line n) =
      (22 ≤ x)
      × (m.active_pane ≡ Pane.transfers)
      × (m.zoom_worker ≡ false)
      × (row_at top (visible inner offset (transfer_rows m.workers)) y ≡ some (worker n))
  Drawn m x y (lan_url v) =
      (22 ≤ x)
      × (m.active_pane ≡ Pane.web)
      × (v ≢ [])
      × (row_at top (render_web_pane lan state u note i) y ≡ some (lan_link v))
  Drawn m x y (public_line v) =
      (22 ≤ x)
      × (m.active_pane ≡ Pane.web)
      × (v ≢ [])
      × (row_at top (render_web_pane lan state u note i) y ≡ some (public_link v))

  -- What the click on it does: the entry below is taken, or the worker above the line counted from
  -- the top of the viewport.
  abbrev pub Lands : Model F → Target → Clicked F
  Lands m (pane_entry p) = record { m = focus m (next_entry p); opened = none }
  Lands m (worker_line n) = record {
    m = select_worker m (pos (n - offset) -ℤ pos 1);
    opened = none;
  }
  Lands m (lan_url v) = record { m = m; opened = some v }
  Lands m (public_line v) = record { m = m; opened = some v }

  drawn-beside :
      (m : Model F) (x y : ℕ) (p : Pane)
      → 22 ≤ x
      → m.active_pane ≡ p
      → on_click (drawn_layout top lan state u m.active_pane l) 0 x y m
        ≡ click_content (drawn_layout top lan state u p l) 0 y m p
  unfolding on_click
  drawn-beside m x y p right pane =
      let (cols, sidebar, content) = layout_tops top lan state u l m.active_pane in
      let beside : ltb x 22 ≡ false = ground arith in
      rw (cols, beside) (ap (λ q. click_content (drawn_layout top lan state u q l) 0 y m q) pane)

  -- A click on a line of a worker.
  worker-Lands :
      (m : Model F) (x y n : ℕ)
      → Drawn m x y (worker_line n)
      → click_content (drawn_layout top lan state u Pane.transfers l) 0 y m Pane.transfers
        ≡ Lands m (worker_line n)
  unfolding click_content drawn_layout
  worker-Lands m x y n (right, pane, zoom, drawn) =
      let (k, k_y, k_row) =
        row_at-inv top y (visible inner offset (transfer_rows m.workers)) drawn in
      let (n_is, few) =
        transfer_rows-inv (offset + k) n m.workers
          (visible-inv inner offset k (transfer_rows m.workers) k_row) in
      let row : pos y -ℤ pos (top + 2) +ℤ pos 0 ≡ pos (n - offset) -ℤ pos 1 =
        ap (λ t. pos t -ℤ pos (top + 2) +ℤ pos 0) k_y
        ∙ sidebar-row_zero top k
        ∙ ap (λ t. pos t -ℤ pos 1) (let e : k ≡ n - offset = omega arith in e) in
      ap (λ t. let c : Clicked F = record { m = t; opened = none } in c)
        (if_false m _ m.zoom_worker zoom ∙ ap (select_worker m) row)

  opens :
      (m : Model F) (y k : ℕ) (v : Text)
      → y ≡ suc top + k
      → link_at (web_layout lan state u l) (pos k) ≡ some v
      → click_content (drawn_layout top lan state u Pane.web l) 0 y m Pane.web
        ≡ record { m = m; opened = some v }
  unfolding click_content drawn_layout link_at view_layout
  opens m y k v e at_k =
      ap (λ t. let c : Clicked F = record { m = m; opened = t } in c)
        (ap (link_at (view_layout top (web_layout lan state u l))) (link-row top y k e) ∙ at_k)

  -- A click on an entry of the sidebar, on the line of a worker or on a link, as they are drawn:
  -- the entry below is focused, none for the last; the worker is selected that is one line above,
  -- counted from the first line of the viewport as if that were the first worker; and the link is
  -- opened, if it is not empty.
  pub on_click-Lands :
      (m : Model F) (x y : ℕ) (t : Target)
      → Drawn m x y t
      → on_click (drawn_layout top lan state u m.active_pane l) 0 x y m ≡ Lands m t
  unfolding on_click
  on_click-Lands m x y (pane_entry p) (left, drawn) =
      let (k, k_y, k_row) = row_at-inv top y render_sidebar drawn in
      let (cols, sidebar, content) = layout_tops top lan state u l m.active_pane in
      rw (cols, sidebar, lt→ltb x 22 left, k_y, sidebar-row top k, entry-next k p k_row) refl
  on_click-Lands m x y (worker_line n) d =
      drawn-beside m x y Pane.transfers d.0 d.1 ∙ worker-Lands m x y n d
  on_click-Lands m x y (lan_url v) (right, pane, some_url, drawn) =
      let (k, k_y, k_row) = row_at-inv top y (render_web_pane lan state u note i) drawn in
      let (k_is, v_is) = lan_link-row lan state u note i k v k_row in
      drawn-beside m x y Pane.web right pane
      ∙ opens m y k v k_y (rw (k_is, ← v_is) (link_at-lan v u state l some_url))
  on_click-Lands m x y (public_line v) (right, pane, some_url, drawn) =
      let (k, k_y, k_row) = row_at-inv top y (render_web_pane lan state u note i) drawn in
      let (k_is, on, v_is) = public_link-row lan state u note i k v k_row in
      drawn-beside m x y Pane.web right pane
      ∙ opens m y k v k_y (rw (k_is, on, ← v_is) (link_at-public lan v l some_url))
