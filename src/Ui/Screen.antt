-- ===== src/Ui/Screen.antt =====
-- The layout of the screen: View of ui/view.go with its panels as rows, renderSidebar of
-- ui/panels.go, renderWebPane of ui/view.go, and the mouse in Update of ui/update.go. A row stands for
-- one line of the terminal, as in a terminal wide enough that no line is wrapped; `on_screen` is what a
-- viewport draws of lines that may wrap. The heights of the header and of the help are arguments, as lipgloss measures them, and so is the viewport of
-- bubbles.
pub mod Rows
pub mod Visible
pub mod Links
pub mod Clicks
use timberlake.Base.{
  ℕ, suc, ◌+◌, ◌-◌, Bool, true, false, ◌&&◌, not, List, [], ◌∷◌, ◌++◌, map, Option, none, some, ltb,
  leb, length, get_elem?, if◌then◌else◌, replicate, take, drop,
}
use timberlake.Base.Int.{ℤ, pos, negsuc, ◌+ℤ◌, ◌-ℤ◌, ltb_ℤ, pos_part}
use timberlake.Io.{Text, codes}
use timberlake.Ui.Model.{Pane, WorkerState, Model}
use timberlake.Web.Tunnel.{TunnelState}
use timberlake.Web.Install.{InstallState}

abbrev pub sidebar_width : ℕ
sidebar_width = 20

abbrev pub all_panes : List Pane
all_panes = Pane.progress ∷ Pane.transfers ∷ Pane.history ∷ Pane.queue ∷ Pane.web ∷ []

-- layoutBounds
pub record Layout : Type 0 where
  pub sidebar_top : ℕ
  pub sidebar_cols : ℕ
  pub content_top : ℕ
  pub lan_row : ℕ
  pub pub_row : ℕ
  pub lan_url : Text
  pub pub_url : Text

unfoldable pub at_least : ℕ → ℕ → ℕ
at_least least n = if ltb n least then least else n

-- bodyHeight and innerHeight. A negative difference is below the bound as much as 0 is.
unfoldable pub body_height : ℕ → ℕ → ℕ → ℕ
unfolding at_least
body_height height header help = at_least 6 (height - header - help - 1)

unfoldable pub inner_height : ℕ → ℕ → ℕ → ℕ
unfolding at_least body_height
inner_height height header help = at_least 3 (body_height height header help - 2)

unfoldable pub content_width : ℕ → ℕ
unfolding at_least
content_width width =
    let w = if ltb width 40 then 100 else width in at_least 20 (w - sidebar_width - 6)

-- Where View notes that it draws the panels, below a header of `top` lines.
unfoldable pub view_layout : ℕ → Layout → Layout
view_layout top l = record l {
  sidebar_top = top + 2;
  sidebar_cols = sidebar_width + 2;
  content_top = top + 1;
}

pub data SidebarRow : Type 0 where
  panels_heading gap : SidebarRow
  entry : Pane → SidebarRow

-- renderSidebar
unfoldable pub render_sidebar : List SidebarRow
render_sidebar = panels_heading ∷ gap ∷ map entry all_panes

pub data WebRow : Type 0 where
  web_heading blank open_hint qr_code : WebRow
  lan_link public_link : Text → WebRow
  public_off public_starting public_failed : WebRow
  note : Text → WebRow
  install_status : InstallState → WebRow

unfoldable pub tunnel_line : TunnelState → Text → WebRow
tunnel_line TunnelState.off u = public_off
tunnel_line TunnelState.starting u = public_starting
tunnel_line TunnelState.on u = public_link u
tunnel_line TunnelState.failed u = public_failed

-- publicURL
unfoldable pub public_url : TunnelState → Text → Text
public_url TunnelState.on u = u
public_url _ u = []

unfoldable pub install_line : InstallState → List WebRow
install_line InstallState.idle = []
install_line s = install_status s ∷ []

unfoldable pub note_line : Text → List WebRow
note_line [] = []
note_line (c ∷ cs) = note (c ∷ cs) ∷ []

-- renderWebPane: its lines, and where it notes the links.
unfoldable pub render_web_pane : Text → TunnelState → Text → Text → InstallState → List WebRow
unfolding tunnel_line install_line note_line
render_web_pane lan state u tunnel_note install =
    web_heading
    ∷ blank
    ∷ lan_link lan
    ∷ tunnel_line state u
    ∷ blank
    ∷ open_hint
    ∷ (note_line tunnel_note ++ (install_line install ++ (blank ∷ qr_code ∷ [])))

unfoldable pub web_layout : Text → TunnelState → Text → Layout → Layout
unfolding public_url
web_layout lan state u l = record l {
  lan_row = 2;
  lan_url = lan;
  pub_row = 3;
  pub_url = public_url state u;
}

-- What View leaves in the layout: renderWebPane writes its part only if its pane is active.
unfoldable pub drawn_layout : ℕ → Text → TunnelState → Text → Pane → Layout → Layout
unfolding view_layout web_layout
drawn_layout top lan state u Pane.web l = view_layout top (web_layout lan state u l)
drawn_layout top lan state u _ l = view_layout top l

-- A line of a box that starts below `top` lines: the first is its border.
unfoldable pub row_at : {A : Type 0} → ℕ → List A → ℕ → Option A
row_at top rows y = if leb (suc top) y then get_elem? rows (y - suc top) else none

unfoldable pub is_transfers : Pane → Bool
is_transfers Pane.transfers = true
is_transfers _ = false

-- The lines of renderTransfersPane, with no worker zoomed in.
pub data TransferRow : Type 0 where
  worker : ℕ → TransferRow
  no_workers space select_hint : TransferRow

module _ {F : Type 0} where
  unfoldable pub worker_rows : ℕ → List (WorkerState F) → List TransferRow
  worker_rows i [] = []
  worker_rows i (w ∷ ws) = worker i ∷ worker_rows (suc i) ws

unfoldable pub or_no_workers : List TransferRow → List TransferRow
or_no_workers [] = no_workers ∷ []
or_no_workers (r ∷ rs) = r ∷ rs

unfoldable pub transfer_rows : {F : Type 0} → List (WorkerState F) → List TransferRow
unfolding worker_rows or_no_workers
transfer_rows ws = or_no_workers (worker_rows 0 ws) ++ space ∷ select_hint ∷ []

-- What a viewport of a height shows of its lines, from an offset on.
unfoldable pub visible : {A : Type 0} → ℕ → ℕ → List A → List A
visible height offset rows = take height (drop offset rows)

-- Lines that wrap into so many lines of the terminal each.
unfoldable pub wrapped_rows : {A : Type 0} → (A → ℕ) → List A → List A
wrapped_rows lines [] = []
wrapped_rows lines (r ∷ rs) = replicate (lines r) r ++ wrapped_rows lines rs

-- What View of a viewport draws: the lines it shows, wrapped, and cut at its height.
unfoldable pub on_screen : {A : Type 0} → ℕ → (A → ℕ) → ℕ → List A → List A
unfolding visible wrapped_rows
on_screen height lines offset rows = take height (wrapped_rows lines (visible height offset rows))

-- `set_offset lines height n` is the offset of the viewport after SetYOffset(n), with so many lines of
-- content.
module _ (set_offset : ℕ → ℕ → ℤ → ℕ) where
  -- The switch that keeps the selected worker in the viewport.
  unfoldable pub scroll : ℕ → ℕ → ℕ → ℤ → ℕ
  scroll lines inner offset selected =
      if ltb_ℤ selected (pos offset)
      then set_offset lines inner selected
      else if ltb_ℤ selected (pos (offset + inner))
      then offset
      else set_offset lines inner (selected -ℤ pos inner +ℤ pos 1)

  -- The offset that View draws with; `offset` is that of the model's viewport.
  unfoldable pub view_offset : {F : Type 0} → ℕ → ℕ → Model F → ℕ
  unfolding is_transfers scroll
  view_offset inner offset m =
      if is_transfers m.active_pane && not m.zoom_worker && ltb 0 inner
      then scroll (length (transfer_rows m.workers)) inner offset m.selected_worker
      else set_offset (length (transfer_rows m.workers)) inner (pos 0)

-- A click with the left button: the model, and the URL that is opened, if any; the note that names it is
-- left out.
pub record Clicked (F : Type 0) : Type 0 where
  pub m : Model F
  pub opened : Option Text

unfoldable pub pane_at : ℤ → Option Pane
pane_at (negsuc n) = none
pane_at (pos n) = get_elem? all_panes n

unfoldable pub same_row : ℤ → ℕ → Bool
same_row (negsuc n) k = false
same_row (pos n) k = leb n k && leb k n

unfoldable pub link_at : Layout → ℤ → Option Text
unfolding same_row
link_at l row =
    if same_row row l.lan_row && not (leb (length l.lan_url) 0)
    then some l.lan_url
    else if same_row row l.pub_row && not (leb (length l.pub_url) 0)
    then some l.pub_url
    else none

module _ {F : Type 0} where
  unfoldable pub focus : Model F → Option Pane → Model F
  focus m none = m
  focus m (some p) = record m { active_pane = p }

  unfoldable pub select_worker : Model F → ℤ → Model F
  select_worker m (negsuc n) = m
  select_worker m (pos n) =
      if ltb n (length m.workers) then record m { selected_worker = pos n } else m

  -- A click beside the sidebar, by the active pane.
  unfoldable pub click_content : Layout → ℕ → ℕ → Model F → Pane → Clicked F
  unfolding link_at select_worker
  click_content l offset y m Pane.web = record {
    m = m;
    opened = link_at l (pos y -ℤ pos l.content_top +ℤ pos offset);
  }
  click_content l offset y m Pane.transfers = record {
    m = if m.zoom_worker then m else select_worker m (pos y -ℤ pos l.sidebar_top +ℤ pos offset);
    opened = none;
  }
  click_content l offset y m _ = record { m = m; opened = none }

  -- case tea.MouseMsg
  unfoldable pub on_click : Layout → ℕ → ℕ → ℕ → Model F → Clicked F
  unfolding focus pane_at click_content
  on_click l offset x y m =
      if ltb x l.sidebar_cols
      then record { m = focus m (pane_at (pos y -ℤ pos l.sidebar_top)); opened = none }
      else click_content l offset y m m.active_pane

-- The widths and heights that a WindowSizeMsg sets.
pub record Dimensions : Type 0 where
  pub width : ℕ
  pub height : ℕ
  pub total_bytes_bar : ℕ
  pub total_files_bar : ℕ
  pub worker_bars : List ℕ
  pub viewport_width : ℤ
  pub viewport_height : ℕ

-- case tea.WindowSizeMsg
unfoldable pub on_resize : ℕ → ℕ → Dimensions → Dimensions
unfolding at_least
on_resize width height d = record {
  width = width;
  height = height;
  total_bytes_bar = at_least 20 (width - 30);
  total_files_bar = at_least 20 (width - 30);
  worker_bars = replicate (length d.worker_bars) (at_least 15 (width - 45));
  viewport_width = pos width -ℤ pos 4;
  viewport_height = at_least 4 (height - 20);
}
