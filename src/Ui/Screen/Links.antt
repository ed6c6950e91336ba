-- ===== src/Ui/Screen/Links.antt =====
-- The lines of renderWebPane that hold a link, and the link that a click finds there (Ui/Screen).
use timberlake.Base.{
  ℕ, zero, suc, ◌≡◌, ◌≢◌, refl, ap, Bool, true, false, List, [], ◌∷◌, ◌++◌, some, arith, get_elem?,
  some_inj,
}
use timberlake.Base.Int.{pos}
use timberlake.Io.{Text}
use timberlake.Web.Tunnel.{TunnelState}
use timberlake.Web.Install.{InstallState}
use timberlake.Ui.Screen.{
  Layout, WebRow, lan_link, public_link, render_web_pane, web_layout, tunnel_line, note_line,
  install_line, blank, qr_code, link_at,
}

abbrev is_link : WebRow → Bool
is_link (lan_link u) = true
is_link (public_link u) = true
is_link _ = false

-- Lines that hold no link.
abbrev Plain : List WebRow → Type 0
Plain [] = Unit {0}
Plain (r ∷ rs) = (is_link r ≡ false) × Plain rs

Plain-note_line :
    (t : Text) (i : InstallState)
    → Plain (note_line t ++ (install_line i ++ (blank ∷ qr_code ∷ [])))
unfolding note_line install_line
Plain-note_line [] InstallState.idle = (refl, (refl, tt))
Plain-note_line [] _ = (refl, (refl, (refl, tt)))
Plain-note_line (c ∷ cs) InstallState.idle = (refl, (refl, (refl, tt)))
Plain-note_line (c ∷ cs) _ = (refl, (refl, (refl, (refl, tt))))

Plain-get :
    (k : ℕ) (rs : List WebRow) (r : WebRow) → Plain rs → is_link r ≡ true → get_elem? rs k ≢ some r
Plain-get k [] r p l h = cc
Plain-get zero (s ∷ rs) r p l h =
    let same : is_link s ≡ is_link r = ap is_link (some_inj s r h) in cc (same)
Plain-get (suc k) (s ∷ rs) r p l h = Plain-get k rs r p.1 l h

module _ (lan : Text) (state : TunnelState) (u note : Text) (i : InstallState) where
  -- The lines of the two links.
  pub lan_link-row :
      (k : ℕ) (v : Text)
      → get_elem? (render_web_pane lan state u note i) k ≡ some (lan_link v)
      → (k ≡ 2) × (v ≡ lan)
  unfolding render_web_pane tunnel_line
  lan_link-row zero v h = cc h
  lan_link-row (suc zero) v h = cc h
  lan_link-row (suc (suc zero)) v h = (refl, ground arith)
  lan_link-row (suc (suc (suc zero))) v h =
      elim state as (λ s. some (tunnel_line s u) ≡ some (lan_link v) → (3 ≡ 2) × (v ≡ lan)) [
        | TunnelState.off ↦ λ h. cc h
        | TunnelState.starting ↦ λ h. cc h
        | TunnelState.on ↦ λ h. cc h
        | TunnelState.failed ↦ λ h. cc h
      ]
        h
  lan_link-row (suc (suc (suc (suc zero)))) v h = cc h
  lan_link-row (suc (suc (suc (suc (suc zero))))) v h = cc h
  lan_link-row (suc (suc (suc (suc (suc (suc k)))))) v h =
      absurd (Plain-get k _ (lan_link v) (Plain-note_line note i) refl h)

  pub public_link-row :
      (k : ℕ) (v : Text)
      → get_elem? (render_web_pane lan state u note i) k ≡ some (public_link v)
      → (k ≡ 3) × (state ≡ TunnelState.on) × (v ≡ u)
  unfolding render_web_pane tunnel_line
  public_link-row zero v h = cc h
  public_link-row (suc zero) v h = cc h
  public_link-row (suc (suc zero)) v h = cc h
  public_link-row (suc (suc (suc zero))) v h =
      elim state
          as (λ s.
            some (tunnel_line s u) ≡ some (public_link v)
            → (3 ≡ 3) × (s ≡ TunnelState.on) × (v ≡ u)) [
              | TunnelState.off ↦ λ h. cc h
              | TunnelState.starting ↦ λ h. cc h
              | TunnelState.on ↦ λ h. (refl, refl, cc h)
              | TunnelState.failed ↦ λ h. cc h
            ]
        h
  public_link-row (suc (suc (suc (suc zero)))) v h = cc h
  public_link-row (suc (suc (suc (suc (suc zero))))) v h = cc h
  public_link-row (suc (suc (suc (suc (suc (suc k)))))) v h =
      absurd (Plain-get k _ (public_link v) (Plain-note_line note i) refl h)

pub link_at-lan :
    (v u : Text) (state : TunnelState) (l : Layout)
    → v ≢ []
    → link_at (web_layout v state u l) (pos 2) ≡ some v
unfolding link_at web_layout
link_at-lan [] u state l h = absurd (h refl)
link_at-lan (c ∷ cs) u state l h = ground arith

pub link_at-public :
    (lan v : Text) (l : Layout)
    → v ≢ []
    → link_at (web_layout lan TunnelState.on v l) (pos 3) ≡ some v
unfolding link_at web_layout
link_at-public lan [] l h = absurd (h refl)
link_at-public lan (c ∷ cs) l h = ground arith
