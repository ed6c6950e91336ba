-- ===== src/Tests/Share.antt =====
-- A public link with no binary there: the offer, the install, the tunnel, and the end of its process.
use timberlake.Base.{◌+◌, ◌≤◌, ◌≡◌, refl, true, false, List, [], ◌∷◌, Option, none, some, member}
use timberlake.Io.{codes, ok}
use timberlake.Strings.{trim_right}
use timberlake.Web.Tunnel.{
  new_tunnel, launch, launched, found, exited, on_begin, on_launch, on_found, on_exited, is_active,
  is_off,
}
use timberlake.Web.Lan.{share_url, set_remote_url}
use timberlake.Ui.Share.{
  no_note, Share, ShareEvent, open_page, toggle_qr, public_link, consent, installed, background,
  start_tunnel, on_open_page, opened_note, offer_or_start, on_public_link, on_consent, publish_url,
  on_call_back, on_moved, calls, call_back, silent_move, on_background, step, run,
}
use timberlake.Ui.Share.Consent.{on_offer, run-asks}

abbrev shared : Share
shared = record {
  has_web = true;
  has_tunnel = true;
  has_installer = true;
  urls = record { lan_url = codes "http://h/t/1"; remote = [] };
  tunnel = new_tunnel;
  show_qr = false;
  tunnel_note = no_note;
  offer_install = false;
  installs = 0;
  callbacks = 0;
}

abbrev events : List ShareEvent
events =
    public_link false true 39
    ∷ consent true
    ∷ consent true
    ∷ installed true
    ∷ background (launch launched)
    ∷ background (found 0 (codes "https://t.example") (codes "/t/1"))
    ∷ call_back
    ∷ []

abbrev afterwards : List ShareEvent
afterwards = toggle_qr ∷ consent true ∷ open_page (ok tt) ∷ []

abbrev share_of : Option Share → Share
share_of none = shared
share_of (some s) = s

linked : Option Share
unfolding run step on_consent on_public_link offer_or_start start_tunnel on_begin is_active
    on_background silent_move on_call_back on_moved calls on_launch on_found publish_url
    set_remote_url member
linked = run events shared

links : run events shared ≡ some (share_of linked)
unfolding linked run step on_consent on_public_link offer_or_start start_tunnel on_begin is_active
    on_background silent_move on_call_back on_moved calls on_launch on_found publish_url
    set_remote_url member
links = refl

one_install : (share_of linked).installs ≡ 1
unfolding linked run step on_consent on_public_link offer_or_start start_tunnel on_begin is_active
    on_background silent_move on_call_back on_moved calls on_launch on_found publish_url
    set_remote_url member
one_install = refl

run-asks_example :
    ((share_of linked).installs ≤ 0 + 2)
    × ((share_of linked).installs + on_offer (share_of linked).offer_install ≤ 0 + 0 + 1)
run-asks_example = run-asks events shared (share_of linked) links

ended : Option Share
unfolding linked run step on_consent on_public_link offer_or_start start_tunnel on_begin is_active
    on_background silent_move on_call_back on_moved calls on_launch on_found publish_url
    set_remote_url member on_exited is_off on_open_page opened_note
ended = run (background (exited 0) ∷ afterwards) (share_of linked)

-- The link that the browser is sent to, and that a visitor finds, after the process has exited.
dead_link : share_url (share_of ended).urls ≡ codes "https://t.example/t/1"
unfolding ended linked run step on_consent on_public_link offer_or_start start_tunnel on_begin
    is_active on_background silent_move on_call_back on_moved calls on_launch on_found publish_url
    set_remote_url member on_exited is_off on_open_page opened_note share_url trim_right
dead_link = refl
