-- ===== src/Ui/Share.antt =====
-- The keys of ui/update.go for the page that is shared (o, r, w, d) with startTunnel, over the tunnel
-- of web/tunnel.go and the URLs of web/server.go; ui/link.go. The binary, the platform and the
-- programs that the system starts are answers. A goroutine of the tunnel calls its callback after it has
-- released the lock, so that the callback is a step of its own.
pub mod Consent
use timberlake.Base.{
  ℕ, zero, suc, ◌+◌, Bool, true, false, ◌&&◌, ◌||◌, not, List, [], ◌∷◌, ◌++◌, Option, none, some,
  and_then, if◌then◌else◌,
}
use timberlake.Io.{Text, codes, eq_text, Error, message, Result, ok, err}
use timberlake.Strings.{is_empty}
use timberlake.Web.Tunnel.{
  TunnelState, on, Tunnel, Event, begin, launch, found, gave_up, exited, stop, is_active, is_off,
  is_starting, on_begin, on_stop, on_launch, on_found, on_gave_up, on_exited,
}
use timberlake.Web.Lan.{Urls, set_remote_url, share_url}

-- What url.Parse answers: the scheme and the host.
pub record Link : Type 0 where
  pub scheme : Text
  pub host : Text

unfoldable pub safe_url : Result Link → Bool
unfolding eq_text is_empty
safe_url (err e) = false
safe_url (ok u) =
    (eq_text u.scheme (codes "http") || eq_text u.scheme (codes "https")) && not (is_empty u.host)

-- The text between the two escape sequences of OSC 8.
unfoldable pub hyperlink : Result Link → Text → Text → Text
unfolding safe_url
hyperlink parsed target text =
    if safe_url parsed
    then 27
      ∷ (codes "]8;;"
          ++ (target
              ++ (27 ∷ (codes "\\" ++ (text ++ (27 ∷ (codes "]8;;" ++ (27 ∷ codes "\\"))))))))
    else text

-- The command that openBrowser starts, and its result; `started` is the answer of cmd.Start.
unfoldable pub browser_command : Text → Text → List Text
browser_command goos target =
    if eq_text goos (codes "darwin")
    then codes "open" ∷ target ∷ []
    else if eq_text goos (codes "windows")
    then codes "rundll32" ∷ codes "url.dll,FileProtocolHandler" ∷ target ∷ []
    else codes "xdg-open" ∷ target ∷ []

unfoldable pub open_browser :
    Text → Result Link → (List Text → Result (Unit {0})) → Text → Result (Unit {0})
unfolding safe_url browser_command
open_browser goos parsed started target =
    if safe_url parsed
    then started (browser_command goos target)
    else err (message "refusing to open")

-- TunnelNote.
pub data Note : Type 0 where
  no_note link_stopped unsupported starting_link downloading : Note
  opening : Text → Note
  no_browser : Error → Note
  offer : ℕ → Note

-- The fields of the model for the page; `has_…` is whether a pointer is not nil, and `installs` is how
-- often Install has been called. `callbacks` are those of goroutines that are still to run.
pub record Share : Type 0 where
  pub has_web : Bool
  pub has_tunnel : Bool
  pub has_installer : Bool
  pub urls : Urls
  pub tunnel : Tunnel
  pub show_qr : Bool
  pub tunnel_note : Note
  pub offer_install : Bool
  pub installs : ℕ
  pub callbacks : ℕ

-- The keys o (with the answer of openBrowser), r, w (with whether there is a binary, whether the
-- platform has a pinned build, and its size) and d; the end of an install that is done, with whether
-- there is a binary then; what the goroutines of the tunnel do, and a callback of one of them.
pub data ShareEvent : Type 0 where
  open_page : Result (Unit {0}) → ShareEvent
  toggle_qr : ShareEvent
  public_link : Bool → Bool → ℕ → ShareEvent
  consent : Bool → ShareEvent
  installed : Bool → ShareEvent
  background : Event → ShareEvent
  call_back : ShareEvent

unfoldable pub start_tunnel : Bool → Share → Share
start_tunnel available s =
    if s.has_web && s.has_tunnel then record s { tunnel = on_begin available s.tunnel } else s

unfoldable pub opened_note : Text → Result (Unit {0}) → Note
opened_note target (ok u) = opening target
opened_note target (err e) = no_browser e

-- case "o"
unfoldable pub on_open_page : Result (Unit {0}) → Share → Share
unfolding opened_note
on_open_page r s =
    if s.has_web then record s { tunnel_note = opened_note (share_url s.urls) r } else s

-- case "w", of a tunnel that is neither on nor starting.
unfoldable pub offer_or_start : Bool → Bool → ℕ → Share → Share
unfolding start_tunnel
offer_or_start available supported size s =
    if available
    then start_tunnel available
        (record s { show_qr = true; offer_install = false; tunnel_note = starting_link })
    else record s {
      show_qr = true;
      offer_install = true;
      tunnel_note = if supported then offer size else unsupported;
    }

unfoldable pub stop_link : Share → Share
stop_link s = record s {
  tunnel = on_stop s.tunnel;
  urls = set_remote_url [] s.urls;
  tunnel_note = link_stopped;
}

unfoldable pub on_public_link : Bool → Bool → ℕ → Share → Share
unfolding offer_or_start stop_link
on_public_link available supported size s =
    if s.has_web && s.has_tunnel
    then (if is_active s.tunnel.state
        then stop_link s
        else offer_or_start available supported size s)
    else s

-- case "d"
unfoldable pub on_consent : Bool → Share → Share
on_consent supported s =
    if s.offer_install && (s.has_installer && supported)
    then record s { offer_install = false; tunnel_note = downloading; installs = suc s.installs }
    else s

-- The callback of startTunnel.
unfoldable pub publish_url : TunnelState → Text → Urls → Urls
publish_url on url urls = set_remote_url url urls
publish_url _ url urls = urls

-- A callback, if one is due: what State answers at that time, and SetRemoteURL.
unfoldable pub on_call_back : ℕ → Share → Option Share
unfolding publish_url
on_call_back zero s = none
on_call_back (suc n) s =
    some (record s { callbacks = n; urls = publish_url s.tunnel.state s.tunnel.url s.urls })

-- Whether the goroutine that makes a move calls the callback after it.
unfoldable pub calls : Event → TunnelState → ℕ
calls (found id url path) s = 1
calls (gave_up id) s = if is_starting s then 1 else 0
calls (exited id) s = if is_off s then 0 else 1
calls _ s = 0

unfoldable pub silent_move : Share → Option Tunnel → Option Share
silent_move s none = none
silent_move s (some t) = some (record s { tunnel = t })

-- The moves of the tunnel that no key makes.
unfoldable pub on_moved : Event → Share → Option Share
unfolding silent_move
on_moved (begin available) s = none
on_moved stop s = none
on_moved (launch l) s = silent_move s (on_launch l s.tunnel s.tunnel.launching)
on_moved (found id url path) s = silent_move s (on_found id url path s.tunnel)
on_moved (gave_up id) s = silent_move s (on_gave_up id s.tunnel)
on_moved (exited id) s = silent_move s (on_exited id s.tunnel)

-- The callback of a move, if there is one, is due.
abbrev pub counted : Event → Share → Share
counted e s = record s { callbacks = s.callbacks + calls e s.tunnel.state }

unfoldable pub on_background : Event → Share → Option Share
unfolding on_moved calls
on_background e s = on_moved e (counted e s)

unfoldable pub step : ShareEvent → Share → Option Share
unfolding on_open_page on_public_link on_consent start_tunnel on_background on_call_back
step (open_page r) s = some (on_open_page r s)
step toggle_qr s = some (if s.has_web then record s { show_qr = not s.show_qr } else s)
step (public_link available supported size) s = some (on_public_link available supported size s)
step (consent supported) s = some (on_consent supported s)
step (installed available) s = some (start_tunnel available s)
step (background e) s = on_background e s
step call_back s = on_call_back s.callbacks s

unfoldable pub run : List ShareEvent → Share → Option Share
run [] s = some s
run (e ∷ es) s = and_then (run es) (step e s)
