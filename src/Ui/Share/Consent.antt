-- ===== src/Ui/Share/Consent.antt =====
-- No download without consent, and the link that is shared (Ui/Share).
use timberlake.Base.{
  ℕ, zero, suc, ◌+◌, ◌≤◌, ◌≡◌, refl, Bool, true, false, List, [], ◌∷◌, Option, none, some, arith,
  and_then-inv, some_inj,
}
use timberlake.Web.Tunnel.{
  TunnelState, on, Tunnel, Event, begin, launch, found, gave_up, exited, stop,
}
use timberlake.Ui.Share.{
  Share, ShareEvent, open_page, toggle_qr, public_link, consent, installed, background, call_back,
  start_tunnel, on_open_page, offer_or_start, stop_link, on_public_link, on_consent, on_call_back,
  silent_move, on_moved, on_background, step, run,
}

-- 1 while an install is on offer.
abbrev pub on_offer : Bool → ℕ
on_offer true = 1
on_offer false = 0

-- How often `w` was pressed with no binary there.
abbrev pub asked : List ShareEvent → ℕ
asked [] = 0
asked (public_link false supported size ∷ es) = suc (asked es)
asked (_ ∷ es) = asked es

abbrev asks : ShareEvent → ℕ
asks (public_link false supported size) = 1
asks _ = 0

asked-cons : (e : ShareEvent) (es : List ShareEvent) → asked (e ∷ es) ≡ asks e + asked es
asked-cons (public_link false supported size) es = omega arith
asked-cons (public_link true supported size) es = omega arith
asked-cons (open_page r) es = omega arith
asked-cons _ es = omega arith

-- The installs so far and the one on offer.
abbrev owed : Share → ℕ
owed s = s.installs + on_offer s.offer_install

start_tunnel-same : (available : Bool) (s : Share) → owed (start_tunnel available s) ≡ owed s
unfolding start_tunnel
start_tunnel-same available s = ground arith

public_link-owed :
    (available supported : Bool) (size : ℕ) (s : Share)
    → owed (on_public_link available supported size s)
      ≤ asks (public_link available supported size) + owed s
unfolding on_public_link offer_or_start stop_link start_tunnel
public_link-owed true supported size s = ground arith
public_link-owed false supported size s = ground arith

consent-owed : (supported : Bool) (s : Share) → owed (on_consent supported s) ≤ owed s
unfolding on_consent
consent-owed supported s = ground arith

call_back-owed : (n : ℕ) (s s' : Share) → on_call_back n s ≡ some s' → owed s' ≡ owed s
unfolding on_call_back
call_back-owed zero s s' h = cc
call_back-owed (suc n) s s' h = rw (← some_inj _ s' h) refl

silent_move-owed : (s s' : Share) (o : Option Tunnel) → silent_move s o ≡ some s' → owed s' ≡ owed s
unfolding silent_move
silent_move-owed s s' none h = cc
silent_move-owed s s' (some t) h = rw (← some_inj _ s' h) refl

moved-owed : (e : Event) (s s' : Share) → on_moved e s ≡ some s' → owed s' ≡ owed s
unfolding on_moved
moved-owed (begin available) s s' h = cc
moved-owed stop s s' h = cc
moved-owed (launch l) s s' h = silent_move-owed s s' _ h
moved-owed (found id url path) s s' h = silent_move-owed s s' _ h
moved-owed (gave_up id) s s' h = silent_move-owed s s' _ h
moved-owed (exited id) s s' h = silent_move-owed s s' _ h

background-owed : (e : Event) (s s' : Share) → on_background e s ≡ some s' → owed s' ≡ owed s
unfolding on_background
background-owed e s s' h = moved-owed e _ s' h

step-owed : (e : ShareEvent) (s s' : Share) → step e s ≡ some s' → owed s' ≤ asks e + owed s
unfolding step on_open_page
step-owed (open_page r) s s' h = rw (← some_inj _ s' h) (ground arith)
step-owed toggle_qr s s' h = rw (← some_inj _ s' h) (ground arith)
step-owed (public_link available supported size) s s' h =
    rw (← some_inj _ s' h) (public_link-owed available supported size s)
step-owed (consent supported) s s' h =
    rw (← some_inj _ s' h) (omega (arith, consent-owed supported s))
step-owed (installed available) s s' h =
    rw (← some_inj _ s' h) (omega (arith, start_tunnel-same available s))
step-owed (background e) s s' h = omega (arith, background-owed e s s' h)
step-owed call_back s s' h = omega (arith, call_back-owed s.callbacks s s' h)

-- How often `d` was pressed.
abbrev pub consents : List ShareEvent → ℕ
consents [] = 0
consents (consent supported ∷ es) = suc (consents es)
consents (_ ∷ es) = consents es

abbrev consents_to : ShareEvent → ℕ
consents_to (consent supported) = 1
consents_to _ = 0

consents-cons :
    (e : ShareEvent) (es : List ShareEvent) → consents (e ∷ es) ≡ consents_to e + consents es
consents-cons (consent supported) es = omega arith
consents-cons (public_link available supported size) es = omega arith
consents-cons (open_page r) es = omega arith
consents-cons _ es = omega arith

silent_move-installs :
    (s s' : Share) (o : Option Tunnel) → silent_move s o ≡ some s' → s'.installs ≡ s.installs
unfolding silent_move
silent_move-installs s s' none h = cc
silent_move-installs s s' (some t) h = rw (← some_inj _ s' h) refl

moved-installs : (e : Event) (s s' : Share) → on_moved e s ≡ some s' → s'.installs ≡ s.installs
unfolding on_moved
moved-installs (begin available) s s' h = cc
moved-installs stop s s' h = cc
moved-installs (launch l) s s' h = silent_move-installs s s' _ h
moved-installs (found id url path) s s' h = silent_move-installs s s' _ h
moved-installs (gave_up id) s s' h = silent_move-installs s s' _ h
moved-installs (exited id) s s' h = silent_move-installs s s' _ h

call_back-installs : (n : ℕ) (s s' : Share) → on_call_back n s ≡ some s' → s'.installs ≡ s.installs
unfolding on_call_back
call_back-installs zero s s' h = cc
call_back-installs (suc n) s s' h = rw (← some_inj _ s' h) refl

-- Only `d` calls Install.
step-installs :
    (e : ShareEvent) (s s' : Share) → step e s ≡ some s' → s'.installs ≤ consents_to e + s.installs
unfolding step on_open_page on_public_link offer_or_start stop_link start_tunnel on_consent
    on_background
step-installs (open_page r) s s' h = rw (← some_inj _ s' h) (ground arith)
step-installs toggle_qr s s' h = rw (← some_inj _ s' h) (ground arith)
step-installs (public_link available supported size) s s' h = rw (← some_inj _ s' h) (ground arith)
step-installs (consent supported) s s' h = rw (← some_inj _ s' h) (ground arith)
step-installs (installed available) s s' h = rw (← some_inj _ s' h) (ground arith)
step-installs (background e) s s' h = omega (arith, moved-installs e _ s' h)
step-installs call_back s s' h = omega (arith, call_back-installs s.callbacks s s' h)

-- Whatever keys are pressed, in whatever order the goroutines of the tunnel move and an install ends,
-- and whatever the system answers: the calls of Install grow by no more than the presses of `d`; and
-- with the one on offer, by no more than the number of times that `w` was pressed with no binary there.
pub run-asks :
    (es : List ShareEvent) (s s' : Share)
    → run es s ≡ some s'
    → (s'.installs ≤ s.installs + consents es)
      × (s'.installs + on_offer s'.offer_install ≤ s.installs + on_offer s.offer_install + asked es)
unfolding run
run-asks [] s s' h = rw (← some_inj s s' h) (omega arith, omega arith)
run-asks (e ∷ es) s s' h =
    let (s₁, first, rest) = and_then-inv (run es) (step e s) h in
    let (consented, offered) = run-asks es s₁ s' rest in
    (
      omega (arith, step-installs e s s₁ first, consented, consents-cons e es),
      omega (arith, step-owed e s s₁ first, offered, asked-cons e es),
    )

-- Neither `w` nor a URL that a tunnel reports.
abbrev pub quiet : ShareEvent → Bool
quiet (public_link available supported size) = false
quiet (background (found id url path)) = false
quiet _ = true

abbrev pub AllQuiet : List ShareEvent → Type 0
AllQuiet [] = Unit {0}
AllQuiet (e ∷ es) = (quiet e ≡ true) × AllQuiet es

abbrev pub is_on : TunnelState → Bool
is_on on = true
is_on _ = false

-- The URLs stay, and the tunnel is not on.
abbrev pub Dead : Share → Share → Type 0
Dead s s' = (s'.urls ≡ s.urls) × (is_on s'.tunnel.state ≡ false)
