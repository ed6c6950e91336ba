-- ===== src/Web/Tunnel/Stuck.antt =====
-- Orders of events in which the state of the tunnel and its process part (Web/Tunnel).
use timberlake.Base.{
  member, remove, ℕ, suc, ◌≡◌, refl, Bool, true, false, List, [], ◌∷◌, ◌++◌, none, some, arith,
}
use timberlake.Io.{Text, Error, message}
use timberlake.Strings.{trim_right}
use timberlake.Web.Tunnel.{
  starting, on, failed, Tunnel, no_pipe, launched, begin, launch, found, exited, stop, is_active,
  is_off, on_begin, on_launch, on_found, on_exited, on_stop, step, run,
}

abbrev begun : Tunnel → Tunnel
begun t = record t { state = starting; url = []; error = none; launching = suc t.launching }

begin-inactive : (t : Tunnel) → is_active t.state ≡ false → step (begin true) t ≡ some (begun t)
unfolding step on_begin
begin-inactive t idle = rw idle refl

-- With a process of its own.
abbrev running : Tunnel → Tunnel
running t = record t {
  state = starting;
  url = [];
  error = none;
  process = some t.next;
  watching = t.next ∷ t.watching;
  waiting = t.next ∷ t.waiting;
  next = suc t.next;
}

launch_running : (t : Tunnel) → step (launch launched) (begun t) ≡ some (running t)
unfolding step on_launch
launch_running t = refl

-- If StderrPipe fails in a Start of a tunnel that is neither starting nor on, the state is
-- TunnelStarting with no process started, and from then on Start does nothing.
pub no_pipe_stuck :
    (t : Tunnel) (e : Error) (available : Bool)
    → is_active t.state ≡ false
    → (t' : Tunnel) × (run (begin true ∷ launch (no_pipe e) ∷ []) t ≡ some t')
      × (t'.state ≡ starting)
      × (t'.process ≡ t.process)
      × (t'.watching ≡ t.watching)
      × (step (begin available) t' ≡ some t')
unfolding run
no_pipe_stuck t e available idle = (
  record (begun t) { launching = t.launching },
  rw (begin-inactive t idle) (unfold step on_launch in refl),
  refl,
  refl,
  refl,
  unfold step on_begin is_active in refl,
)

member-head : (n : ℕ) (ms : List ℕ) → member n (n ∷ ms) ≡ true
unfolding member
member-head n ms = ground arith

member-tail : (n m : ℕ) (ms : List ℕ) → member n ms ≡ true → member n (m ∷ ms) ≡ true
unfolding member
member-tail n m ms h = ground arith

-- A goroutine that still reads the stderr of a process puts the tunnel back to TunnelOn after Stop
-- has cancelled the process, and no process is left for Stop. The tunnel was neither starting nor on
-- before.
pub stop-found :
    (t : Tunnel) (url path : Text)
    → is_active t.state ≡ false
    → (t' : Tunnel) × (run (begin true ∷ launch launched ∷ stop ∷ found t.next url path ∷ []) t
        ≡ some t')
      × (t'.state ≡ on)
      × (t'.process ≡ none)
      × (member t.next t'.cancelled ≡ true)
unfolding run
stop-found t url path idle = (
  record (on_stop (running t)) {
    state = on;
    url = trim_right b'/' url ++ path;
    error = none;
    watching = remove t.next (t.next ∷ t.watching);
  },
  rw (begin-inactive t idle, launch_running t)
      (unfold step on_stop on_found in rw (member-head t.next t.watching) refl),
  refl,
  unfold on_stop in refl,
  unfold on_stop in member-head t.next t.cancelled,
)

-- The exit of a process that Stop has cancelled puts a tunnel that has been started again to
-- TunnelFailed, while its new process has not been cancelled. The tunnel was neither starting nor on
-- before.
pub stop-exited :
    (t : Tunnel)
    → is_active t.state ≡ false
    → (t' : Tunnel) × (run
          (begin true ∷ launch launched ∷ stop ∷ begin true ∷ launch launched ∷ exited t.next ∷ [])
          t
        ≡ some t')
      × (t'.state ≡ failed)
      × (t'.process ≡ some (suc t.next))
      × (t'.cancelled ≡ t.next ∷ t.cancelled)
unfolding run
stop-exited t idle =
    let t₁ = on_stop (running t) in
    (
      record (running t₁) {
        state = failed;
        url = [];
        error = some (message "cloudflared exited");
        waiting = remove t.next (running t₁).waiting;
      },
      rw (begin-inactive t idle, launch_running t)
          (unfold step on_stop on_begin is_active on_launch on_exited is_off in
            rw (member-tail t.next (suc t.next) (t.next ∷ t.waiting) (member-head t.next t.waiting))
              refl),
      refl,
      unfold on_stop in refl,
      unfold on_stop in refl,
    )
